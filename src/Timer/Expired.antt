-- ===== src/Timer/Expired.antt =====
-- `listExpiredCb` as a whole.
use siempre.Base.{
  ℕ, ◌≡◌, ◌⊎◌, ◌↔◌, inl, inr, refl, true, List, [], ◌∷◌, arith, if◌then◌else◌, All, In, Bool-cases,
  ltb, leb, map,
}
use siempre.Timer.Order.{IsSorted}
use siempre.Timer.{Manager, deadline, rearm, list_expired_cb, expired_split, none_due, rolled_back}
use siempre.Timer.Keeps.{IsValid}
use siempre.Timer.Due.{
  due, pending, split_due_lem, keep-none, keep-IsSorted, keep-In, In-keep, Distinct,
  sorted-Distinct,
}
use siempre.Timer.Rearm.{
  Between, renewed, spent, rearm-IsValid, rearm-callbacks, rearm_other, rearm_self, In-rearm,
  rearm-In,
}

-- The timers that are taken out: those that are due, or all of them after the clock went back.
abbrev pub taken : Manager → ℕ → List ℕ
taken m now = if rolled_back now m.previous then m.timers else due (deadline m.objects) now m.timers

abbrev pub left : Manager → ℕ → List ℕ
left m now = if rolled_back now m.previous then [] else pending (deadline m.objects) now m.timers

expired_split_lem :
    (m : Manager) (now probe : ℕ)
    → IsValid m
    → expired_split m now probe (rolled_back now m.previous) ≡ (taken m now, left m now)
unfolding expired_split
expired_split_lem m now probe v =
    ground (arith, split_due_lem (deadline m.objects) now probe m.timers v.sorted)

none_due_lem :
    (next : ℕ → ℕ) (now : ℕ) (xs : List ℕ)
    → IsSorted next xs
    → none_due next xs now ≡ true
    → (due next now xs ≡ []) × (pending next now xs ≡ xs)
unfolding none_due
none_due_lem next now [] s h = (refl, refl)
none_due_lem next now (x ∷ xs) s h = ground (arith, keep-none next now x xs)

-- The two early returns are rounds over no timer, so the method is the loop in every case.
abbrev emptied : Manager → ℕ → Manager
emptied m now = record m { timers = left m now; previous = now }

-- The method as the loop over `taken`, up to the field `m_previouseTime`.
pub expired_lem :
    (m : Manager) (now probe : ℕ)
    → IsValid m
    → let r = list_expired_cb m now probe in
      let s = rearm now (taken m now) (emptied m now) [] in
      (r.1 ≡ s.1) × (r.0.objects ≡ s.0.objects) × (r.0.timers ≡ s.0.timers)
unfolding list_expired_cb
expired_lem m now probe v = ground (
  arith,
  none_due_lem (deadline m.objects) now m.timers v.sorted,
  split_due_lem (deadline m.objects) now probe m.timers v.sorted,
)

taken-IsSorted : (m : Manager) (now : ℕ) → IsValid m → IsSorted (deadline m.objects) (taken m now)
taken-IsSorted m now v = elim (Bool-cases (rolled_back now m.previous)) [
  | inl e ↦ rw e v.sorted
  | inr e ↦ rw e (keep-IsSorted (deadline m.objects) _ m.timers v.sorted)
]

pub taken-Distinct : (m : Manager) (now : ℕ) → IsValid m → Distinct (taken m now)
taken-Distinct m now v = sorted-Distinct (deadline m.objects) (taken m now) (taken-IsSorted m now v)

left-IsSorted : (m : Manager) (now : ℕ) → IsValid m → IsSorted (deadline m.objects) (left m now)
left-IsSorted m now v = elim (Bool-cases (rolled_back now m.previous)) [
  | inl e ↦ rw e tt
  | inr e ↦ rw e (keep-IsSorted (deadline m.objects) _ m.timers v.sorted)
]

module _ (m : Manager) (now : ℕ) where
  In-left_not_taken : (b : ℕ) → In b (left m now) → ¬ In b (taken m now)
  In-left_not_taken b h k = ground (
    arith,
    keep-In (deadline m.objects) (λ x. ltb now (deadline m.objects x)) b m.timers,
    keep-In (deadline m.objects) (λ x. leb (deadline m.objects x) now) b m.timers,
  )

  In-left_or_taken : (b : ℕ) → In b m.timers → In b (left m now) ⊎ In b (taken m now)
  In-left_or_taken b h = ground (
    arith,
    In-keep (deadline m.objects) (λ x. ltb now (deadline m.objects x)) b m.timers h,
    In-keep (deadline m.objects) (λ x. leb (deadline m.objects x) now) b m.timers h,
  )

All-not_of_in : (P : ℕ → Type 0) (xs : List ℕ) → ((b : ℕ) → In b xs → P b) → All P xs
All-not_of_in P [] h = tt
All-not_of_in P (x ∷ xs) h = (h x (inl refl), All-not_of_in P xs (λ b i. h b (inr i)))

emptied-Between : (m : Manager) (now : ℕ) → IsValid m → Between (emptied m now) (taken m now)
emptied-Between m now v = record {
  sorted = left-IsSorted m now v;
  apart =
      All-not_of_in (λ a. ¬ In a (left m now)) (taken m now)
        (λ b h k. In-left_not_taken m now b k h);
  distinct = taken-Distinct m now v;
  armed = λ a h. In-left_or_taken m now a (v.armed a h);
}

IsValid-transfer :
    (m n : Manager) → m.objects ≡ n.objects → m.timers ≡ n.timers → IsValid n → IsValid m
IsValid-transfer m n e f v = record { sorted = rw (e, f) v.sorted; armed = rw (e, f) v.armed }

-- Handing out the expired callbacks keeps the manager valid.
pub list_expired_cb-IsValid :
    (m : Manager) (now probe : ℕ) → IsValid m → IsValid (list_expired_cb m now probe).0
list_expired_cb-IsValid m now probe v =
    let e = expired_lem m now probe v in
    IsValid-transfer (list_expired_cb m now probe).0 (rearm now (taken m now) (emptied m now) []).0
      e.1 e.2 (rearm-IsValid now (taken m now) (emptied m now) [] (emptied-Between m now v))

-- In a valid manager the callbacks handed out are exactly those of the timers taken out, in the
-- order of the set; each of these is renewed if it recurs and spent if not; no other timer changes;
-- and the set then holds the timers that were not taken and those taken that recur.
pub list_expired_cb_lem :
    (m : Manager) (now probe : ℕ)
    → IsValid m
    → let r = list_expired_cb m now probe in
      (r.1 ≡ map (λ b. (m.objects b).cb) (taken m now))
      × ((b : ℕ)
          → In b (taken m now)
          → r.0.objects b
            ≡ (if (m.objects b).recurring then renewed now (m.objects b) else spent (m.objects b)))
      × ((b : ℕ) → ¬ In b (taken m now) → r.0.objects b ≡ m.objects b)
      × ((b : ℕ)
          → In b r.0.timers
            ↔ (In b (left m now) ⊎ (In b (taken m now) × ((m.objects b).recurring ≡ true))))
list_expired_cb_lem m now probe v =
    let e = expired_lem m now probe v in
    let d = taken-Distinct m now v in
    (
      rw e.0 (rearm-callbacks now (taken m now) (emptied m now) [] d),
      λ b h. rw e.1 (rearm_self now (taken m now) (emptied m now) [] b d h),
      λ b h. rw e.1 (rearm_other now (taken m now) (emptied m now) [] b h),
      λ b. (
        λ h. rearm-In now (taken m now) (emptied m now) [] b d (rw e.2 at h),
        λ h. rw e.2 (In-rearm now (taken m now) (emptied m now) [] b d h),
      ),
    )
