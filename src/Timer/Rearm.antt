-- ===== src/Timer/Rearm.antt =====
-- The loop of `listExpiredCb` over the expired timers.
use siempre.Base.{
  ℕ, ◌+◌, ◌≡◌, ◌≢◌, ◌⊎◌, inl, inr, refl, true, List, [], ◌∷◌, ◌++◌, Option, none, arith, ◌==◌,
  if◌then◌else◌, is_some, All, In, Bool-cases, ==_iff, map, append_assoc, append-nil,
}
use siempre.Timer.Order.{
  insert, IsSorted, insert-IsSorted, In-insert_self, In-insert_other, insert-In,
}
use siempre.Timer.{Timer, Manager, deadline, put, u64, rearm}
use siempre.Timer.Keeps.{IsValid, put-IsSorted}
use siempre.Timer.Due.{Distinct}

-- Between two rounds: the timers still to be handled are out of the set, and only they and the
-- set's own may have a callback.
pub record Between (m : Manager) (later : List ℕ) : Type 0 where
  pub sorted : IsSorted (deadline m.objects) m.timers
  pub apart : All (λ a. ¬ In a m.timers) later
  pub distinct : Distinct later
  pub armed : (a : ℕ) → is_some (m.objects a).cb ≡ true → In a m.timers ⊎ In a later

-- What becomes of the timer at `a`: a new deadline, or no callback.
abbrev pub renewed : ℕ → Timer → Timer
renewed now t = record t { next = u64 (now + t.ms) }

abbrev pub spent : Timer → Timer
spent t = record t { cb = none }

abbrev again_key : ℕ → Manager → ℕ → ℕ → ℕ
again_key now m a = deadline (put m.objects a (renewed now (m.objects a)))

abbrev again : ℕ → Manager → ℕ → Manager
again now m a = record m {
  objects = put m.objects a (renewed now (m.objects a));
  timers = insert (again_key now m a) a m.timers;
}

abbrev once : Manager → ℕ → Manager
once m a = record m { objects = put m.objects a (spent (m.objects a)) }

apart-insert :
    (next : ℕ → ℕ) (a : ℕ) (xs later : List ℕ)
    → All (λ y. y ≢ a) later
    → All (λ b. ¬ In b xs) later
    → All (λ b. ¬ In b (insert next a xs)) later
apart-insert next a xs [] d k = tt
apart-insert next a xs (b ∷ bs) d k =
    (λ i. ground (arith, insert-In next a b xs i), apart-insert next a xs bs d.1 k.1)

again-Between :
    (now : ℕ) (m : Manager) (a : ℕ) (later : List ℕ)
    → Between m (a ∷ later)
    → Between (again now m a) later
again-Between now m a later v = record {
  sorted =
      insert-IsSorted (again_key now m a) a m.timers
        (put-IsSorted m.objects a (renewed now (m.objects a)) m.timers v.apart.0 v.sorted);
  apart = apart-insert (again_key now m a) a m.timers later v.distinct.0 v.apart.1;
  distinct = v.distinct.1;
  armed = λ b h. elim (Bool-cases (b == a)) [
    | inl e ↦ rw ((==_iff b a).0 e) (inl (In-insert_self (again_key now m a) a m.timers))
    | inr e ↦ ground (arith, v.armed b, In-insert_other (again_key now m a) a b m.timers)
  ];
}

once-Between :
    (m : Manager) (a : ℕ) (later : List ℕ) → Between m (a ∷ later) → Between (once m a) later
once-Between m a later v = record {
  sorted = put-IsSorted m.objects a (spent (m.objects a)) m.timers v.apart.0 v.sorted;
  apart = v.apart.1;
  distinct = v.distinct.1;
  armed = λ b h. ground (arith, v.armed b);
}

pub rearm-IsValid :
    (now : ℕ) (later : List ℕ) (m : Manager) (cbs : List (Option ℕ))
    → Between m later
    → IsValid (rearm now later m cbs).0
unfolding rearm
rearm-IsValid now [] m cbs v = record {
  sorted = v.sorted;
  armed = λ a h. ground (arith, v.armed a);
}
rearm-IsValid now (a ∷ later) m cbs v = ground (
  arith,
  rearm-IsValid now later (again now m a) (cbs ++ ((m.objects a).cb ∷ []))
      (again-Between now m a later v),
  rearm-IsValid now later (once m a) (cbs ++ ((m.objects a).cb ∷ [])) (once-Between m a later v),
)

map_cb-put :
    (o : ℕ → Timer) (a : ℕ) (t : Timer) (later : List ℕ)
    → All (λ y. y ≢ a) later
    → map (λ b. (put o a t b).cb) later ≡ map (λ b. (o b).cb) later
map_cb-put o a t [] d = refl
map_cb-put o a t (b ∷ bs) d = ground (arith, map_cb-put o a t bs d.1, d.0)

-- The callbacks handed out are those that the timers held, in the order of the set.
pub rearm-callbacks :
    (now : ℕ) (later : List ℕ) (m : Manager) (cbs : List (Option ℕ))
    → Distinct later
    → (rearm now later m cbs).1 ≡ cbs ++ map (λ b. (m.objects b).cb) later
unfolding rearm
rearm-callbacks now [] m cbs d = rw append-nil
rearm-callbacks now (a ∷ later) m cbs d = ground (
  arith,
  rearm-callbacks now later (again now m a) (cbs ++ ((m.objects a).cb ∷ [])) d.1,
  rearm-callbacks now later (once m a) (cbs ++ ((m.objects a).cb ∷ [])) d.1,
  map_cb-put m.objects a (renewed now (m.objects a)) later d.0,
  map_cb-put m.objects a (spent (m.objects a)) later d.0,
  append_assoc cbs ((m.objects a).cb ∷ []) (map (λ b. (m.objects b).cb) later),
)

All-not-In : (a : ℕ) (xs : List ℕ) → All (λ y. y ≢ a) xs → ¬ In a xs
All-not-In a [] k h = h
All-not-In a (x ∷ xs) k (inl e) = k.0 e
All-not-In a (x ∷ xs) k (inr h) = All-not-In a xs k.1 h

-- The loop writes no other object.
pub rearm_other :
    (now : ℕ) (later : List ℕ) (m : Manager) (cbs : List (Option ℕ)) (b : ℕ)
    → ¬ In b later
    → (rearm now later m cbs).0.objects b ≡ m.objects b
unfolding rearm
rearm_other now [] m cbs b n = refl
rearm_other now (a ∷ later) m cbs b n = ground (
  arith,
  rearm_other now later (again now m a) (cbs ++ ((m.objects a).cb ∷ [])) b (λ i. n (inr i)),
  rearm_other now later (once m a) (cbs ++ ((m.objects a).cb ∷ [])) b (λ i. n (inr i)),
  λ (e : a ≡ b). n (inl e),
)

-- Each expired timer is renewed if it recurs, and is spent if not.
pub rearm_self :
    (now : ℕ) (later : List ℕ) (m : Manager) (cbs : List (Option ℕ)) (b : ℕ)
    → Distinct later
    → In b later
    → (rearm now later m cbs).0.objects b
      ≡ (if (m.objects b).recurring then renewed now (m.objects b) else spent (m.objects b))
unfolding rearm
rearm_self now [] m cbs b d h = elim h [ ]
rearm_self now (a ∷ later) m cbs b d (inl e) = ground (
  arith,
  rearm_other now later (again now m a) (cbs ++ ((m.objects a).cb ∷ [])) b
      (rw (← e) (All-not-In a later d.0)),
  rearm_other now later (once m a) (cbs ++ ((m.objects a).cb ∷ [])) b
      (rw (← e) (All-not-In a later d.0)),
)
rearm_self now (a ∷ later) m cbs b d (inr h) =
    let n : a ≢ b = λ e. All-not-In a later d.0 (rw e h) in
    ground (
      arith,
      rearm_self now later (again now m a) (cbs ++ ((m.objects a).cb ∷ [])) b d.1 h,
      rearm_self now later (once m a) (cbs ++ ((m.objects a).cb ∷ [])) b d.1 h,
    )

-- The set loses no timer, and gains those of the expired that recur.
pub In-rearm :
    (now : ℕ) (later : List ℕ) (m : Manager) (cbs : List (Option ℕ)) (b : ℕ)
    → Distinct later
    → In b m.timers ⊎ (In b later × ((m.objects b).recurring ≡ true))
    → In b (rearm now later m cbs).0.timers
unfolding rearm
In-rearm now [] m cbs b d (inl h) = h
In-rearm now [] m cbs b d (inr (h, _)) = elim h [ ]
In-rearm now (a ∷ later) m cbs b d h = ground (
  arith,
  In-rearm now later (again now m a) (cbs ++ ((m.objects a).cb ∷ [])) b d.1,
  In-rearm now later (once m a) (cbs ++ ((m.objects a).cb ∷ [])) b d.1,
  In-insert_self (again_key now m a) a m.timers,
  In-insert_other (again_key now m a) a b m.timers,
)

pub rearm-In :
    (now : ℕ) (later : List ℕ) (m : Manager) (cbs : List (Option ℕ)) (b : ℕ)
    → Distinct later
    → In b (rearm now later m cbs).0.timers
    → In b m.timers ⊎ (In b later × ((m.objects b).recurring ≡ true))
unfolding rearm
rearm-In now [] m cbs b d h = inl h
rearm-In now (a ∷ later) m cbs b d h = ground (
  arith,
  rearm-In now later (again now m a) (cbs ++ ((m.objects a).cb ∷ [])) b d.1,
  rearm-In now later (once m a) (cbs ++ ((m.objects a).cb ∷ [])) b d.1,
  insert-In (again_key now m a) a b m.timers,
)
