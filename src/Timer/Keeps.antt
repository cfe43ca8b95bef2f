-- ===== src/Timer/Keeps.antt =====
-- The invariant of the timer manager, and that every operation keeps it.
use siempre.Base.{
  ℕ, ◌+◌, ◌≡◌, ◌≢◌, inl, inr, refl, Bool, true, false, List, [], ◌∷◌, Option, none, some, arith,
  ◌==◌, if◌then◌else◌, is_some, All, In, Bool-cases, ==_iff,
}
use siempre.Timer.Order.{
  before, insert, erase, IsSorted, insert-IsSorted, erase-IsSorted, In-insert_self, In-insert_other,
  In-erase, not-In-erase, In-find,
}
use siempre.Timer.{
  reset_start, Timer, Manager, deadline, put, new_timer, add_timer, cancel, refresh, reset, u64,
}

-- The set is in the comparator's order, and a timer that still has a callback is in it.
pub record IsValid (m : Manager) : Type 0 where
  pub sorted : IsSorted (deadline m.objects) m.timers
  pub armed : (a : ℕ) → is_some (m.objects a).cb ≡ true → In a m.timers

-- Only the deadlines of the set's own timers matter to its order.
All-frame :
    (next next' : ℕ → ℕ) (x : ℕ) (xs : List ℕ)
    → next x ≡ next' x
    → ((b : ℕ) → In b xs → next b ≡ next' b)
    → All (λ y. before next x y ≡ true) xs
    → All (λ y. before next' x y ≡ true) xs
All-frame next next' x [] e h k = tt
All-frame next next' x (y ∷ ys) e h k =
    (rw (← e, ← h y (inl refl)) k.0, All-frame next next' x ys e (λ b i. h b (inr i)) k.1)

pub IsSorted-frame :
    (next next' : ℕ → ℕ) (xs : List ℕ)
    → ((b : ℕ) → In b xs → next b ≡ next' b)
    → IsSorted next xs
    → IsSorted next' xs
IsSorted-frame next next' [] h s = tt
IsSorted-frame next next' (x ∷ xs) h s = (
  All-frame next next' x xs (h x (inl refl)) (λ b i. h b (inr i)) s.0,
  IsSorted-frame next next' xs (λ b i. h b (inr i)) s.1,
)

put_other : (o : ℕ → Timer) (a b : ℕ) (t : Timer) → b ≢ a → put o a t b ≡ o b
put_other o a b t n = ground arith

pub put_self : (o : ℕ → Timer) (a : ℕ) (t : Timer) → put o a t a ≡ t
put_self o a t = ground arith

In-ne : (a b : ℕ) (xs : List ℕ) → ¬ In a xs → In b xs → b ≢ a
In-ne a b xs n i e = n (rw (← e) i)

-- Writing an object that is not in the set leaves the set sorted.
pub put-IsSorted :
    (o : ℕ → Timer) (a : ℕ) (t : Timer) (xs : List ℕ)
    → ¬ In a xs
    → IsSorted (deadline o) xs
    → IsSorted (deadline (put o a t)) xs
put-IsSorted o a t xs n s =
    IsSorted-frame (deadline o) (deadline (put o a t)) xs
      (λ b i. ground (arith, put_other o a b t (In-ne a b xs n i))) s

-- Writing one whose deadline stays as it was leaves any set sorted.
put_same-IsSorted :
    (o : ℕ → Timer) (a : ℕ) (t : Timer) (xs : List ℕ)
    → t.next ≡ (o a).next
    → IsSorted (deadline o) xs
    → IsSorted (deadline (put o a t)) xs
put_same-IsSorted o a t xs e s =
    IsSorted-frame (deadline o) (deadline (put o a t)) xs (λ b i. ground arith) s

-- An object written and then inserted, where it was not in the set.
pub put-insert-IsValid :
    (m : Manager) (xs : List ℕ) (a : ℕ) (t : Timer) (tickled : Bool)
    → ¬ In a xs
    → IsSorted (deadline m.objects) xs
    → ((b : ℕ) → b ≢ a → is_some (m.objects b).cb ≡ true → In b xs)
    → IsValid (record m {
      objects = put m.objects a t;
      timers = insert (deadline (put m.objects a t)) a xs;
      tickled = tickled;
    })
put-insert-IsValid m xs a t tickled n s armed = record {
  sorted = insert-IsSorted next' a xs (put-IsSorted m.objects a t xs n s);
  armed = λ b h. elim (Bool-cases (b == a)) [
    | inl e ↦ rw ((==_iff b a).0 e) (In-insert_self next' a xs)
    | inr e ↦ In-insert_other next' a b xs (armed b (ground arith) (ground arith))
  ];
}
  where
    next' : ℕ → ℕ
    next' = deadline (put m.objects a t)

-- A new timer at an address that is not in the set.
pub add_timer-IsValid :
    (m : Manager) (addr ms : ℕ) (cb : Option ℕ) (recurring : Bool) (now : ℕ)
    → IsValid m
    → ¬ In addr m.timers
    → IsValid (add_timer m addr ms cb recurring now).0
unfolding add_timer
add_timer-IsValid m addr ms cb recurring now v n =
    put-insert-IsValid m m.timers addr (new_timer ms cb recurring now) _ n v.sorted
      (λ b _ h. v.armed b h)

erased_armed :
    (m : Manager) (a : ℕ)
    → IsValid m
    → (b : ℕ) → b ≢ a
    → is_some (m.objects b).cb ≡ true
    → In b (erase (deadline m.objects) a m.timers)
erased_armed m a v b n h = In-erase (deadline m.objects) a b m.timers n (v.armed b h)

pub refresh-IsValid : (m : Manager) (a now : ℕ) → IsValid m → IsValid (refresh m a now).0
unfolding refresh
refresh-IsValid m a now v = ground (
  arith,
  put-insert-IsValid m (erase (deadline m.objects) a m.timers) a
      (record (m.objects a) { next = u64 (now + (m.objects a).ms) }) m.tickled
      (not-In-erase (deadline m.objects) a m.timers v.sorted)
      (erase-IsSorted (deadline m.objects) a m.timers v.sorted) (erased_armed m a v),
)

pub reset-IsValid :
    (m : Manager) (a ms : ℕ) (from_now : Bool) (now : ℕ)
    → IsValid m
    → IsValid (reset m a ms from_now now).0
unfolding reset
reset-IsValid m a ms from_now now v =
    let t = m.objects a in
    let fresh : Timer = record t { ms = ms; next = u64 (reset_start t from_now now + ms) } in
    ground (
      arith,
      put-insert-IsValid m (erase (deadline m.objects) a m.timers) a fresh
          (reset m a ms from_now now).0.tickled
          (not-In-erase (deadline m.objects) a m.timers v.sorted)
          (erase-IsSorted (deadline m.objects) a m.timers v.sorted) (erased_armed m a v),
    )

-- `cancel` in a valid manager: the callback goes, and with it the timer's place in the set.
abbrev pub disarmed : (ℕ → Timer) → ℕ → ℕ → Timer
disarmed o a = put o a (record (o a) { cb = none })

abbrev pub cancelled : Manager → ℕ → Manager
cancelled m a = record m {
  objects = disarmed m.objects a;
  timers = erase (deadline (disarmed m.objects a)) a m.timers;
}

pub disarmed-IsSorted :
    (m : Manager) (a : ℕ) → IsValid m → IsSorted (deadline (disarmed m.objects a)) m.timers
disarmed-IsSorted m a v =
    put_same-IsSorted m.objects a (record (m.objects a) { cb = none }) m.timers refl v.sorted

pub cancel_lem :
    (m : Manager) (a : ℕ)
    → IsValid m
    → cancel m a
      ≡ (if is_some (m.objects a).cb then some (cancelled m a, true) else some (m, false))
unfolding cancel
cancel_lem m a v = elim (Bool-cases (is_some (m.objects a).cb)) [
  | inl e ↦ rw (
    e,
    In-find (deadline (disarmed m.objects a)) a m.timers (disarmed-IsSorted m a v) (v.armed a e),
  )
  | inr e ↦ rw e
]
