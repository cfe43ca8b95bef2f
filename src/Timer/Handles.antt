-- ===== src/Timer/Handles.antt =====
-- What the owner of a timer and the event loop may rely on: cancellation, the rescheduling calls,
-- and the time to wait.
use siempre.Base.{
  ℕ, ◌+◌, ◌-◌, ◌≡◌, ◌≢◌, ◌≤◌, ◌⊎◌, ◌↔◌, inl, inr, refl, Bool, true, false, not, ◌&&◌, ◌||◌, List,
  [], ◌∷◌, Option, none, some, arith, ◌==◌, if◌then◌else◌, is_some, All, In, Bool-cases, ◌^◌,
}
use siempre.Timer.Order.{
  All-In, All-before_trans, before, insert, erase, IsSorted, erase-IsSorted, not-In-erase, erase-In,
  In-erase, In-insert_self, In-find,
}
use siempre.Timer.{
  reset_start, Timer, new_timer, Manager, deadline, put, add_timer, cancel, refresh, reset, u64,
  get_next_timer, no_timeout, next_timeout, is_front,
}
use siempre.Timer.Keeps.{IsValid, cancelled, cancel_lem, put-IsSorted, disarmed, disarmed-IsSorted}

cancelled-IsValid : (m : Manager) (a : ℕ) → IsValid m → IsValid (cancelled m a)
cancelled-IsValid m a v = record {
  sorted = erase-IsSorted (deadline (disarmed m.objects a)) a m.timers (disarmed-IsSorted m a v);
  armed = λ b h. elim (Bool-cases (b == a)) [
    | inl e ↦ ground arith
    | inr e ↦
        In-erase (deadline (disarmed m.objects a)) a b m.timers (ground arith)
          (v.armed b (ground arith))
  ];
}

-- In a valid manager `cancel` never erases at `end()`. It answers whether the timer still had a
-- callback; then the timer has none and is out of the set, every other timer of the set stays, and
-- the manager stays valid.
pub cancel_total :
    (m : Manager) (a : ℕ)
    → IsValid m
    → (m' : Manager) × (cancel m a ≡ some (m', is_some (m.objects a).cb))
      × IsValid m'
      × ((m'.objects a).cb ≡ none)
      × (is_some (m.objects a).cb ≡ true → ¬ In a m'.timers)
      × ((b : ℕ) → b ≢ a → In b m.timers ↔ In b m'.timers)
cancel_total m a v = elim (Bool-cases (is_some (m.objects a).cb)) [
  | inl e ↦ (
    cancelled m a,
    ground (arith, cancel_lem m a v),
    cancelled-IsValid m a v,
    ground arith,
    λ _. not-In-erase (deadline (disarmed m.objects a)) a m.timers (disarmed-IsSorted m a v),
    λ b n. (
      In-erase (deadline (disarmed m.objects a)) a b m.timers n,
      erase-In (deadline (disarmed m.objects a)) a b m.timers,
    ),
  )
  | inr e ↦ (m, ground (arith, cancel_lem m a v), v, ground arith, λ h. cc, λ b n. (λ h. h, λ h. h))
]

-- `refresh` in a valid manager answers true exactly for a timer that has a callback. Then its
-- deadline is one interval from now and it is in the set; a refusal changes nothing.
pub refresh_lem :
    (m : Manager) (a now : ℕ)
    → IsValid m
    → let r = refresh m a now in
      (r.1 ≡ is_some (m.objects a).cb)
      × (is_some (m.objects a).cb ≡ true
          → ((r.0.objects a).next ≡ u64 (now + (m.objects a).ms)) × In a r.0.timers)
      × (is_some (m.objects a).cb ≡ false → r.0 ≡ m)
unfolding refresh
refresh_lem m a now v = ground (
  arith,
  In-find (deadline m.objects) a m.timers v.sorted,
  v.armed a,
  In-insert_self
      (deadline (put m.objects a (record (m.objects a) { next = u64 (now + (m.objects a).ms) }))) a
      (erase (deadline m.objects) a m.timers),
)

next_timeout_bound :
    (next : ℕ → ℕ) (now : ℕ) (xs : List ℕ)
    → IsSorted next xs
    → (b : ℕ) → In b xs
    → next_timeout next xs now ≤ next b - now
unfolding next_timeout
next_timeout_bound next now [] s b h = elim h [ ]
next_timeout_bound next now (x ∷ xs) s b (inl e) = ground arith
next_timeout_bound next now (x ∷ xs) s b (inr h) = ground (arith, All-In next x b xs s.0 h)

next_timeout_reached :
    (next : ℕ → ℕ) (now : ℕ) (xs : List ℕ)
    → (xs ≡ []) ⊎ ((b : ℕ) × In b xs × (next_timeout next xs now ≡ next b - now))
unfolding next_timeout
next_timeout_reached next now [] = inl refl
next_timeout_reached next now (x ∷ xs) = inr (x, inl refl, ground arith)

-- The time to wait is `~0ull` if there is no timer. Otherwise it is the time until some timer of the
-- set is due, 0 if that one is due, and no timer is due sooner. The flag that holds back
-- `onTimerInsertedAtFront` is cleared.
pub get_next_timer_lem :
    (m : Manager) (now : ℕ)
    → IsValid m
    → let r = get_next_timer m now in
      (m.timers ≡ [] → r.1 ≡ no_timeout)
      × ((m.timers ≡ []) ⊎ ((b : ℕ) × In b m.timers × (r.1 ≡ deadline m.objects b - now)))
      × ((b : ℕ) → In b m.timers → r.1 ≤ deadline m.objects b - now)
      × (r.0.tickled ≡ false)
unfolding get_next_timer
get_next_timer_lem m now v = (
  λ e. rw e refl,
  next_timeout_reached (deadline m.objects) now m.timers,
  next_timeout_bound (deadline m.objects) now m.timers v.sorted,
  refl,
)

-- A timer goes in front exactly when the comparator puts it before all others.
is_front-insert :
    (next : ℕ → ℕ) (a : ℕ) (xs : List ℕ)
    → ¬ In a xs
    → IsSorted next xs
    → (is_front a (insert next a xs) ≡ true) ↔ All (λ y. before next a y ≡ true) xs
unfolding is_front
is_front-insert next a [] n s = (λ _. tt, λ _. ground arith)
is_front-insert next a (x ∷ xs) n s =
    (λ h. ground (arith, All-before_trans next a x xs), λ h. ground arith)

-- A timer added at an address outside the set is in it, due one interval from now, and
-- `onTimerInsertedAtFront` is called exactly when it comes before all others and the event loop has
-- asked for its time to wait since the last call.
pub add_timer_lem :
    (m : Manager) (addr ms : ℕ) (cb : Option ℕ) (recurring : Bool) (now : ℕ)
    → IsValid m
    → ¬ In addr m.timers
    → let r = add_timer m addr ms cb recurring now in
      In addr r.0.timers
      × ((r.0.objects addr).next ≡ u64 (now + ms))
      × ((r.0.objects addr).cb ≡ cb)
      × ((r.1 ≡ true)
          ↔ (All (λ y. before (deadline r.0.objects) addr y ≡ true) m.timers × (m.tickled ≡ false)))
unfolding add_timer
add_timer_lem m addr ms cb recurring now v n =
    let o : ℕ → Timer = put m.objects addr (new_timer ms cb recurring now) in
    let s = put-IsSorted m.objects addr (new_timer ms cb recurring now) m.timers n v.sorted in
    let f = is_front-insert (deadline o) addr m.timers n s in
    (
      In-insert_self (deadline o) addr m.timers,
      ground arith,
      ground arith,
      (λ h. (f.0 (ground arith), ground arith), λ h. ground (arith, f.1 h.0)),
    )

-- `reset` in a valid manager answers true when nothing is to be changed or the timer has a callback.
-- If something is to be changed and it has one, it gets the new interval, counted from now or from
-- where the old one began, and is in the set; otherwise nothing changes.
pub reset_lem :
    (m : Manager) (a ms : ℕ) (from_now : Bool) (now : ℕ)
    → IsValid m
    → let t = m.objects a in
      let same = ms == t.ms && not from_now in
      let r = reset m a ms from_now now in
      (r.1 ≡ (same || is_some t.cb))
      × (same ≡ false
          → is_some t.cb ≡ true
          → ((r.0.objects a).ms ≡ ms)
            × ((r.0.objects a).next
                ≡ u64 ((if from_now then now else u64 (t.next + 2 ^ 64 - t.ms)) + ms))
            × In a r.0.timers)
      × ((same ≡ true) ⊎ (is_some t.cb ≡ false) → r.0 ≡ m)
unfolding reset
reset_lem m a ms from_now now v = ground (
  arith,
  In-find (deadline m.objects) a m.timers v.sorted,
  v.armed a,
  In-insert_self
      (deadline (
        put m.objects a (record (m.objects a) {
          ms = ms;
          next = u64 (reset_start (m.objects a) from_now now + ms);
        })))
      a (erase (deadline m.objects) a m.timers),
)
