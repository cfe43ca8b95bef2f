-- ===== src/Timer/Tests.antt =====
-- Runs of the timer manager, and the theorems at concrete managers.
use siempre.Base.{
  ℕ, List, ap, inl, inr, ◌+◌, ◌≤◌, ◌≢◌, ◌↔◌, ◌≡◌, refl, true, false, [], ◌∷◌, none, some, arith,
  ◌==◌, if◌then◌else◌, is_some, In,
}
use siempre.Timer.{Timer, Manager, cancel, get_next_timer, list_expired_cb, rolled_back}
use siempre.Timer.Keeps.{IsValid}
use siempre.Timer.History.{
  Call, adds, cancels, refreshes, waits, expires, new_manager, run, history_valid,
}
use siempre.Timer.Expired.{list_expired_cb_lem}
use siempre.Timer.Handles.{cancel_total}

abbrev periodic : Timer
periodic = record { recurring = true; ms = 10; next = 100; cb = some 7 }

abbrev single : Timer
single = record { recurring = false; ms = 5; next = 50; cb = some 8 }

abbrev blank : Timer
blank = record { recurring = false; ms = 0; next = 0; cb = none }

-- Two timers, the one-shot first.
abbrev two_timers : Manager
two_timers = record {
  objects = λ a. if a == 1 then periodic else if a == 2 then single else blank;
  timers = 2 ∷ 1 ∷ [];
  tickled = false;
  previous = 40;
}

two_timers-IsValid : IsValid two_timers
two_timers-IsValid = record { sorted = ((refl, tt), (tt, tt)); armed = λ a h. ground arith }

expired_run :
    list_expired_cb two_timers 100 9 ≡ ((list_expired_cb two_timers 100 9).0, some 8 ∷ some 7 ∷ [])
unfolding list_expired_cb
expired_run = refl

expired_timers : (list_expired_cb two_timers 100 9).0.timers ≡ 1 ∷ []
unfolding list_expired_cb
expired_timers = refl

wait_time : (get_next_timer two_timers 40).1 ≡ 10
unfolding get_next_timer
wait_time = refl

list_expired_cb_lem_example : (list_expired_cb two_timers 60 9).1 ≡ some 8 ∷ []
unfolding rolled_back
list_expired_cb_lem_example = (list_expired_cb_lem two_timers 60 9 two_timers-IsValid).0

cancel_total_example :
    (m' : Manager) × (cancel two_timers 2 ≡ some (m', true))
    × IsValid m'
    × ((m'.objects 2).cb ≡ none)
    × (is_some single.cb ≡ true → ¬ In 2 m'.timers)
    × ((b : ℕ) → b ≢ 2 → In b two_timers.timers ↔ In b m'.timers)
cancel_total_example = cancel_total two_timers 2 two_timers-IsValid

abbrev total : List ℕ → ℕ
total [] = 0
total (x ∷ xs) = x + total xs

total_bound : (a : ℕ) (xs : List ℕ) → In a xs → a ≤ total xs
total_bound a [] h = absurd h
total_bound a (x ∷ xs) (inl e) = ground arith
total_bound a (x ∷ xs) (inr h) = omega (arith, total_bound a xs h)

abbrev beyond : ℕ → Manager → ℕ
beyond seed m = seed + total m.timers + 1

beyond_free : (seed : ℕ) (m : Manager) → ¬ In (beyond seed m) m.timers
beyond_free seed m h = omega (arith, total_bound (beyond seed m) m.timers h)

abbrev calls : List Call
calls = adds 4 10 (some 7) true 90 ∷ expires 200 3 ∷ cancels 5 ∷ refreshes 5 210 ∷ waits 220 ∷ []

history_valid_example : is_some (run beyond (new_manager 80) calls) ≡ true
history_valid_example = ap is_some (history_valid beyond 80 calls beyond_free).1
