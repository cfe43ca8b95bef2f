-- ===== src/Timer/History.antt =====
-- Whole runs of the manager of src/Thread/Timer.cc, from its constructor.
use siempre.Base.{
  ℕ, ◌≡◌, refl, Bool, true, false, List, [], ◌∷◌, Option, none, some, In, ◌>>=◌, is_some, arith,
}
use siempre.Timer.{
  Timer, Manager, add_timer, cancel, refresh, reset, get_next_timer, list_expired_cb, deadline,
}
use siempre.Timer.Keeps.{IsValid, add_timer-IsValid, refresh-IsValid, reset-IsValid}
use siempre.Timer.Handles.{cancel_total}
use siempre.Timer.Expired.{list_expired_cb-IsValid}
use siempre.Timer.Order.{IsSorted}

-- A call of a method, with what the clock says and, for a new timer, the allocator's seed.
pub data Call : Type 0 where
  adds : ℕ → ℕ → Option ℕ → Bool → ℕ → Call
  cancels : ℕ → Call
  refreshes : ℕ → ℕ → Call
  resets : ℕ → ℕ → Bool → ℕ → Call
  waits : ℕ → Call
  expires : ℕ → ℕ → Call

abbrev no_timer : Timer
no_timer = record { recurring = false; ms = 0; next = 0; cb = none }

abbrev pub new_manager : ℕ → Manager
new_manager now = record { objects = λ a. no_timer; timers = []; tickled = false; previous = now }

waited-IsValid : (m : Manager) (now : ℕ) → IsValid m → IsValid (get_next_timer m now).0
unfolding get_next_timer
waited-IsValid m now v = record { sorted = v.sorted; armed = v.armed }

-- The allocator gives an address that no timer of the set has.
module _ (alloc : ℕ → Manager → ℕ) where
  abbrev pub step : Manager → Call → Option Manager
  step m (adds seed ms cb recurring now) = some (add_timer m (alloc seed m) ms cb recurring now).0
  step m (cancels a) = do r ← cancel m a; some r.0
  step m (refreshes a now) = some (refresh m a now).0
  step m (resets a ms from_now now) = some (reset m a ms from_now now).0
  step m (waits now) = some (get_next_timer m now).0
  step m (expires now probe) = some (list_expired_cb m now probe).0

  abbrev pub run : Manager → List Call → Option Manager
  run m [] = some m
  run m (c ∷ cs) = do n ← step m c; run n cs

  step_lem :
      (m : Manager) (c : Call)
      → ((seed : ℕ) (n : Manager) → ¬ In (alloc seed n) n.timers)
      → IsValid m
      → (n : Manager) × (step m c ≡ some n) × IsValid n
  step_lem m (adds seed ms cb recurring now) free v =
      (_, refl, add_timer-IsValid m (alloc seed m) ms cb recurring now v (free seed m))
  step_lem m (cancels a) free v = let r = cancel_total m a v in (r.0, rw r.1 refl, r.2)
  step_lem m (refreshes a now) free v = (_, refl, refresh-IsValid m a now v)
  step_lem m (resets a ms from_now now) free v = (_, refl, reset-IsValid m a ms from_now now v)
  step_lem m (waits now) free v = (_, refl, waited-IsValid m now v)
  step_lem m (expires now probe) free v = (_, refl, list_expired_cb-IsValid m now probe v)

  run_lem :
      (m : Manager) (cs : List Call)
      → ((seed : ℕ) (n : Manager) → ¬ In (alloc seed n) n.timers)
      → IsValid m
      → (n : Manager) × (run m cs ≡ some n) × IsValid n
  run_lem m [] free v = (m, refl, v)
  run_lem m (c ∷ cs) free v =
      let s = step_lem m c free v in let r = run_lem s.0 cs free s.2 in (r.0, rw s.1 r.1, r.2)

-- Whatever methods are called on a new manager, and whatever the clock says, no call erases at
-- `end()`, the set stays in the order of the deadlines, and every timer with a callback is in it;
-- provided that the allocator never gives the address of a timer of the set.
pub history_valid :
    (alloc : ℕ → Manager → ℕ) (start : ℕ) (cs : List Call)
    → ((seed : ℕ) (n : Manager) → ¬ In (alloc seed n) n.timers)
    → (m : Manager) × (run alloc (new_manager start) cs ≡ some m)
      × IsSorted (deadline m.objects) m.timers
      × ((a : ℕ) → is_some (m.objects a).cb ≡ true → In a m.timers)
history_valid alloc start cs free =
    let v : IsValid (new_manager start) = record { sorted = tt; armed = λ a h. ground arith } in
    let r = run_lem alloc (new_manager start) cs free v in (r.0, r.1, r.2.sorted, r.2.armed)
