-- ===== src/IoManager/CancelAll.antt =====
-- What cancelAll does.
use siempre.Base.{
  ℕ, ◌≡◌, refl, Bool, true, false, ◌&&◌, ◌∷◌, Option, none, some, get_elem?, arith, Bool-cases, inl,
  inr, ◌⊎◌,
}
use siempre.IoManager.Context.{FdContext, no_event, read_event, is_set}
use siempre.IoManager.{
  delete, Ctl, Manager, fire_if, then_write, cancel_all, cancel_all_in, then_write_registered,
  all_gone,
}
use siempre.IoManager.Keeps.{Counted, IsValid, Fires, fire_lem}
use siempre.IoManager.Triggers.{Fired, fire_both}
use siempre.IoManager.Logged.{Triggers, relogged, unchanged-Triggers, logged-Triggers}

fire_read_write :
    (m m' : Manager) (fd : ℕ) (c c' : FdContext) (r : Bool)
    → Counted m
    → get_elem? m.contexts fd ≡ some c
    → (r ≡ true → c.events.read ≡ true)
    → fire_if r read_event fd m c ≡ some (m', c')
    → c'.events.write ≡ c.events.write
fire_read_write m m' fd c c' false v q on e = unfold fire_if in ground arith
fire_read_write m m' fd c c' true v q on e =
    go (fire_lem m fd c read_event v q refl (ground (arith, on refl)))
  where
    go :
        (m1 : Manager) × (c1 : FdContext) × (fire_if true read_event fd m c ≡ some (m1, c1))
          × Fires m m1 fd c c1 read_event
        → c'.events.write ≡ c.events.write
    go (m1, c1, r1, f1) = ground (arith, f1.events, e, r1)

-- Behind the first trigger the two ways to ask for the second agree.
asks_same :
    (fd : ℕ) (w : Bool) (o : Option (Manager × FdContext))
    → ((m : Manager) (c : FdContext) → o ≡ some (m, c) → c.events.write ≡ w)
    → then_write_registered fd o ≡ then_write w fd o
unfolding then_write_registered then_write
asks_same fd w none h = refl
asks_same fd w (some (m, c)) h = rw (h m c refl) refl

module _ (m : Manager) (fd : ℕ) (c : FdContext) (v : IsValid m)
    (q : get_elem? m.contexts fd ≡ some c) where
  cancel_call : Ctl
  cancel_call = record { op = delete; fd = fd; events = no_event }

  cancel_on :
      is_set c.events ≡ true
      → (m' : Manager) × (cancel_all_in m fd (some c) true ≡ some (m', true))
        × Triggers m m' fd c c.events true
  unfolding cancel_all_in cancel_call
  cancel_on on = go (
      fire_both logged fd c c.events.read c.events.write
        (relogged m (cancel_call ∷ m.epoll) v.counts) q (λ h. h) (λ h. h))
    where
      logged : Manager
      logged = record m { epoll = cancel_call ∷ m.epoll }

      same :
          then_write_registered fd (fire_if c.events.read read_event fd logged c)
          ≡ then_write c.events.write fd (fire_if c.events.read read_event fd logged c)
      same = asks_same fd c.events.write _ (λ m1 c1 e.
          fire_read_write logged m1 fd c c1 c.events.read
            (relogged m (cancel_call ∷ m.epoll) v.counts) q (λ h. h) e)

      go :
          Fired logged fd c c.events.read c.events.write
          → (m' : Manager) × (cancel_all_in m fd (some c) true ≡ some (m', true))
            × Triggers m m' fd c c.events true
      go (m', c', e, f) = (
        m',
        rw (on, same, e, all_gone) (rw f.events (ground arith)),
        logged-Triggers m m' fd c c' c.events cancel_call v refl (ground arith) f,
      )

-- In a valid manager `cancelAll` answers whether anything was registered for the descriptor and epoll
-- agreed. Then what was registered is handed to the schedulers it was registered with, reading first,
-- nothing stays registered for the descriptor, and its last assertion holds; otherwise nothing changes.
pub cancel_all_lem :
    (m : Manager) (fd : ℕ) (c : FdContext) (ok : Bool)
    → IsValid m
    → get_elem? m.contexts fd ≡ some c
    → (m' : Manager) × (cancel_all m fd ok ≡ some (m', is_set c.events && ok))
      × Triggers m m' fd c c.events (is_set c.events && ok)
unfolding cancel_all
cancel_all_lem m fd c ok v q = go ok (Bool-cases (is_set c.events))
  where
    go :
        (ok : Bool)
        → (is_set c.events ≡ true) ⊎ (is_set c.events ≡ false)
        → (m' : Manager) × (cancel_all_in m fd (get_elem? m.contexts fd) ok
            ≡ some (m', is_set c.events && ok))
          × Triggers m m' fd c c.events (is_set c.events && ok)
    go ok (inr h) = rw (q, h) (m, refl, unchanged-Triggers m fd c c.events v q)
    go true (inl h) = let r = cancel_on m fd c v q h in rw (q, h) (r.0, rw h at (r.1), r.2)
    go false (inl h) = rw (q, h) (m, refl, unchanged-Triggers m fd c c.events v q)

-- A descriptor outside the vector is refused.
pub cancel_all_outside :
    (m : Manager) (fd : ℕ) (ok : Bool)
    → get_elem? m.contexts fd ≡ none
    → cancel_all m fd ok ≡ some (m, false)
unfolding cancel_all
cancel_all_outside m fd ok q = rw q refl
