-- ===== src/IoManager/Reported.antt =====
-- The handling of what epoll_wait reports.
use siempre.Base.{
  ℕ, ◌≡◌, refl, Bool, true, false, ◌&&◌, ◌∷◌, some, get_elem?, arith, Bool-cases, inl, inr, ◌⊎◌,
}
use siempre.IoManager.Context.{Event, FdContext, meet, without, is_set}
use siempre.IoManager.{
  Ctl, Manager, leaving, Ready, real_events, handle_event, handle_in, left_after,
}
use siempre.IoManager.Keeps.{IsValid}
use siempre.IoManager.Triggers.{Fired, fire_both}
use siempre.IoManager.Logged.{Triggers, relogged, unchanged-Triggers, logged-Triggers}

module _ (m : Manager) (fd : ℕ) (c : FdContext) (r : Ready) (v : IsValid m)
    (q : get_elem? m.contexts fd ≡ some c) where
  abbrev real : Event
  real = real_events r c.events

  pub handle_off :
      (ok : Bool)
      → (is_set (meet c.events real) && ok) ≡ false
      → handle_in m fd (some c) r ok ≡ some m
  unfolding handle_in
  handle_off ok h = ground arith

  handle_on :
      (r.input ≡ true → c.events.read ≡ true)
      → (r.output ≡ true → c.events.write ≡ true)
      → is_set (meet c.events real) ≡ true
      → (m' : Manager) × (handle_in m fd (some c) r true ≡ some m') × Triggers m m' fd c real true
  unfolding handle_in
  handle_on hr hw on = go (
      fire_both (record m { epoll = call ∷ m.epoll }) fd c real.read real.write
        (relogged m (call ∷ m.epoll) v.counts) q (λ h. ground arith) (λ h. ground arith))
    where
      call : Ctl
      call = leaving fd (without c.events real)

      go :
          Fired (record m { epoll = call ∷ m.epoll }) fd c real.read real.write
          → (m' : Manager) × (handle_in m fd (some c) r true ≡ some m')
            × Triggers m m' fd c real true
      go (m', c', e, f) = (
        m',
        rw (on, e, left_after) refl,
        logged-Triggers m m' fd c c' real call v refl (ground arith) f,
      )

-- Whether the handling goes through: a registered event has happened and epoll agrees.
abbrev pub handles : FdContext → Ready → Bool → Bool
handles c r ok = is_set (meet c.events (real_events r c.events)) && ok

-- In a valid manager, when epoll_wait reports input or output of a descriptor only where it is
-- registered, the handling fails no assertion: it triggers each registered direction that is ready, or
-- on an error or hang-up each registered direction, reading first; hands what was registered for them
-- to their schedulers; unregisters exactly these; and leaves the manager valid. If nothing registered
-- has happened, or epoll refuses, nothing changes.
pub handle_event_lem :
    (m : Manager) (fd : ℕ) (c : FdContext) (r : Ready) (ok : Bool)
    → IsValid m
    → get_elem? m.contexts fd ≡ some c
    → (r.input ≡ true → c.events.read ≡ true)
    → (r.output ≡ true → c.events.write ≡ true)
    → (m' : Manager) × (handle_event m fd r ok ≡ some m')
      × Triggers m m' fd c (real_events r c.events) (handles c r ok)
unfolding handle_event
handle_event_lem m fd c r ok v q hr hw = go ok (Bool-cases (handles c r ok))
  where
    go :
        (ok : Bool)
        → (handles c r ok ≡ true) ⊎ (handles c r ok ≡ false)
        → (m' : Manager) × (handle_in m fd (get_elem? m.contexts fd) r ok ≡ some m')
          × Triggers m m' fd c (real_events r c.events) (handles c r ok)
    go ok (inr h) =
        rw (q, h)
          (m, handle_off m fd c r v q ok h, unchanged-Triggers m fd c (real_events r c.events) v q)
    go true (inl h) = rw (q, h) (handle_on m fd c r v q hr hw (ground arith))
    go false (inl h) = absurd (ground arith)

-- If epoll_ctl refuses, the handling changes nothing.
pub handle_event_refused :
    (m : Manager) (fd : ℕ) (c : FdContext) (r : Ready)
    → IsValid m
    → get_elem? m.contexts fd ≡ some c
    → handle_event m fd r false ≡ some m
unfolding handle_event
handle_event_refused m fd c r v q = rw q (handle_off m fd c r v q false (ground arith))
