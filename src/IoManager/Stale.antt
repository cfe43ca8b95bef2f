-- ===== src/IoManager/Stale.antt =====
-- A report that the handling survives names only what is registered, or changes nothing.
use siempre.Base.{
  ℕ, ◌≡◌, refl, Bool, true, false, ◌∷◌, ◌⊎◌, inl, inr, none, some, get_elem?, arith, Bool-cases,
}
use siempre.IoManager.Context.{Event, FdContext, read_event, write_event, meet, without, is_set}
use siempre.IoManager.Context.Keeps.{trigger_event_off}
use siempre.IoManager.{
  Manager, fired, fire_if, then_write, leaving, Ready, real_events, handle_event, handle_in,
  left_after,
}
use siempre.IoManager.Keeps.{Counted, IsValid, fire_lem}
use siempre.IoManager.Logged.{relogged}
use siempre.IoManager.Reported.{handles, handle_off}

fire_off :
    (m : Manager) (fd : ℕ) (c : FdContext) (e : Event)
    → is_set (meet c.events e) ≡ false
    → fire_if true e fd m c ≡ none
unfolding fire_if fired
fire_off m fd c e h = rw (trigger_event_off c e h) refl

-- The triggers of the directions in turn fail, or each of the directions is registered.
abbrev Survived : Manager → ℕ → FdContext → Bool → Bool → Type 0
Survived m fd c r w =
    (then_write w fd (fire_if r read_event fd m c) ≡ none)
    ⊎ ((r ≡ true → c.events.read ≡ true) × (w ≡ true → c.events.write ≡ true))

module _ (m : Manager) (fd : ℕ) (c : FdContext) (v : Counted m)
    (q : get_elem? m.contexts fd ≡ some c) where
  write_next :
      c.events.read ≡ true
      → c.events.write ≡ false
      → then_write true fd (fire_if true read_event fd m c) ≡ none
  unfolding then_write
  write_next on h =
      let (m1, c1, e, f) = fire_lem m fd c read_event v q refl (ground arith) in
      rw e (fire_off m1 fd c1 write_event (ground (arith, f.events)))

  survived : (r w : Bool) → Survived m fd c r w
  unfolding then_write
  survived false false = inr ((λ e. cc), (λ e. cc))
  survived false true = elim (Bool-cases c.events.write) [
    | inl h ↦ inr ((λ e. cc), (λ e. h))
    | inr h ↦ inl (unfold fire_if in fire_off m fd c write_event (ground arith))
  ]
  survived true w = elim (Bool-cases c.events.read) [
    | inl h ↦ elim (Bool-cases c.events.write) [
      | inl k ↦ inr ((λ e. h), (λ e. k))
      | inr k ↦ go w h k
    ]
    | inr h ↦ inl (rw (fire_off m fd c read_event (ground arith)) refl)
  ]
    where
      go : (w : Bool) → c.events.read ≡ true → c.events.write ≡ false → Survived m fd c true w
      go false h k = inr ((λ e. h), (λ e. cc))
      go true h k = inl (write_next h k)

pub handle_event-none :
    (m : Manager) (fd : ℕ) (r : Ready) (ok : Bool)
    → get_elem? m.contexts fd ≡ none
    → handle_event m fd r ok ≡ none
unfolding handle_event
handle_event-none m fd r ok q = rw q refl

dead :
    (m : Manager) (fd : ℕ) (c : FdContext) (r : Ready) (ok : Bool)
    → handles c r ok ≡ true
    → then_write (real_events r c.events).write fd (
        fire_if
          (real_events r c.events).read
          read_event
          fd
          (record m { epoll = leaving fd (without c.events (real_events r c.events)) ∷ m.epoll })
          c)
      ≡ none
    → handle_in m fd (some c) r ok ≡ none
unfolding handle_in
dead m fd c r false h k = absurd (ground arith)
dead m fd c r true h k =
    let on : is_set (meet c.events (real_events r c.events)) ≡ true = ground arith in
    rw (on, k, left_after) refl

-- A report that has grown stale ends the process: it names input or output of a descriptor, that
-- direction is registered no more, something registered has happened too, so that idle calls
-- epoll_ctl, and epoll_ctl succeeds.
pub handle_event_stale :
    (m : Manager) (fd : ℕ) (c : FdContext) (r : Ready)
    → IsValid m
    → get_elem? m.contexts fd ≡ some c
    → is_set (meet c.events (real_events r c.events)) ≡ true
    → ((r.input ≡ true) × (c.events.read ≡ false)) ⊎ ((r.output ≡ true) × (c.events.write ≡ false))
    → handle_event m fd r true ≡ none
unfolding handle_event
handle_event_stale m fd c r v q on stale =
    elim (survived logged fd c (relogged m _ v.counts) q real.read real.write) [
      | inl k ↦ rw q (dead m fd c r true (ground arith) k)
      | inr (a, b) ↦ elim stale [
        | inl (i, off) ↦ absurd (ground (arith, a (ground arith)))
        | inr (o, off) ↦ absurd (ground (arith, b (ground arith)))
      ]
    ]
  where
    real : Event
    real = real_events r c.events

    logged : Manager
    logged = record m { epoll = leaving fd (without c.events real) ∷ m.epoll }

-- If the handling of a report does not end the process, then it changes nothing, or the report names
-- as input and output only what is registered.
pub survives_report :
    (m m' : Manager) (fd : ℕ) (c : FdContext) (r : Ready) (ok : Bool)
    → IsValid m
    → get_elem? m.contexts fd ≡ some c
    → handle_event m fd r ok ≡ some m'
    → (m' ≡ m)
      ⊎ ((r.input ≡ true → c.events.read ≡ true) × (r.output ≡ true → c.events.write ≡ true))
unfolding handle_event
survives_report m m' fd c r ok v q e = elim (Bool-cases (handles c r ok)) [
  | inr h ↦ inl (unchanged h)
  | inl h ↦ elim (survived logged fd c (relogged m _ v.counts) q real.read real.write) [
    | inl k ↦ absurd (ends (rw q (dead m fd c r ok h k)))
    | inr (a, b) ↦ inr ((λ z. a (ground arith)), (λ z. b (ground arith)))
  ]
]
  where
    real : Event
    real = real_events r c.events

    logged : Manager
    logged = record m { epoll = leaving fd (without c.events real) ∷ m.epoll }

    unchanged : handles c r ok ≡ false → m' ≡ m
    unchanged h = ground (arith, e, q, handle_off m fd c r v q ok h)

    ends : handle_event m fd r ok ≡ none → ⊥
    ends h = ground (arith, e, h)
