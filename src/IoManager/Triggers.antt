-- ===== src/IoManager/Triggers.antt =====
-- The triggers of one or both directions in turn, as cancelAll and idle make them.
use siempre.Base.{
  ℕ, ◌≡◌, refl, sym, Bool, true, false, List, [], ◌++◌, some, if◌then◌else◌, ◌==◌, get_elem?, arith,
  Bool-cases, inl, inr, ap, ap₂, ==_iff, ◌∙◌, append_assoc, append-nil,
}
use siempre.IoManager.Context.{Event, FdContext, Scheduled, read_event, write_event, without}
use siempre.IoManager.{Manager, fire_if, then_write}
use siempre.IoManager.Keeps.{Counted, Changes, given, handed, Fires, fire_lem}

-- Both directions in turn, as far as they are in `fired`.
abbrev pub both_handed : FdContext → Event → List Scheduled
both_handed c ev =
    (if ev.read then handed c read_event else []) ++ (if ev.write then handed c write_event else [])

-- After the triggers of the directions in `ev`.
pub record FiresAll (m m' : Manager) (fd : ℕ) (c c' : FdContext) (ev : Event) : Type 0 where
  pub counts : Counted m'
  pub changes : Changes m m' fd (without c.events ev)
  pub at : get_elem? m'.contexts fd ≡ some c'
  pub events : c'.events ≡ without c.events ev
  pub same_epoll : m'.epoll ≡ m.epoll
  pub hands : m'.scheduled ≡ m.scheduled ++ both_handed c ev

-- The events that the code leaves registered.
abbrev after_events : FdContext → Bool → Bool → Event
after_events c r w = without c.events (record { read = r; write = w })

abbrev pub Fired : Manager → ℕ → FdContext → Bool → Bool → Type 0
Fired m fd c r w =
    (m' : Manager) × (c' : FdContext) × (then_write w fd (fire_if r read_event fd m c)
      ≡ some (m', c'))
    × FiresAll m m' fd c c' (record { read = r; write = w })

fire_none-Changes :
    (m : Manager) (fd : ℕ) (c : FdContext)
    → get_elem? m.contexts fd ≡ some c
    → Changes m m fd (after_events c false false)
fire_none-Changes m fd c q g = elim (Bool-cases (fd == g)) [
  | inl k ↦ rw (k, ← (==_iff fd g).0 k, q) (ground arith)
  | inr k ↦ rw k refl
]

one_FiresAll :
    (m m' : Manager) (fd : ℕ) (c c' : FdContext) (e : Event)
    → Fires m m' fd c c' e
    → both_handed c e ≡ handed c e
    → FiresAll m m' fd c c' e
one_FiresAll m m' fd c c' e f h = record {
  counts = f.counts;
  changes = f.changes;
  at = f.at;
  events = f.events;
  same_epoll = f.same_epoll;
  hands = rw h f.hands;
}

two_FiresAll :
    (m m1 m2 : Manager) (fd : ℕ) (c c1 c2 : FdContext)
    → Fires m m1 fd c c1 read_event
    → Fires m1 m2 fd c1 c2 write_event
    → FiresAll m m2 fd c c2 (record { read = true; write = true })
two_FiresAll m m1 m2 fd c c1 c2 f1 f2 = record {
  counts = f2.counts;
  changes = λ g. ground (arith, f1.changes g, f2.changes g);
  at = f2.at;
  events = ground arith;
  same_epoll = f2.same_epoll ∙ f1.same_epoll;
  hands =
      f2.hands
      ∙ ap₂ ◌++◌ f1.hands (ap given (f1.keeps_write refl))
      ∙ append_assoc m.scheduled (handed c read_event) (handed c write_event);
}

module _ (m : Manager) (fd : ℕ) (c : FdContext) (v : Counted m)
    (q : get_elem? m.contexts fd ≡ some c) where
  fire_none : Fired m fd c false false
  unfolding then_write fire_if
  fire_none = (
    m,
    c,
    refl,
    record {
      counts = v;
      changes = fire_none-Changes m fd c q;
      at = q;
      events = ground arith;
      same_epoll = refl;
      hands = sym (append-nil m.scheduled);
    },
  )

  fire_read : c.events.read ≡ true → Fired m fd c true false
  unfolding then_write
  fire_read on = go (fire_lem m fd c read_event v q refl (ground arith))
    where
      idle_write :
          (m' : Manager) (c' : FdContext) → fire_if false write_event fd m' c' ≡ some (m', c')
      idle_write m' c' = unfold fire_if in refl

      go :
          (m' : Manager) × (c' : FdContext) × (fire_if true read_event fd m c ≡ some (m', c'))
            × Fires m m' fd c c' read_event
          → Fired m fd c true false
      go (m', c', r, f) = (
        m',
        c',
        rw (r, then_write) (idle_write m' c'),
        one_FiresAll m m' fd c c' read_event f (append-nil (handed c read_event)),
      )

  fire_write : c.events.write ≡ true → Fired m fd c false true
  unfolding then_write
  fire_write on = go (fire_lem m fd c write_event v q refl (ground arith))
    where
      idle_read : fire_if false read_event fd m c ≡ some (m, c)
      idle_read = unfold fire_if in refl

      go :
          (m' : Manager) × (c' : FdContext) × (fire_if true write_event fd m c ≡ some (m', c'))
            × Fires m m' fd c c' write_event
          → Fired m fd c false true
      go (m', c', r, f) =
          (m', c', rw (idle_read, then_write) r, one_FiresAll m m' fd c c' write_event f refl)

  fire_two : c.events.read ≡ true → c.events.write ≡ true → Fired m fd c true true
  unfolding then_write
  fire_two on too = go (fire_lem m fd c read_event v q refl (ground arith))
    where
      after :
          (m1 : Manager) (c1 : FdContext)
          → fire_if true read_event fd m c ≡ some (m1, c1)
          → Fires m m1 fd c c1 read_event
          → (m2 : Manager) × (c2 : FdContext) × (fire_if true write_event fd m1 c1 ≡ some (m2, c2))
            × Fires m1 m2 fd c1 c2 write_event
          → Fired m fd c true true
      after m1 c1 r1 f1 (m2, c2, r2, f2) =
          (m2, c2, rw (r1, then_write) r2, two_FiresAll m m1 m2 fd c c1 c2 f1 f2)

      go :
          (m1 : Manager) × (c1 : FdContext) × (fire_if true read_event fd m c ≡ some (m1, c1))
            × Fires m m1 fd c c1 read_event
          → Fired m fd c true true
      go (m1, c1, r1, f1) =
          after m1 c1 r1 f1
            (fire_lem m1 fd c1 write_event f1.counts f1.at refl (ground (arith, f1.events)))

pub fire_both :
    (m : Manager) (fd : ℕ) (c : FdContext) (r w : Bool)
    → Counted m
    → get_elem? m.contexts fd ≡ some c
    → (r ≡ true → c.events.read ≡ true)
    → (w ≡ true → c.events.write ≡ true)
    → Fired m fd c r w
fire_both m fd c false false v q hr hw = fire_none m fd c v q
fire_both m fd c true false v q hr hw = fire_read m fd c v q (hr refl)
fire_both m fd c false true v q hr hw = fire_write m fd c v q (hw refl)
fire_both m fd c true true v q hr hw = fire_two m fd c v q (hr refl) (hw refl)
