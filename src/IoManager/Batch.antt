-- ===== src/IoManager/Batch.antt =====
-- A round of the loop of idle: all that epoll_wait reports at once.
use siempre.Base.{
  ℕ, ◌≡◌, refl, ◌∙◌, ap, Bool, true, false, List, [], ◌∷◌, some, ◌==◌, if◌then◌else◌, get_elem?,
  All, arith, Bool-cases, inl, inr, ◌&&◌,
}
use siempre.Scheduler.{Scheduler}
use siempre.IoManager.Context.{Event, FdContext, no_event, is_set, without}
use siempre.IoManager.Contexts.{events_at, events_of}
use siempre.IoManager.{
  Manager, Ready, real_events, handle_event, Occurrence, tickled, ready, handle, handle_all,
  stopping, reported, yields, yield_after, idle_round,
}
use siempre.IoManager.Keeps.{IsValid}
use siempre.IoManager.Calls.{place-cases}
use siempre.IoManager.Reported.{handle_event_lem}

-- epoll reports a descriptor that it watches, and of its directions those that it watches.
abbrev pub Watched : Manager → Occurrence → Type 0
Watched m tickled = Unit {0}
Watched m (ready fd r ok) =
    (is_set (events_at m.contexts fd) ≡ true)
    × (r.input ≡ true → (events_at m.contexts fd).read ≡ true)
    × (r.output ≡ true → (events_at m.contexts fd).write ≡ true)

-- An entry of another descriptor.
abbrev pub Apart : ℕ → Occurrence → Type 0
Apart fd tickled = Unit {0}
Apart fd (ready g r ok) = (fd == g) ≡ false

-- Each descriptor is reported once.
abbrev pub Distinct : List Occurrence → Type 0
Distinct [] = Unit {0}
Distinct (tickled ∷ xs) = Distinct xs
Distinct (ready fd r ok ∷ xs) = All (Apart fd) xs × Distinct xs

-- What happens to the events of `fd` under one entry.
abbrev pub left_by : Occurrence → Event → Event
left_by tickled ev = ev
left_by (ready fd r ok) ev =
    if (is_set (record {
      read = ev.read && (real_events r ev).read;
      write = ev.write && (real_events r ev).write;
    }))
      && ok
    then without ev (real_events r ev)
    else ev

-- The events of a descriptor behind a list of entries.
abbrev pub left_at : List Occurrence → ℕ → Event → Event
left_at [] g ev = ev
left_at (tickled ∷ xs) g ev = left_at xs g ev
left_at (ready fd r ok ∷ xs) g ev =
    let rest = left_at xs g ev in if fd == g then left_by (ready fd r ok) ev else rest

place_of :
    (m : Manager) (fd : ℕ)
    → is_set (events_at m.contexts fd) ≡ true
    → (c : FdContext) × (get_elem? m.contexts fd ≡ some c)
place_of m fd h = elim (place-cases (get_elem? m.contexts fd)) [
  | inl q ↦ absurd (nothing (rw q at h))
  | inr p ↦ p
]
  where
    nothing : is_set no_event ≡ true → ⊥
    nothing e = ground arith

Watched-kept :
    (m m1 : Manager) (fd : ℕ) (xs : List Occurrence)
    → ((g : ℕ) → (fd == g) ≡ false → events_at m1.contexts g ≡ events_at m.contexts g)
    → All (Apart fd) xs
    → All (Watched m) xs
    → All (Watched m1) xs
Watched-kept m m1 fd [] h a w = tt
Watched-kept m m1 fd (tickled ∷ xs) h a w = (tt, Watched-kept m m1 fd xs h a.1 w.1)
Watched-kept m m1 fd (ready g r ok ∷ xs) h a w =
    let here : Watched m1 (ready g r ok) = rw (h g a.0) w.0 in
    (here, Watched-kept m m1 fd xs h a.1 w.1)

one_entry :
    (m : Manager) (fd : ℕ) (r : Ready) (ok : Bool)
    → IsValid m
    → Watched m (ready fd r ok)
    → (m1 : Manager) × (handle_event m fd r ok ≡ some m1)
      × IsValid m1
      × ((g : ℕ)
          → events_at m1.contexts g ≡ (
              if fd == g
              then left_by (ready fd r ok) (events_at m.contexts fd)
              else events_at m.contexts g))
one_entry m fd r ok v (on, hr, hw) =
    let (c, q) = place_of m fd on in
    let same : events_at m.contexts fd ≡ c.events = ap events_of q in
    let (m1, e, t) =
      handle_event_lem m fd c r ok v q (λ x. rw (← same) (hr x)) (λ x. rw (← same) (hw x)) in
    (m1, e, t.valid, λ g. rw same (t.changes g))

left_at-Apart :
    (fd g : ℕ) (xs : List Occurrence) (ev : Event)
    → (fd == g) ≡ true
    → All (Apart fd) xs
    → left_at xs g ev ≡ ev
left_at-Apart fd g [] ev e a = refl
left_at-Apart fd g (tickled ∷ xs) ev e a = left_at-Apart fd g xs ev e a.1
left_at-Apart fd g (ready h r ok ∷ xs) ev e a =
    let other : (h == g) ≡ false = ground (arith, e, a.0) in
    rw other (left_at-Apart fd g xs ev e a.1)

-- What the loop over the entries does.
abbrev Handled : Manager → List Occurrence → Type 0
Handled m xs =
    (m' : Manager) × (handle_all (some m) xs ≡ some m')
    × IsValid m'
    × ((g : ℕ) → events_at m'.contexts g ≡ left_at xs g (events_at m.contexts g))

handle_next :
    (m m1 : Manager) (fd : ℕ) (r : Ready) (ok : Bool) (xs : List Occurrence)
    → handle_event m fd r ok ≡ some m1
    → ((g : ℕ)
        → events_at m1.contexts g ≡ (
            if fd == g
            then left_by (ready fd r ok) (events_at m.contexts fd)
            else events_at m.contexts g))
    → All (Apart fd) xs
    → Handled m1 xs
    → Handled m (ready fd r ok ∷ xs)
unfolding handle_all handle
handle_next m m1 fd r ok xs e h a (m', e', v, k) = (
  m',
  rw e e',
  v,
  λ g. elim (Bool-cases (fd == g)) [
    | inl q ↦
        let first : events_at m1.contexts g ≡ left_by (ready fd r ok) (events_at m.contexts fd) =
          rw q at (h g) in
        let here : fd ≡ g = ground arith in
        k g ∙ left_at-Apart fd g xs (events_at m1.contexts g) q a ∙ first ∙ rw (q, here) refl
    | inr q ↦
        let other : events_at m1.contexts g ≡ events_at m.contexts g = rw q at (h g) in
        k g ∙ rw (q, other) refl
  ],
)

handled :
    (m : Manager) (xs : List Occurrence)
    → IsValid m
    → Distinct xs
    → All (Watched m) xs
    → Handled m xs
unfolding handle_all handle
handled m [] v d w = (m, refl, v, λ g. refl)
handled m (tickled ∷ xs) v d w = handled m xs v d w.1
handled m (ready fd r ok ∷ xs) v d w =
    let (m1, e, v1, h) = one_entry m fd r ok v w.0 in
    let kept = Watched-kept m m1 fd xs (λ g q. rw q at (h g)) d.0 w.1 in
    handle_next m m1 fd r ok xs e h d.0 (handled m1 xs v1 d.1 kept)

-- In a valid manager that is not stopping, when epoll_wait reports each descriptor at most once, only
-- descriptors that it watches and of their input and output only what it watches, a round of `idle`
-- fails no assertion and comes to its yield; the manager is valid, the events of each reported
-- descriptor that have happened, or all on an error or hang-up, are registered no more where epoll
-- agreed, and all other events are.
pub idle_round_lem :
    (m : Manager) (s : Scheduler) (xs : List Occurrence)
    → IsValid m
    → stopping m s ≡ false
    → Distinct xs
    → All (Watched m) xs
    → (m' : Manager) × (idle_round m s (reported xs) ≡ some (yields m'))
      × IsValid m'
      × ((g : ℕ) → events_at m'.contexts g ≡ left_at xs g (events_at m.contexts g))
unfolding idle_round yield_after
idle_round_lem m s xs v n d w =
    let (m', e, v', k) = handled m xs v d w in (m', rw (n, e) refl, v', k)
