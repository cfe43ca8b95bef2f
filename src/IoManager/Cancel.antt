-- ===== src/IoManager/Cancel.antt =====
-- What delEvent and cancelEvent do in a valid manager, on every branch.
use siempre.Base.{
  ℕ, ◌+◌, ◌≡◌, refl, sym, Bool, true, false, ◌&&◌, List, [], ◌∷◌, ◌++◌, Option, none, some,
  if◌then◌else◌, ◌==◌, set, get_elem?, arith, Bool-cases, inl, inr, append-nil,
}
use siempre.IoManager.Context.{
  Event, FdContext, Scheduled, no_event, meet, without, is_set, unregister, IsConsistent, count,
  IsSingle,
}
use siempre.IoManager.Context.Keeps.{Becomes, unregister_lem}
use siempre.IoManager.Contexts.{events_of, events_at, All-get_elem?, events_at-set}
use siempre.IoManager.{
  Ctl, Manager, dec, leaving, deleted, del_from, del_event, fire_if, answer_true, cancel_in,
  cancel_event,
}
use siempre.IoManager.Keeps.{
  effect, IsValid, Changes, replace-Counted, count_bound, dec_lem, handed, Fires, fire_lem,
}
use siempre.IoManager.Calls.{log_agrees, place-cases}

-- The state after `delEvent` or `cancelEvent` of an event: whether it was done, and what was handed out.
pub record Drops (m m' : Manager) (fd : ℕ) (e : Event) (done : Bool) (out : List Scheduled)
    : Type 0 where
  pub valid : IsValid m'
  pub changes :
      Changes m m' fd
        (if done then without (events_at m.contexts fd) e else events_at m.contexts fd)
  pub schedules : m'.scheduled ≡ m.scheduled ++ (if done then out else [])

unchanged-Drops :
    (m : Manager) (fd : ℕ) (e : Event) (out : List Scheduled) → IsValid m → Drops m m fd e false out
unchanged-Drops m fd e out v = record {
  valid = v;
  changes = λ g. ground arith;
  schedules = sym (append-nil m.scheduled);
}

-- Whether a call on `e` goes through: the event is registered and epoll agrees.
abbrev pub goes : Manager → ℕ → Event → Bool → Bool
goes m fd e ok = is_set (meet (events_at m.contexts fd) e) && ok

leaving-effect : (fd : ℕ) (ev : Event) → effect (leaving fd ev) ≡ ev
leaving-effect fd ev = ground arith

module _ (m : Manager) (fd : ℕ) (e : Event) (v : IsValid m) (single : IsSingle e) where
  abbrev del_call : FdContext → Ctl
  del_call c = leaving fd (without c.events e)

  del_from_on :
      (c : FdContext)
      → get_elem? m.contexts fd ≡ some c
      → is_set (meet c.events e) ≡ true
      → (m' : Manager) × (del_from m fd (some c) e true ≡ some (m', true)) × Drops m m' fd e true []
  unfolding del_from
  del_from_on c q on = go (
      unregister_lem c e (All-get_elem? IsConsistent m.contexts fd c v.counts.consistent q) single
        on)
    where
      go :
          (c' : FdContext) × (unregister c e ≡ some c')
            × Becomes c c' (without c.events e)
            × (count c'.events + 1 ≡ count c.events)
          → (m' : Manager) × (del_from m fd (some c) e true ≡ some (m', true))
            × Drops m m' fd e true []
      go (c', u, b, k) =
          let d =
            dec_lem m.pending (omega (arith, k, count_bound m fd c v.counts q)) v.counts.small in
          let changed : (g : ℕ)
              → events_at (set m.contexts fd c') g
                ≡ (if fd == g then without c.events e else events_at m.contexts g) =
            λ g. rw (← b.registered) (events_at-set m.contexts fd g c c' q) in
          (
            record m {
              contexts = set m.contexts fd c';
              pending = dec m.pending;
              epoll = del_call c ∷ m.epoll;
            },
            rw (on, u, deleted) refl,
            record {
              valid = record {
                counts =
                    replace-Counted m fd (dec m.pending) c c' (without c.events e) _ _ v.counts q b
                      (omega (arith, k, d.0)) d.1;
                agrees =
                    log_agrees m (del_call c) fd (without c.events e) (set m.contexts fd c')
                      v.agrees refl (leaving-effect fd (without c.events e)) changed;
              };
              changes = λ g. rw q (changed g);
              schedules = sym (append-nil m.scheduled);
            },
          )

  cancel_in_on :
      (c : FdContext)
      → get_elem? m.contexts fd ≡ some c
      → is_set (meet c.events e) ≡ true
      → (m' : Manager) × (cancel_in m fd (some c) e true ≡ some (m', true))
        × Drops m m' fd e true (handed c e)
  unfolding cancel_in
  cancel_in_on c q on = go (
      fire_lem logged fd c e
        (record {
          consistent = v.counts.consistent;
          numbered = v.counts.numbered;
          counted = v.counts.counted;
          small = v.counts.small;
          roomy = v.counts.roomy;
        })
        q single on)
    where
      logged : Manager
      logged = record m { epoll = del_call c ∷ m.epoll }

      go :
          (m' : Manager) × (c' : FdContext) × (fire_if true e fd logged c ≡ some (m', c'))
            × Fires logged m' fd c c' e
          → (m' : Manager) × (cancel_in m fd (some c) e true ≡ some (m', true))
            × Drops m m' fd e true (handed c e)
      go (m', c', r, f) = (
        m',
        rw (on, r, answer_true) refl,
        record {
          valid = record {
            counts = f.counts;
            agrees = rw f.same_epoll (
                log_agrees m (del_call c) fd (without c.events e) m'.contexts v.agrees refl
                  (leaving-effect fd (without c.events e)) f.changes);
          };
          changes = λ g. rw q (f.changes g);
          schedules = f.hands;
        },
      )

-- What the descriptor's context holds for an event.
abbrev pub handed_at : Manager → ℕ → Event → List Scheduled
handed_at m fd e = elim (get_elem? m.contexts fd) [ none ↦ [] | some c ↦ handed c e ]

off :
    (m : Manager) (fd : ℕ) (o : Option FdContext) (e : Event) (ok : Bool)
    → (is_set (meet (events_of o) e) && ok) ≡ false
    → (del_from m fd o e ok ≡ some (m, false)) × (cancel_in m fd o e ok ≡ some (m, false))
unfolding del_from cancel_in
off m fd none e ok h = (refl, refl)
off m fd (some c) e ok h = ground arith

-- A call that goes through finds a context in which the event is registered.
pub on_place :
    (m : Manager) (fd : ℕ) (e : Event) (ok : Bool)
    → goes m fd e ok ≡ true
    → (c : FdContext) × (get_elem? m.contexts fd ≡ some c)
      × (is_set (meet c.events e) ≡ true)
      × (ok ≡ true)
on_place m fd e ok h = elim (place-cases (get_elem? m.contexts fd)) [
  | inl q ↦ absurd (not_none (rw q at h))
  | inr (c, q) ↦
      let k : (is_set (meet c.events e) && ok) ≡ true = rw q at h in
      (c, q, ground arith, ground arith)
]
  where
    not_none : (is_set (meet no_event e) && ok) ≡ true → ⊥
    not_none k = ground arith

-- In a valid manager `delEvent` of READ or of WRITE answers whether the event was registered and epoll
-- agreed. Then it is registered no more; otherwise nothing changes. Nothing is scheduled, no other
-- registration changes, and the manager stays valid.
pub del_event_lem :
    (m : Manager) (fd : ℕ) (e : Event) (ok : Bool)
    → IsValid m
    → IsSingle e
    → (m' : Manager) × (del_event m fd e ok ≡ some (m', goes m fd e ok))
      × Drops m m' fd e (goes m fd e ok) []
unfolding del_event
del_event_lem m fd e ok v single = elim (Bool-cases (goes m fd e ok)) [
  | inl h ↦
      let (c, q, on, yes_ok) = on_place m fd e ok h in
      let r = del_from_on m fd e v single c q on in rw h (r.0, rw (q, yes_ok) r.1, r.2)
  | inr h ↦ rw h (m, (off m fd (get_elem? m.contexts fd) e ok h).0, unchanged-Drops m fd e [] v)
]

-- `cancelEvent` does the same, but hands what was registered for the event to the scheduler that it
-- was registered with.
pub cancel_event_lem :
    (m : Manager) (fd : ℕ) (e : Event) (ok : Bool)
    → IsValid m
    → IsSingle e
    → (m' : Manager) × (cancel_event m fd e ok ≡ some (m', goes m fd e ok))
      × Drops m m' fd e (goes m fd e ok) (handed_at m fd e)
unfolding cancel_event
cancel_event_lem m fd e ok v single = elim (Bool-cases (goes m fd e ok)) [
  | inl h ↦
      let (c, q, on, yes_ok) = on_place m fd e ok h in
      let r = cancel_in_on m fd e v single c q on in
      rw h (r.0, rw (q, yes_ok) r.1, rw (q, handed_at) r.2)
  | inr h ↦ rw h (
    m,
    (off m fd (get_elem? m.contexts fd) e ok h).1,
    unchanged-Drops m fd e (handed_at m fd e) v,
  )
]
