-- ===== src/IoManager/Keeps.antt =====
-- The invariant of the I/O manager, and what the calls that register and cancel events do to it.
use siempre.Base.{
  ℕ, zero, suc, ◌+◌, ◌^◌, ◌≡◌, ◌<◌, ◌≤◌, refl, true, List, [], ◌∷◌, ◌++◌, none, some, if◌then◌else◌,
  ◌==◌, length, set, get_elem?, All, arith, length-set,
}
use siempre.IoManager.Context.{
  Event, EventContext, FdContext, Scheduled, no_event, meet, without, is_set, trigger_event,
  IsConsistent, count, IsSingle, context_at, work_of,
}
use siempre.IoManager.Context.Keeps.{Becomes, trigger_event_lem}
use siempre.IoManager.Contexts.{
  total, IsNumbered, events_at, All-get_elem?, All-set, IsNumbered-set, total-set, events_at-set,
  get_elem?-set,
}
use siempre.IoManager.{delete, Ctl, Manager, dec, fired, fire_if}

-- What epoll watches for a descriptor after the calls that succeeded.
abbrev pub effect : Ctl → Event
effect k = elim k.op [ delete ↦ no_event | _ ↦ k.events ]

abbrev pub watched : List Ctl → ℕ → Event
watched [] g = no_event
watched (k ∷ ks) g = if k.fd == g then effect k else watched ks g

-- The counter counts the registered events, and every context is consistent and in its place.
pub record Counted (m : Manager) : Type 0 where
  pub consistent : All IsConsistent m.contexts
  pub numbered : IsNumbered 0 m.contexts
  pub counted : m.pending ≡ total m.contexts
  pub small : m.pending < 2 ^ 64
  pub roomy : 2 ≤ length m.contexts

pub record IsValid (m : Manager) : Type 0 where
  pub counts : Counted m
  pub agrees : (g : ℕ) → watched m.epoll g ≡ events_at m.contexts g

-- The registered events of `fd` become `ev`, and no others change.
abbrev pub Changes : Manager → Manager → ℕ → Event → Type 0
Changes m m' fd ev =
    (g : ℕ) → events_at m'.contexts g ≡ (if fd == g then ev else events_at m.contexts g)

pub replace-Counted :
    (m : Manager) (fd p : ℕ) (c c' : FdContext) (ev : Event) (epoll : List Ctl)
    (scheduled : List Scheduled)
    → Counted m
    → get_elem? m.contexts fd ≡ some c
    → Becomes c c' ev
    → p + count c.events ≡ m.pending + count c'.events
    → p < 2 ^ 64
    → Counted (record {
      contexts = set m.contexts fd c';
      pending = p;
      epoll = epoll;
      scheduled = scheduled;
    })
replace-Counted m fd p c c' ev epoll scheduled v e b h k = record {
  consistent = All-set IsConsistent m.contexts fd c' v.consistent b.consistent;
  numbered = IsNumbered-set 0 m.contexts fd c c' v.numbered e b.same_fd;
  counted = omega (arith, total-set m.contexts fd c c' e, v.counted);
  small = k;
  roomy = omega (arith, length-set m.contexts fd c', v.roomy);
}

pub count_bound :
    (m : Manager) (fd : ℕ) (c : FdContext)
    → Counted m
    → get_elem? m.contexts fd ≡ some c
    → count c.events ≤ m.pending
count_bound m fd c v e =
    omega (arith, total-set m.contexts fd c c e, v.counted, split m.contexts fd e)
  where
    split : (cs : List FdContext) (i : ℕ) → get_elem? cs i ≡ some c → count c.events ≤ total cs
    split [] i q = cc
    split (x ∷ cs) zero q = let r : x ≡ c = ground arith in rw r (omega arith)
    split (x ∷ cs) (suc i) q = omega (arith, split cs i q)

pub dec_lem : (n : ℕ) → 1 ≤ n → n < 2 ^ 64 → (dec n + 1 ≡ n) × (dec n < 2 ^ 64)
dec_lem n h k = omega arith

-- The scheduler that `e` was registered with is given its work.
abbrev pub given : EventContext → List Scheduled
given x = elim x.sc [ none ↦ [] | some s ↦ (s, work_of x) ∷ [] ]

abbrev pub handed : FdContext → Event → List Scheduled
handed c e = given (context_at c e)

-- What a trigger of a registered event does.
pub record Fires (m m' : Manager) (fd : ℕ) (c c' : FdContext) (e : Event) : Type 0 where
  pub counts : Counted m'
  pub changes : Changes m m' fd (without c.events e)
  pub at : get_elem? m'.contexts fd ≡ some c'
  pub events : c'.events ≡ without c.events e
  pub same_epoll : m'.epoll ≡ m.epoll
  pub hands : m'.scheduled ≡ m.scheduled ++ handed c e
  pub keeps_write : e.read ≡ true → c'.write ≡ c.write

pub fire_lem :
    (m : Manager) (fd : ℕ) (c : FdContext) (e : Event)
    → Counted m
    → get_elem? m.contexts fd ≡ some c
    → IsSingle e
    → is_set (meet c.events e) ≡ true
    → (m' : Manager) × (c' : FdContext) × (fire_if true e fd m c ≡ some (m', c'))
      × Fires m m' fd c c' e
unfolding fire_if
fire_lem m fd c e v q single on = go (trigger_event_lem c e con single on)
  where
    con : IsConsistent c
    con = All-get_elem? IsConsistent m.contexts fd c v.consistent q

    go :
        (c' : FdContext) × (sched : ℕ) × (trigger_event c e
            ≡ some (c', (sched, work_of (context_at c e))))
          × ((context_at c e).sc ≡ some sched)
          × Becomes c c' (without c.events e)
          × (count c'.events + 1 ≡ count c.events)
          × (e.read ≡ true → c'.write ≡ c.write)
        → (m' : Manager) × (c' : FdContext) × (fire_if true e fd m c ≡ some (m', c'))
          × Fires m m' fd c c' e
    go (c', sched, t, s, b, n, w) =
        let d = dec_lem m.pending (omega (arith, count_bound m fd c v q)) v.small in
        (
          record m {
            contexts = set m.contexts fd c';
            scheduled = m.scheduled ++ ((sched, work_of (context_at c e)) ∷ []);
            pending = dec m.pending;
          },
          c',
          rw (t, fired) refl,
          record {
            counts =
                replace-Counted m fd (dec m.pending) c c' _ m.epoll _ v q b (omega (arith, d.0))
                  d.1;
            changes = λ g. rw (← b.registered) (events_at-set m.contexts fd g c c' q);
            at = get_elem?-set m.contexts fd c c' q;
            events = b.registered;
            same_epoll = refl;
            hands = rw (s, given) refl;
            keeps_write = w;
          },
        )
