-- ===== src/IoManager/Context/Keeps.antt =====
-- The operations on one FdContext succeed on consistent contexts and keep them consistent.
use siempre.Base.{
  ℕ, ◌+◌, ◌≡◌, refl, Bool, true, false, ◌||◌, Option, none, some, if◌then◌else◌, is_some, arith,
}
use siempre.IoManager.Context.{
  Event, FdContext, meet, without, join, is_set, blank, new_context, set_context, trigger_event,
  register, unregister, IsConsistent, count, IsSingle, context_at, work_of,
}

-- What a successful operation on a context leaves behind.
pub record Becomes (c c' : FdContext) (events : Event) : Type 0 where
  pub consistent : IsConsistent c'
  pub registered : c'.events ≡ events
  pub same_fd : c'.fd ≡ c.fd

pub new_context-IsConsistent : (fd : ℕ) → IsConsistent (new_context fd)
new_context-IsConsistent fd = record { reading = (refl, refl, refl); writing = (refl, refl, refl) }

-- A direction that is not registered can be: with a scheduler, and a callback or a running fiber.
pub register_lem :
    (c : FdContext) (e : Event) (cb : Option ℕ) (sched this_fiber : ℕ) (this_exec : Bool)
    → IsConsistent c
    → IsSingle e
    → is_set (meet c.events e) ≡ false
    → (is_some cb || this_exec) ≡ true
    → (c' : FdContext) × (register c e cb (some sched) this_fiber this_exec ≡ some c')
      × Becomes c c' (join c.events e)
      × (count c'.events ≡ count c.events + 1)
unfolding register
register_lem c e cb sched this_fiber this_exec v single free work = (
  set_context (record c { events = join c.events e }) e
      (if is_some cb
        then record { sc = some sched; fiber = none; cb = cb }
        else record { sc = some sched; fiber = some this_fiber; cb = none }),
  ground arith,
  record {
    consistent = record { reading = ground arith; writing = ground arith };
    registered = ground arith;
    same_fd = ground arith;
  },
  ground arith,
)

-- A registered event can be triggered: the scheduler that was registered is given the callback or the
-- fiber that was registered, and the direction is free again.
pub trigger_event_lem :
    (c : FdContext) (e : Event)
    → IsConsistent c
    → IsSingle e
    → is_set (meet c.events e) ≡ true
    → (c' : FdContext) × (sched : ℕ) × (trigger_event c e
        ≡ some (c', (sched, work_of (context_at c e))))
      × ((context_at c e).sc ≡ some sched)
      × Becomes c c' (without c.events e)
      × (count c'.events + 1 ≡ count c.events)
      × (e.read ≡ true → c'.write ≡ c.write)
unfolding trigger_event
trigger_event_lem c e v single on = go (context_at c e).sc refl
  where
    go :
        (o : Option ℕ)
        → (context_at c e).sc ≡ o
        → (c' : FdContext) × (sched : ℕ) × (trigger_event c e
            ≡ some (c', (sched, work_of (context_at c e))))
          × ((context_at c e).sc ≡ some sched)
          × Becomes c c' (without c.events e)
          × (count c'.events + 1 ≡ count c.events)
          × (e.read ≡ true → c'.write ≡ c.write)
    go none q = absurd (ground arith)
    go (some sched) q = (
      set_context (record c { events = without c.events e }) e
          (if is_some (context_at c e).cb
            then record (context_at c e) { sc = none; cb = none }
            else record (context_at c e) { sc = none; fiber = none }),
      sched,
      ground arith,
      q,
      record {
        consistent = record { reading = ground arith; writing = ground arith };
        registered = ground arith;
        same_fd = ground arith;
      },
      ground arith,
      λ r. ground arith,
    )

-- A registered event can be dropped, and the direction is free again.
pub unregister_lem :
    (c : FdContext) (e : Event)
    → IsConsistent c
    → IsSingle e
    → is_set (meet c.events e) ≡ true
    → (c' : FdContext) × (unregister c e ≡ some c')
      × Becomes c c' (without c.events e)
      × (count c'.events + 1 ≡ count c.events)
unfolding unregister
unregister_lem c e v single on = (
  set_context (record c { events = without c.events e }) e blank,
  ground arith,
  record {
    consistent = record { reading = ground arith; writing = ground arith };
    registered = ground arith;
    same_fd = ground arith;
  },
  ground arith,
)

-- A trigger of what is not registered fails SIEM_ASSERT(m_events & e).
pub trigger_event_off :
    (c : FdContext) (e : Event) → is_set (meet c.events e) ≡ false → trigger_event c e ≡ none
unfolding trigger_event
trigger_event_off c e h = rw h refl
