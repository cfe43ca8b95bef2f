-- ===== src/IoManager/Calls.antt =====
-- What addEvent does in a valid manager, on every branch.
use siempre.Base.{
  ℕ, ◌+◌, ◌^◌, ◌≡◌, ◌<◌, refl, sym, Bool, true, false, ◌||◌, List, ◌∷◌, Option, none, some,
  if◌then◌else◌, ◌==◌, set, get_elem?, arith, is_some, inl, inr, ◌∙◌, ◌⊎◌,
}
use siempre.IoManager.Context.{
  Event, FdContext, meet, join, is_set, register, IsConsistent, count, IsSingle,
}
use siempre.IoManager.Context.Keeps.{Becomes, register_lem}
use siempre.IoManager.Contexts.{
  events_at, All-get_elem?, IsNumbered-get_elem?, events_at-set, Grown, room_for-Grown,
  get_elem?-in,
}
use siempre.IoManager.{add, modify, Ctl, Manager, inc, room_for, add_to, add_event, added}
use siempre.IoManager.Keeps.{effect, watched, IsValid, Changes, replace-Counted}

-- The state after a call of `addEvent` that epoll answers with `ok`.
pub record Adds (m m' : Manager) (fd : ℕ) (e : Event) (ok : Bool) : Type 0 where
  pub valid : IsValid m'
  pub changes :
      Changes m m' fd (if ok then join (events_at m.contexts fd) e else events_at m.contexts fd)
  pub same_scheduled : m'.scheduled ≡ m.scheduled

-- `Option` inversion for the place of a descriptor.
pub place-cases : (o : Option FdContext) → (o ≡ none) ⊎ ((c : FdContext) × (o ≡ some c))
place-cases none = inl refl
place-cases (some c) = inr (c, refl)

-- A logged call that sets the events of `fd` to `ev` agrees with contexts that change likewise.
pub log_agrees :
    (m : Manager) (k : Ctl) (fd : ℕ) (ev : Event) (cs : List FdContext)
    → ((g : ℕ) → watched m.epoll g ≡ events_at m.contexts g)
    → k.fd ≡ fd
    → effect k ≡ ev
    → ((g : ℕ) → events_at cs g ≡ (if fd == g then ev else events_at m.contexts g))
    → (g : ℕ) → watched (k ∷ m.epoll) g ≡ events_at cs g
log_agrees m k fd ev cs a e f h g = rw (e, f, a g) (sym (h g))

module _ (m n : Manager) (fd : ℕ) (c : FdContext) (e : Event) (cb : Option ℕ) (sched this_fiber : ℕ)
    (this_exec : Bool) (v : IsValid n) (q : get_elem? n.contexts fd ≡ some c)
    (same : (g : ℕ) → events_at n.contexts g ≡ events_at m.contexts g)
    (sch : n.scheduled ≡ m.scheduled) (single : IsSingle e)
    (free : is_set (meet c.events e) ≡ false) (work : (is_some cb || this_exec) ≡ true)
    (room : n.pending + 1 < 2 ^ 64) where
  abbrev add_call : Ctl
  add_call = record {
    op = if is_set c.events then modify else add;
    fd = c.fd;
    events = join c.events e;
  }

  here_now : events_at m.contexts fd ≡ c.events
  here_now = rw (← same fd, q) refl

  add_to-true :
      (m' : Manager) × (add_to n fd (some c) e cb (some sched) this_fiber this_exec true
        ≡ some (m', true))
      × Adds m m' fd e true
  unfolding add_to
  add_to-true = go (register_lem c e cb sched this_fiber this_exec con single free work)
    where
      con : IsConsistent c
      con = All-get_elem? IsConsistent n.contexts fd c v.counts.consistent q

      go :
          (c' : FdContext) × (register c e cb (some sched) this_fiber this_exec ≡ some c')
            × Becomes c c' (join c.events e)
            × (count c'.events ≡ count c.events + 1)
          → (m' : Manager) × (add_to n fd (some c) e cb (some sched) this_fiber this_exec true
              ≡ some (m', true))
            × Adds m m' fd e true
      go (c', r, b, k) =
          let changed : (g : ℕ)
              → events_at (set n.contexts fd c') g
                ≡ (if fd == g then join c.events e else events_at n.contexts g) =
            λ g. rw (← b.registered) (events_at-set n.contexts fd g c c' q) in
          (
            record n {
              contexts = set n.contexts fd c';
              pending = inc n.pending;
              epoll = add_call ∷ n.epoll;
            },
            rw (free, r, added) refl,
            record {
              valid = record {
                counts =
                    replace-Counted n fd (inc n.pending) c c' (join c.events e) _ _ v.counts q b
                      (omega (arith, k)) (omega arith);
                agrees =
                    log_agrees n add_call fd (join c.events e) (set n.contexts fd c') v.agrees
                      (IsNumbered-get_elem? 0 n.contexts fd c v.counts.numbered q ∙ omega arith)
                      (ground arith) changed;
              };
              changes = λ g. rw (here_now, ← same g) (changed g);
              same_scheduled = sch;
            },
          )

  add_to-false :
      (m' : Manager) × (add_to n fd (some c) e cb (some sched) this_fiber this_exec false
        ≡ some (m', false))
      × Adds m m' fd e false
  unfolding add_to
  add_to-false = (
    n,
    rw free refl,
    record { valid = v; changes = λ g. ground (arith, same g); same_scheduled = sch },
  )

Grown-IsValid :
    (m : Manager) (fd : ℕ)
    → IsValid m
    → (g : Grown m.contexts (room_for m.contexts fd) fd)
    → IsValid (record m { contexts = room_for m.contexts fd })
Grown-IsValid m fd v g = record {
  counts = record {
    consistent = g.consistent;
    numbered = g.numbered;
    counted = omega (arith, g.same_total, v.counts.counted);
    small = v.counts.small;
    roomy = omega (arith, g.longer, v.counts.roomy);
  };
  agrees = λ h. v.agrees h ∙ sym (g.same_events h);
}

-- In a valid manager `addEvent` of READ or of WRITE, called under a scheduler and with a callback or
-- from a running fiber, for an event that is not registered, grows the vector if it must and answers
-- what epoll answers: on success the event is registered for that descriptor, on failure nothing is;
-- no other registration changes, nothing is scheduled, and the manager stays valid, with epoll
-- watching exactly what is registered. For an event that is registered the call ends the process.
pub add_event_lem :
    (m : Manager) (fd : ℕ) (e : Event) (cb : Option ℕ) (sched this_fiber : ℕ) (this_exec ok : Bool)
    → IsValid m
    → IsSingle e
    → (is_some cb || this_exec) ≡ true
    → m.pending + 1 < 2 ^ 64
    → (is_set (meet (events_at m.contexts fd) e) ≡ false
        → (m' : Manager) × (add_event m fd e cb (some sched) this_fiber this_exec ok
            ≡ some (m', ok))
          × Adds m m' fd e ok)
      × (is_set (meet (events_at m.contexts fd) e) ≡ true
          → add_event m fd e cb (some sched) this_fiber this_exec ok ≡ none)
unfolding add_event
add_event_lem m fd e cb sched this_fiber this_exec ok v single work room =
    (λ free. go_free ok free, λ taken. rw place.1 (rw (rw at_place at taken) refl))
  where
    g : Grown m.contexts (room_for m.contexts fd) fd
    g = room_for-Grown m.contexts fd v.counts.roomy v.counts.consistent v.counts.numbered

    n : Manager
    n = record m { contexts = room_for m.contexts fd }

    place : (c : FdContext) × (get_elem? n.contexts fd ≡ some c)
    place = get_elem?-in n.contexts fd g.covers

    at_place : events_at m.contexts fd ≡ (place.0).events
    at_place = rw (← g.same_events fd, place.1) refl

    go_free :
        (ok : Bool)
        → is_set (meet (events_at m.contexts fd) e) ≡ false
        → (m' : Manager) × (add_event m fd e cb (some sched) this_fiber this_exec ok
            ≡ some (m', ok))
          × Adds m m' fd e ok
    go_free true free = rw place.1 (
        add_to-true m n fd place.0 e cb sched this_fiber this_exec (Grown-IsValid m fd v g) place.1
          g.same_events refl single (rw (← at_place) free) work room)
    go_free false free = rw place.1 (
        add_to-false m n fd place.0 e cb sched this_fiber this_exec (Grown-IsValid m fd v g) place.1
          g.same_events refl single (rw (← at_place) free) work room)
