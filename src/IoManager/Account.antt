-- ===== src/IoManager/Account.antt =====
-- What each call of the I/O manager does to the count of the events: none is lost or doubled.
use siempre.Base.{
  ℕ, ◌+◌, ◌^◌, ◌≡◌, ◌<◌, refl, sym, Bool, true, false, ◌||◌, [], Option, none, some, if◌then◌else◌,
  length, length-append, get_elem?, arith, ap, is_some, Bool-cases, inl, inr,
}
use siempre.IoManager.Context.{Event, FdContext, meet, without, is_set, IsSingle, IsConsistent}
use siempre.IoManager.Contexts.{
  events_at, All-get_elem?, All-new, total-new, IsNumbered-new, events_at-new, length-new,
}
use siempre.IoManager.{Manager, context_resize, add_event, del_event, cancel_event}
use siempre.IoManager.Keeps.{IsValid}
use siempre.IoManager.Calls.{Adds, add_event_lem}
use siempre.IoManager.Cancel.{goes, handed_at, del_event_lem, cancel_event_lem}
use siempre.IoManager.Logged.{Triggers}
use siempre.IoManager.Triggers.{both_handed}
use siempre.IoManager.Totals.{
  one_if, pending-Changes, Drops-pending, length-handed_at, length-no_tasks, length-both_handed,
}

-- The manager with two counts of its calls: the successful `addEvent`, and the successful `delEvent`.
pub record System : Type 0 where
  pub manager : Manager
  pub added : ℕ
  pub deleted : ℕ

-- What the constructor leaves.
abbrev pub start : System
start = record {
  manager = record { contexts = context_resize [] 64; pending = 0; epoll = []; scheduled = [] };
  added = 0;
  deleted = 0;
}

-- Every event that was added is deleted, handed to a scheduler or pending.
pub record Accounted (s : System) : Type 0 where
  pub valid : IsValid s.manager
  pub balance : s.added ≡ s.deleted + length s.manager.scheduled + s.manager.pending

pub start-Accounted : Accounted start
start-Accounted = record {
  valid =
      unfold context_resize in
      record {
        counts = record {
          consistent = All-new 0 64;
          numbered = IsNumbered-new 0 [] 0 64 tt refl;
          counted = sym (total-new [] 0 64);
          small = omega arith;
          roomy = omega (arith, length-new [] 0 64);
        };
        agrees = λ g. sym (events_at-new [] 0 64 g);
      };
  balance = refl;
}

module _ (s : System) (a : Accounted s) where
  pub adds-Accounted :
      (m' : Manager) (fd : ℕ) (e : Event) (cb : Option ℕ) (sched this_fiber : ℕ)
      (this_exec ok answer : Bool)
      → IsSingle e
      → (is_some cb || this_exec) ≡ true
      → s.manager.pending + 1 < 2 ^ 64
      → add_event s.manager fd e cb (some sched) this_fiber this_exec ok ≡ some (m', answer)
      → Accounted (record { manager = m'; added = s.added + one_if answer; deleted = s.deleted })
  adds-Accounted m' fd e cb sched this_fiber this_exec ok answer single work room q =
      elim (Bool-cases (is_set (meet (events_at s.manager.contexts fd) e))) [
        | inl h ↦ absurd (ground (arith, l.1 h, q))
        | inr h ↦
            let (m1, e1, d) = l.0 h in
            let same_manager : m1 ≡ m' = ground (arith, e1, q) in
            let same_answer : ok ≡ answer = ground (arith, e1, q) in
            rw (← same_manager, ← same_answer)
              (record {
                valid = d.valid;
                balance =
                    let p = pending-Changes s.manager m1 fd _ a.valid d.valid d.changes in
                    let n : m1.pending ≡ s.manager.pending + one_if ok =
                      ground (arith, p, single, h) in
                    omega (arith, a.balance, n, ap length d.same_scheduled);
              })
      ]
    where
      l :
          (is_set (meet (events_at s.manager.contexts fd) e) ≡ false
            → (m1 : Manager) × (add_event s.manager fd e cb (some sched) this_fiber this_exec ok
                ≡ some (m1, ok))
              × Adds s.manager m1 fd e ok)
          × (is_set (meet (events_at s.manager.contexts fd) e) ≡ true
              → add_event s.manager fd e cb (some sched) this_fiber this_exec ok ≡ none)
      l = add_event_lem s.manager fd e cb sched this_fiber this_exec ok a.valid single work room

  pub deletes-Accounted :
      (m' : Manager) (fd : ℕ) (e : Event) (ok answer : Bool)
      → IsSingle e
      → del_event s.manager fd e ok ≡ some (m', answer)
      → Accounted (record { manager = m'; added = s.added; deleted = s.deleted + one_if answer })
  deletes-Accounted m' fd e ok answer single q =
      let (m1, e1, d) = del_event_lem s.manager fd e ok a.valid single in
      let same_manager : m1 ≡ m' = ground (arith, e1, q) in
      let same_answer : goes s.manager fd e ok ≡ answer = ground (arith, e1, q) in
      rw (← same_manager, ← same_answer)
        (record {
          valid = d.valid;
          balance =
              let p = Drops-pending s.manager m1 fd e ok [] a.valid single d in
              omega (
                arith,
                a.balance,
                p,
                ap length d.schedules,
                length-append s.manager.scheduled (if goes s.manager fd e ok then [] else []),
                length-no_tasks (goes s.manager fd e ok),
              );
        })

  pub cancels-Accounted :
      (m' : Manager) (fd : ℕ) (e : Event) (ok answer : Bool)
      → IsSingle e
      → cancel_event s.manager fd e ok ≡ some (m', answer)
      → Accounted (record s { manager = m' })
  cancels-Accounted m' fd e ok answer single q =
      let (m1, e1, d) = cancel_event_lem s.manager fd e ok a.valid single in
      let same_manager : m1 ≡ m' = ground (arith, e1, q) in
      rw (← same_manager) (record {
        valid = d.valid;
        balance =
            let p =
              Drops-pending s.manager m1 fd e ok (handed_at s.manager fd e) a.valid single d in
            omega (
              arith,
              a.balance,
              p,
              ap length d.schedules,
              length-append s.manager.scheduled
                  (if goes s.manager fd e ok then handed_at s.manager fd e else []),
              length-handed_at s.manager fd e ok a.valid single,
            );
      })

  pub Triggers-Accounted :
      (m' : Manager) (fd : ℕ) (c : FdContext) (ev : Event) (done : Bool)
      → get_elem? s.manager.contexts fd ≡ some c
      → (ev.read ≡ true → c.events.read ≡ true)
      → (ev.write ≡ true → c.events.write ≡ true)
      → Triggers s.manager m' fd c ev done
      → Accounted (record s { manager = m' })
  Triggers-Accounted m' fd c ev done q hr hw t = record {
    valid = t.valid;
    balance = elim (Bool-cases done) [
      | inl h ↦
          let sch = rw h at (t.schedules) in
          let ch = rw h at (t.changes) in
          let p = pending-Changes s.manager m' fd (without c.events ev) a.valid t.valid ch in
          let n =
            length-both_handed c ev
              (All-get_elem? IsConsistent s.manager.contexts fd c a.valid.counts.consistent q) hr
              hw in
          omega (
            arith,
            a.balance,
            rw q at p,
            n,
            ap length sch,
            length-append s.manager.scheduled (both_handed c ev),
          )
      | inr h ↦
          let sch = rw h at (t.schedules) in
          let ch = rw h at (t.changes) in
          let p = pending-Changes s.manager m' fd c.events a.valid t.valid ch in
          omega (arith, a.balance, rw q at p, ap length sch, length-append s.manager.scheduled [])
    ];
  }
