-- ===== src/IoManager/History.antt =====
-- A run of the I/O manager: calls that register, delete and cancel events, and the handling of what
-- epoll_wait reports, one after the other in any order.
use siempre.Base.{
  none, ℕ, ◌+◌, ◌^◌, ◌≡◌, ◌<◌, Bool, true, ◌||◌, Option, some, get_elem?, arith, is_some, inl, inr,
}
use siempre.IoManager.Context.{Event, FdContext, IsSingle}
use siempre.IoManager.{
  Manager, Ready, real_events, add_event, del_event, cancel_event, cancel_all, handle_event,
}
use siempre.IoManager.Calls.{place-cases}
use siempre.IoManager.CancelAll.{cancel_all_lem, cancel_all_outside}
use siempre.IoManager.Stale.{survives_report, handle_event-none}
use siempre.IoManager.Reported.{handle_event_lem}
use siempre.IoManager.Totals.{one_if}
use siempre.IoManager.Account.{
  System, start, Accounted, start-Accounted, adds-Accounted, deletes-Accounted, cancels-Accounted,
  Triggers-Accounted,
}

-- `adds` is called under a scheduler, with a callback or from a running fiber, while the counter has
-- room. A report may name any descriptor, watched or not; a step is a call that does not end the
-- process.
pub data Step : System → System → Type 0 where
  adds :
      (s : System) (m' : Manager) (fd : ℕ) (e : Event) (cb : Option ℕ) (sched this_fiber : ℕ)
      (this_exec ok answer : Bool)
      → IsSingle e
      → (is_some cb || this_exec) ≡ true
      → s.manager.pending + 1 < 2 ^ 64
      → add_event s.manager fd e cb (some sched) this_fiber this_exec ok ≡ some (m', answer)
      → Step s (record { manager = m'; added = s.added + one_if answer; deleted = s.deleted })
  deletes :
      (s : System) (m' : Manager) (fd : ℕ) (e : Event) (ok answer : Bool)
      → IsSingle e
      → del_event s.manager fd e ok ≡ some (m', answer)
      → Step s (record { manager = m'; added = s.added; deleted = s.deleted + one_if answer })
  cancels :
      (s : System) (m' : Manager) (fd : ℕ) (e : Event) (ok answer : Bool)
      → IsSingle e
      → cancel_event s.manager fd e ok ≡ some (m', answer)
      → Step s (record s { manager = m' })
  cancels_all :
      (s : System) (m' : Manager) (fd : ℕ) (ok answer : Bool)
      → cancel_all s.manager fd ok ≡ some (m', answer)
      → Step s (record s { manager = m' })
  reports :
      (s : System) (m' : Manager) (fd : ℕ) (r : Ready) (ok : Bool)
      → handle_event s.manager fd r ok ≡ some m'
      → Step s (record s { manager = m' })

pub data Reach : System → Type 0 where
  starts : Reach start
  steps : (s t : System) → Reach s → Step s t → Reach t

Step-Accounted : (s t : System) → Step s t → Accounted s → Accounted t
Step-Accounted s t (adds _ m' fd e cb sched this_fiber this_exec ok answer single work room q) a =
    adds-Accounted s a m' fd e cb sched this_fiber this_exec ok answer single work room q
Step-Accounted s t (deletes _ m' fd e ok answer single q) a =
    deletes-Accounted s a m' fd e ok answer single q
Step-Accounted s t (cancels _ m' fd e ok answer single q) a =
    cancels-Accounted s a m' fd e ok answer single q
Step-Accounted s t (cancels_all _ m' fd ok answer q) a =
    elim (place-cases (get_elem? s.manager.contexts fd)) [
      | inl h ↦
          let same_manager : s.manager ≡ m' =
            ground (arith, cancel_all_outside s.manager fd ok h, q) in
          rw (← same_manager) (record { valid = a.valid; balance = a.balance })
      | inr (c, h) ↦
          let (m1, e1, d) = cancel_all_lem s.manager fd c ok a.valid h in
          let same_manager : m1 ≡ m' = ground (arith, e1, q) in
          rw (← same_manager) (Triggers-Accounted s a m1 fd c c.events _ h (λ x. x) (λ x. x) d)
    ]
Step-Accounted s t (reports _ m' fd r ok q) a =
    elim (place-cases (get_elem? s.manager.contexts fd)) [
      | inl h ↦ absurd (nothing h)
      | inr (c, h) ↦ report_place c h
    ]
  where
    nothing : get_elem? s.manager.contexts fd ≡ none → ⊥
    nothing h = ground (arith, handle_event-none s.manager fd r ok h, q)

    report_place :
        (c : FdContext)
        → get_elem? s.manager.contexts fd ≡ some c
        → Accounted (record s { manager = m' })
    report_place c h = elim (survives_report s.manager m' fd c r ok a.valid h q) [
      | inl same ↦ rw same (record { valid = a.valid; balance = a.balance })
      | inr (hr, hw) ↦
          let (m1, e1, d) = handle_event_lem s.manager fd c r ok a.valid h hr hw in
          let same_manager : m1 ≡ m' = ground (arith, e1, q) in
          rw (← same_manager) (
            Triggers-Accounted s a m1 fd c (real_events r c.events) _ h (λ x. ground (arith, hr))
              (λ x. ground (arith, hw)) d)
    ]

-- In every run from the constructor's state, in which single events are added, deleted, cancelled and
-- reported in any order, each call without the end of the process, and events are added under a
-- scheduler with a callback or from a running fiber while the counter has room, the manager stays valid
-- and no event is lost or doubled: the events that were added are as many as those deleted, the tasks
-- handed to schedulers, and the events still pending together.
pub Reach-Accounted : (s : System) → Reach s → Accounted s
Reach-Accounted s starts = start-Accounted
Reach-Accounted t (steps s _ r st) = Step-Accounted s t st (Reach-Accounted s r)
