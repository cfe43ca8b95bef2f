-- ===== src/Scheduler/Tests.antt =====
-- Runs of the scheduler, and the theorems at concrete queues.
use mathlib.Core.List.{Perm}
use siempre.Base.{
  ℕ, zero, suc, ◌+◌, ◌≡◌, refl, Bool, true, false, [], ◌∷◌, ◌++◌, none, some, length,
}
use siempre.Scheduler.{
  Task, by_cb, Scheduler, found, scan, new, schedule, task_of, any_thread, is_stopping, stop,
}
use siempre.Scheduler.Pick.{Reports, scan-Reports}
use siempre.Scheduler.Conserve
use siempre.Scheduler.Conserve.{System, fresh, tasks_conserved}
use siempre.Scheduler.Stop
use siempre.Scheduler.Stop.{never_stopping, schedule_range_diverges}

abbrev pinned : Task
pinned = record { fiber = none; cb = some 5; thread_id = 9 }

abbrev running : Task
running = record { fiber = some 3; cb = none; thread_id = any_thread }

abbrev free : Task
free = record { fiber = none; cb = some 6; thread_id = any_thread }

abbrev is_three : ℕ → Bool
is_three zero = false
is_three (suc zero) = false
is_three (suc (suc zero)) = false
is_three (suc (suc (suc n))) = true

-- Thread 1 passes over the task for thread 9 and the running fiber.
scan_run :
    scan is_three 1 (pinned ∷ running ∷ free ∷ []) ≡ found free (pinned ∷ running ∷ []) [] true
unfolding scan
scan_run = refl

scan-Reports_example :
    Reports is_three 1
      (pinned ∷ running ∷ free ∷ [])
      (scan is_three 1 (pinned ∷ running ∷ free ∷ []))
scan-Reports_example =
    scan-Reports is_three 1 (pinned ∷ running ∷ free ∷ []) (refl, (refl, (refl, tt)))

abbrev empty_scheduler : Scheduler
empty_scheduler = record {
  tasks = [];
  active = 0;
  idle = 0;
  stopping = true;
  auto_stop = false;
  use_caller = true;
  thread_count = 1;
  threads = [];
  thread_ids = 4 ∷ [];
}

new_run : new 2 true 4 false ≡ some empty_scheduler
unfolding new
new_run = refl

abbrev one_queued : Scheduler
one_queued = record empty_scheduler { tasks = free ∷ [] }

abbrev submitted_one : System
submitted_one = record (fresh empty_scheduler) {
  sched = (schedule empty_scheduler (by_cb (some 6)) any_thread).0;
  submitted = task_of (by_cb (some 6)) any_thread ∷ [];
}

one_submitted : Conserve.Reach (fresh empty_scheduler) submitted_one
unfolding task_of schedule
one_submitted =
    Conserve.Reach.next Conserve.Reach.here (Conserve.Step.submits (by_cb (some 6)) any_thread)

tasks_conserved_example :
    Perm submitted_one.submitted (submitted_one.started ++ submitted_one.sched.tasks)
    × (submitted_one.sched.active + submitted_one.ended ≡ length submitted_one.started)
tasks_conserved_example = tasks_conserved 2 true 4 false new_run one_submitted

stopped : Stop.Reach empty_scheduler (record empty_scheduler { stopping = true; threads = [] })
unfolding stop
stopped = Stop.Reach.next Stop.Reach.here (Stop.Step.stops true refl)

never_stopping_example :
    is_stopping (record empty_scheduler { stopping = true; threads = [] }) ≡ false
never_stopping_example = never_stopping 2 true 4 false new_run stopped
