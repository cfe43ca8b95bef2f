-- ===== src/Scheduler.antt =====
-- The coroutine scheduler: src/Fiber/Scheduler.cc and include/Fiber/Scheduler.h.
-- A block under the mutex runs as one step. `tickle` is virtual: a result says whether it is called.
-- Thread ids are 64-bit words in a task and -1 stands for any thread. Whether a fiber is running
-- (`getState() == EXEC`) is an argument, since other threads change it.
pub mod Pick
pub mod Conserve
pub mod Stop
pub mod Worker
mod Tests
use siempre.Base.{
  ℕ, zero, suc, ◌+◌, ◌-◌, ◌^◌, ◌≡◌, Bool, true, false, not, ◌&&◌, ◌||◌, List, [], ◌∷◌, ◌++◌, Option,
  none, some, ◌==◌, if◌then◌else◌, is_some, is_empty,
}

-- SchedulerTask
pub record Task : Type 0 where
  pub fiber : Option ℕ
  pub cb : Option ℕ
  pub thread_id : ℕ

abbrev pub any_thread : ℕ
any_thread = 2 ^ 64 - 1

abbrev pub no_task : Task
no_task = record { fiber = none; cb = none; thread_id = any_thread }

abbrev pub has_work : Task → Bool
has_work t = is_some t.cb || is_some t.fiber

-- What `scheduleNoLock` is given: a fiber or a callback, by value or by a pointer that is emptied.
pub data Source : Type 0 where
  by_fiber by_cb by_fiber_ptr by_cb_ptr : Option ℕ → Source

-- The constructors of SchedulerTask.
pub task_of : Source → ℕ → Task
task_of (by_fiber f) thr = record { fiber = f; cb = none; thread_id = thr }
task_of (by_cb c) thr = record { fiber = none; cb = c; thread_id = thr }
task_of (by_fiber_ptr f) thr = record { fiber = f; cb = none; thread_id = thr }
task_of (by_cb_ptr c) thr = record { fiber = none; cb = c; thread_id = thr }

-- What the caller's variable holds afterwards.
pub left_in : Source → Source
left_in (by_fiber f) = by_fiber f
left_in (by_cb c) = by_cb c
left_in (by_fiber_ptr f) = by_fiber_ptr none
left_in (by_cb_ptr c) = by_cb_ptr none

pub record Scheduler : Type 0 where
  pub tasks : List Task
  pub active : ℕ
  pub idle : ℕ
  pub stopping : Bool
  pub auto_stop : Bool
  pub use_caller : Bool
  pub thread_count : ℕ
  pub threads : List ℕ
  pub thread_ids : List ℕ

-- The constructor; `caller` is the id of the thread that runs it, and `has_scheduler` whether that
-- thread has a scheduler already: SIEM_ASSERT(threads > 0), and "Scheduler Exist".
pub new : ℕ → Bool → ℕ → Bool → Option Scheduler
new threads use_caller caller has_scheduler =
    if threads == 0 || use_caller && has_scheduler
    then none
    else some (record {
      tasks = [];
      active = 0;
      idle = 0;
      stopping = true;
      auto_stop = false;
      use_caller = use_caller;
      thread_count = if use_caller then threads - 1 else threads;
      threads = [];
      thread_ids = if use_caller then caller ∷ [] else [];
    })

pub schedule_no_lock : Scheduler → Source → ℕ → Scheduler × Bool
unfolding task_of
schedule_no_lock s src thr =
    let task = task_of src thr in
    (if has_work task then record s { tasks = s.tasks ++ (task ∷ []) } else s, is_empty s.tasks)

-- `schedule(fb, thr)`
pub schedule : Scheduler → Source → ℕ → Scheduler × Bool
unfolding schedule_no_lock
schedule s src thr = schedule_no_lock s src thr

-- `schedule(begin, end)`: the loop over the range, on fuel; `none` is out of fuel. The iterator is
-- handed to `scheduleNoLock` by address and is not advanced.
pub schedule_range : ℕ → Scheduler → List Source → Bool → Option (Scheduler × Bool)
unfolding schedule_no_lock
schedule_range zero s range need = none
schedule_range (suc fuel) s [] need = some (s, need)
schedule_range (suc fuel) s (x ∷ rest) need =
    let r = schedule_no_lock s x any_thread in
    schedule_range fuel r.0 (left_in x ∷ rest) (r.1 || need)

-- What the loop of `run` over the queue ends with: a task and the tasks before and behind it, or none;
-- with the flag `tickle_me`. `failed` is SIEM_ASSERT(it->m_fiber || it->m_cb).
pub data Scan : Type 0 where
  found : Task → List Task → List Task → Bool → Scan
  missed : Bool → Scan
  failed : Scan

abbrev pub foreign : ℕ → Task → Bool
foreign tid t = not (t.thread_id == any_thread) && not (t.thread_id == tid)

abbrev pub busy : (ℕ → Bool) → Task → Bool
busy exec t = elim t.fiber [ none ↦ false | some f ↦ exec f ]

abbrev pub behind : Task → Bool → Scan → Scan
behind t tickle (found u before after more) = found u (t ∷ before) after (tickle || more)
behind t tickle (missed more) = missed (tickle || more)
behind t tickle failed = failed

pub scan : (ℕ → Bool) → ℕ → List Task → Scan
scan exec tid [] = missed false
scan exec tid (t ∷ ts) =
    let skipped = behind t (foreign tid t) (scan exec tid ts) in
    if foreign tid t
    then skipped
    else if not (is_some t.fiber || is_some t.cb)
    then failed
    else if busy exec t
    then skipped
    else found t [] ts (not (is_empty ts))

-- The locked block of a round of `run`: the task to run, if any, and whether to tickle.
pub take_found : Scheduler → Scan → Option (Scheduler × Option Task × Bool)
take_found s (found t before after tickle) =
    some (record s { tasks = before ++ after; active = s.active + 1 }, some t, tickle)
take_found s (missed tickle) = some (s, none, tickle)
take_found s failed = none

pub take_task : (ℕ → Bool) → ℕ → Scheduler → Option (Scheduler × Option Task × Bool)
unfolding scan take_found
take_task exec tid s = take_found s (scan exec tid s.tasks)

-- What a round does behind the block: it runs a fiber, or a callback in a fiber of its own; with no
-- task it goes idle, or leaves the loop if the idle fiber has ended.
pub data Round : Type 0 where
  run_fiber run_callback : ℕ → Round
  go_idle : Round
  leave : Round

pub round : Option Task → Bool → Round
round none idle_done = if idle_done then leave else go_idle
round (some t) idle_done = elim t.fiber [
  | some f ↦ run_fiber f
  | none ↦ elim t.cb [ some c ↦ run_callback c | none ↦ if idle_done then leave else go_idle ]
]

-- `--m_activeThreadCount` behind a task, and the counter around the idle fiber.
pub end_task : Scheduler → Scheduler
end_task s = record s { active = s.active - 1 }

pub begin_idle : Scheduler → Scheduler
begin_idle s = record s { idle = s.idle + 1 }

pub end_idle : Scheduler → Scheduler
end_idle s = record s { idle = s.idle - 1 }

pub has_idle_threads : Scheduler → Bool
has_idle_threads s = not (s.idle == 0)

pub is_stopping : Scheduler → Bool
is_stopping s = s.auto_stop && s.stopping && is_empty s.tasks && (s.active == 0)

-- `start`; `ids` are the ids of the threads that it creates. SIEM_ASSERT(m_threads.empty()).
pub start : Scheduler → List ℕ → Option Scheduler
start s ids =
    if not s.stopping
    then some s
    else if is_empty s.threads
    then some (record s { stopping = false; threads = ids; thread_ids = s.thread_ids ++ ids })
    else none

-- `stop`, up to the joins: the new state and the number of tickles, or nothing to do. `own` says
-- whether the calling thread runs under this scheduler (`getThis() == this`).
pub stop : Scheduler → Bool → Option (Scheduler × ℕ)
unfolding is_stopping
stop s own =
    if is_stopping s
    then some (s, 0)
    else if (if s.use_caller then own else not own)
    then some (record s { stopping = true; threads = [] }, s.thread_count)
    else none

-- `switchTo`: whether the current fiber is queued and held, or goes on.
pub switch_to : Scheduler → Bool → ℕ → ℕ → ℕ → Option Scheduler
unfolding schedule
switch_to s own thread tid this_fiber =
    if own && (thread == any_thread || thread == tid)
    then none
    else some (schedule s (by_fiber (some this_fiber)) thread).0
