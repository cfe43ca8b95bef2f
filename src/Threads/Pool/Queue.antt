-- ===== src/Threads/Pool/Queue.antt =====
-- Runs of the pool: which steps its threads take, in any order.
use siempre.Base.{
  ℕ, ◌+◌, ◌-◌, ◌≡◌, ◌<◌, List, [], ◌∷◌, ◌++◌, Option, none, some, length, leb, min, if◌then◌else◌,
}
use siempre.Threads.Pool.{
  Pool, Task, new_pool, Mode, add_task, fixed_round, fixed_mode, set_task_threshold, set_work_mode,
}

-- The pool with its history: the tasks that came, those put in the queue and those taken from it, in
-- order, the number of workers that run one, and the least and the greatest threshold so far, the one
-- that the pool was found with included.
pub record System : Type 0 where
  pub pool : Pool
  pub submitted : List Task
  pub queued : List Task
  pub taken : List Task
  pub running : ℕ
  pub lowest : ℕ
  pub highest : ℕ

abbrev pub start : ℕ → ℕ → ℕ → System
start count threshold size = record {
  pool = new_pool fixed_mode count threshold size;
  submitted = [];
  queued = [];
  taken = [];
  running = 0;
  lowest = threshold;
  highest = threshold;
}

-- The tasks that a pass of `addTask` puts in the queue.
abbrev pub put_in : Pool → Task → List Task
put_in p t = if leb p.threshold (length p.tasks) then [] else t ∷ []

abbrev pub passed : System → Pool → Task → System
passed s p t = record s { pool = add_task p t; queued = s.queued ++ put_in p t }

abbrev pub took : Option Task → List Task
took none = []
took (some t) = t ∷ []

abbrev pub worked : System → Pool × Option Task → System
worked s r = record s {
  pool = r.0;
  taken = s.taken ++ took r.1;
  running = s.running + length (took r.1);
}

abbrev pub limited : System → ℕ → System
limited s n = record s {
  pool = set_task_threshold s.pool n;
  lowest = min s.lowest n;
  highest = if leb s.highest n then n else s.highest;
}

-- A caller of `addTask` comes, or one that was notified tries again; a worker that is ready runs its
-- block, or ends its task and is ready; any thread sets the threshold or the mode, without the mutex.
pub data Step (s : System) : System → Type 0 where
  arrives : (t : Task) → Step s (passed (record s { submitted = s.submitted ++ (t ∷ []) }) s.pool t)
  retries :
      (t : Task) (before after : List Task)
      → s.pool.notified ≡ before ++ (t ∷ after)
      → Step s (passed s (record s.pool { notified = before ++ after }) t)
  works : 0 < s.pool.ready → Step s (worked s (fixed_round s.pool))
  rests :
      0 < s.running
      → Step s
          (record s { pool = record s.pool { ready = s.pool.ready + 1 }; running = s.running - 1 })
  sets_threshold : (n : ℕ) → Step s (limited s n)
  sets_mode : (m : Mode) → Step s (record s { pool = set_work_mode s.pool m })

pub data Reach (s : System) : System → Type 0 where
  here : Reach s s
  next : {t u : System} → Reach s t → Step t u → Reach s u
