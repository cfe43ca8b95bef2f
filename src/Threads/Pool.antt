-- ===== src/Threads/Pool.antt =====
-- The pool of workers: src/Thread/ThreadPool.cc, without USE_STD_CONDITION, and the waiting of
-- src/Thread/Mutex.cc. A thread that holds the mutex runs up to where it lets it go as one step; to
-- wait lets it go and falls asleep at once. A thread that was notified tests its condition again.
-- The threshold and the counter have no initial values in the code: the constructor takes those found.
pub mod Queue
pub mod Keeps
pub mod Fixed
pub mod Cached
mod Tests
use siempre.Base.{
  ℕ, ◌+◌, ◌-◌, ◌^◌, ◌%◌, Bool, true, false, List, [], ◌∷◌, ◌++◌, Option, none, some, leb, length,
  if◌then◌else◌,
}

-- A task is known by a number; `none` is an empty std::function.
abbrev pub Task : Type 0
Task = Option ℕ

pub data Mode : Type 0 where
  fixed_mode : Mode
  cached_mode : Mode

-- The threads by what they do: callers of `addTask` asleep on m_notFull or notified, with their tasks,
-- and workers asleep on m_notEmpty, asleep on m_cond, or about to take the mutex.
pub record Pool : Type 0 where
  pub tasks : List Task
  pub threshold : ℕ
  pub task_size : ℕ
  pub mode : Mode
  pub on_not_full : List Task
  pub notified : List Task
  pub on_not_empty : ℕ
  pub on_cond : ℕ
  pub ready : ℕ

abbrev pub new_pool : Mode → ℕ → ℕ → ℕ → Pool
new_pool work_mode count threshold size = record {
  tasks = [];
  threshold = threshold;
  task_size = size;
  mode = work_mode;
  on_not_full = [];
  notified = [];
  on_not_empty = 0;
  on_cond = 0;
  ready = count;
}

pub set_task_threshold : Pool → ℕ → Pool
set_task_threshold p n = record p { threshold = n }

-- `setWorkMode`, whose field nothing reads.
pub set_work_mode : Pool → Mode → Pool
set_work_mode p m = record p { mode = m }

-- `addTask`, from the test of its condition on.
pub add_task : Pool → Task → Pool
add_task p t =
    if leb p.threshold (length p.tasks)
    then record p { on_not_full = p.on_not_full ++ (t ∷ []) }
    else record p {
      tasks = p.tasks ++ (t ∷ []);
      task_size = (p.task_size + 1) % 2 ^ 32;
      on_not_empty = 0;
      ready = p.on_not_empty + p.ready;
    }

-- The locked block of a worker of a fixed pool, for a worker that was ready.
pub fixed_round : Pool → Pool × Option Task
fixed_round p = front p.tasks
  where
    front : List Task → Pool × Option Task
    front [] = (record p { on_not_empty = p.on_not_empty + 1; ready = p.ready - 1 }, none)
    front (t ∷ ts) = (
      record p {
        tasks = ts;
        task_size = (p.task_size + 2 ^ 32 - 1) % 2 ^ 32;
        on_not_full = [];
        notified = p.notified ++ p.on_not_full;
        ready = p.ready - 1;
      },
      some t,
    )

-- The locked block of a worker of a cached pool, with the task that it runs there.
pub cached_round : Pool → Pool × Option Task
cached_round p = front p.tasks
  where
    front : List Task → Pool × Option Task
    front [] = (record p { on_cond = p.on_cond + 1; ready = p.ready - 1 }, none)
    front (t ∷ ts) = (record p { on_cond = 0; ready = p.on_cond + p.ready }, some t)
