-- ===== src/EventLoop.antt =====
-- An I/O manager and the loop of one of its threads together: src/io/IOManager.cc over
-- src/Fiber/Scheduler.cc. What a trigger hands to a scheduler becomes a task of its queue.
mod Deliver
mod Tests
use siempre.Base.{ℕ, List, [], ◌∷◌, ◌==◌, if◌then◌else◌}
use siempre.Scheduler.{Scheduler, schedule, any_thread}
use siempre.IoManager.Context.{Scheduled}

-- The calls `ctx.sc->schedule(...)` of the triggers, as far as they are to the scheduler `k`.
pub deliver : ℕ → Scheduler → List Scheduled → Scheduler
deliver k s [] = s
deliver k s (x ∷ rest) =
    let s' = (schedule s x.1 any_thread).0 in deliver k (if x.0 == k then s' else s) rest
