-- ===== src/Scheduler/Worker.antt =====
-- The loop of Scheduler::run on one thread, together with the fibers that it resumes: src/Fiber/
-- Scheduler.cc over src/Fiber/Fiber.cc. Callbacks are user code: `body` says what a callback asks the
-- scheduler to run, in order, and whether it then throws. The flow of a resumed fiber is followed up to
-- its next switch. `none` is the end of the process.
pub mod OneRound
pub mod Fifo
mod Tests
use siempre.Base.{
  ℕ, ◌≡◌, Bool, true, false, List, [], ◌∷◌, ◌++◌, Option, none, some, ◌==◌, if◌then◌else◌,
}
use siempre.Fiber.{Thread, is_exec, is_term, new_fiber, resume, yield, main_func_end}
use siempre.Scheduler.{
  Task, Scheduler, by_cb, any_thread, Round, run_fiber, run_callback, go_idle, leave, round,
  schedule, take_task, end_task, begin_idle, end_idle, is_stopping,
}

-- `ran` is the callbacks that were run, in order; `idle_fiber` is the fiber of `Scheduler::idle`.
pub record Worker : Type 0 where
  pub scheduler : Scheduler
  pub thread : Thread
  pub idle_fiber : ℕ
  pub tid : ℕ
  pub ran : List ℕ

abbrev pub Body : Type 0
Body = ℕ → List ℕ × Bool

-- The calls `schedule(cb)` of a callback.
pub schedule_all : Scheduler → List ℕ → Scheduler
unfolding schedule
schedule_all s [] = s
schedule_all s (c ∷ cs) = schedule_all (schedule s (by_cb (some c)) any_thread).0 cs

with_thread : Worker → Option Thread → Option Worker
with_thread w none = none
with_thread w (some t) = some (record w { thread = t })

-- The switch of a round.
pub switch_in : Worker → ℕ → Round → Option Worker
unfolding with_thread begin_idle
switch_in w addr (run_fiber f) = with_thread w (resume w.thread f)
switch_in w addr (run_callback c) =
    with_thread w (resume (new_fiber w.thread addr (some c) true) addr)
switch_in w addr go_idle =
    with_thread (record w { scheduler = begin_idle w.scheduler }) (resume w.thread w.idle_fiber)
switch_in w addr leave = some w

-- `MainFunc` of a fiber whose callback is `cb`; calling an empty function throws.
main_func : Body → Worker → ℕ → Option ℕ → Option Worker
unfolding with_thread schedule_all
main_func body w f none = with_thread w (main_func_end w.thread f true)
main_func body w f (some c) =
    let (asked, threw) = body c in
    with_thread (record w { scheduler = schedule_all w.scheduler asked; ran = w.ran ++ (c ∷ []) })
      (main_func_end w.thread f threw)

-- `Scheduler::idle`: the test of its loop, then a yield, or the end of its function.
idle_loop : Worker → Option Worker
unfolding with_thread is_stopping
idle_loop w = with_thread w (
    if is_stopping w.scheduler
    then main_func_end w.thread w.idle_fiber false
    else yield w.thread w.idle_fiber)

flow_of : Body → Worker → Option ℕ → Option Worker
unfolding main_func idle_loop
flow_of body w none = none
flow_of body w (some f) =
    if f == w.idle_fiber then idle_loop w else main_func body w f (w.thread.fibers f).cb

-- What the current fiber, which was just resumed, does until control comes back.
pub flow : Body → Worker → Option Worker
unfolding flow_of
flow body w = flow_of body w w.thread.current

-- The counters behind the switch.
pub return_from : Round → Worker → Worker
unfolding end_task end_idle
return_from (run_fiber f) w = record w { scheduler = end_task w.scheduler }
return_from (run_callback c) w = record w { scheduler = end_task w.scheduler }
return_from go_idle w = record w { scheduler = end_idle w.scheduler }
return_from leave w = w

-- Whether a round goes on to the next: only a finished idle fiber ends the loop.
abbrev pub stays : Round → Bool
stays leave = false
stays _ = true

come_back : Round → Option Worker → Option (Worker × Bool)
unfolding return_from
come_back r none = none
come_back r (some w) = some (return_from r w, true)

finish : Body → Round → Option Worker → Option (Worker × Bool)
unfolding flow come_back
finish body r none = none
finish body r (some w) = if stays r then come_back r (flow body w) else some (w, false)

go_on : Body → Worker → ℕ → Option (Scheduler × Option Task × Bool) → Option (Worker × Bool)
unfolding switch_in finish round
go_on body w addr none = none
go_on body w addr (some (s, task, tickle)) =
    let r = round task (is_term (w.thread.fibers w.idle_fiber).state) in
    finish body r (switch_in (record w { scheduler = s }) addr r)

-- One round of the loop; `addr` is the address of the fiber that it may make. The flag says whether
-- the loop goes on.
pub one_round : Body → Worker → ℕ → Option (Worker × Bool)
unfolding go_on take_task
one_round body w addr =
    go_on body w addr (take_task (λ f. is_exec (w.thread.fibers f).state) w.tid w.scheduler)

again : Option (Worker × Bool) → (Worker → Option Worker) → Option Worker
again none k = none
again (some (w, goes)) k = if goes then k w else some w

-- The first rounds of the loop, one for each address.
pub rounds : Body → Worker → List ℕ → Option Worker
unfolding one_round again
rounds body w [] = some w
rounds body w (addr ∷ addrs) = again (one_round body w addr) (λ w'. rounds body w' addrs)
