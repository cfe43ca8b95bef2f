-- ===== src/Scheduler/Worker/Tests.antt =====
-- A worker whose first callback asks for two others, the second of which throws.
use siempre.Base.{◌≡◌, refl, true, false, [], ◌∷◌, some, ◌==◌, if◌then◌else◌, arith}
use siempre.Fiber.{Fiber, ready, entry}
use siempre.Scheduler.Worker.{Worker, Body, rounds}
use siempre.Scheduler.Worker.OneRound.{AtLoop, Stands, tasks_of}
use siempre.Scheduler.Worker.Fifo.{rounds-Stands}

abbrev spawning : Body
spawning c = (if c == 1 then 2 ∷ 3 ∷ [] else [], c == 2)

abbrev resting : Fiber
resting = record { state = ready; cb = some 50; stack = true; in_scheduler = true }

-- The loop runs in fiber 0, and fiber 9 is the idle one.
abbrev two_queued : Worker
two_queued = record {
  scheduler = record {
    tasks = tasks_of (1 ∷ 4 ∷ []);
    active = 0;
    idle = 0;
    stopping = false;
    auto_stop = false;
    use_caller = false;
    thread_count = 1;
    threads = 7 ∷ [];
    thread_ids = 7 ∷ [];
  };
  thread = record {
    fibers = λ g. resting;
    saved = entry;
    running = entry 0;
    current = some 0;
    thread_fiber = some 0;
    main_fiber = some 0;
  };
  idle_fiber = 9;
  tid = 7;
  ran = [];
}

two_queued-AtLoop : AtLoop two_queued 0
two_queued-AtLoop = record {
  dispatches = record { dispatcher = refl; open_flow = refl };
  idle_apart = λ e. omega arith;
  idle_in_scheduler = refl;
  idle_open = refl;
  idle_live = refl;
  none_active = refl;
  none_idle = refl;
  not_ending = refl;
}

rounds-Stands_example :
    (w' : Worker) × (rounds spawning two_queued (20 ∷ 21 ∷ 20 ∷ []) ≡ some w')
    × Stands two_queued w' 0 (1 ∷ 4 ∷ 2 ∷ []) (3 ∷ [])
rounds-Stands_example =
    rounds-Stands spawning two_queued 0 (20 ∷ 21 ∷ 20 ∷ []) (1 ∷ 4 ∷ []) two_queued-AtLoop
      (
        (λ e. omega arith, λ e. omega arith),
        ((λ e. omega arith, λ e. omega arith), ((λ e. omega arith, λ e. omega arith), tt)),
      )
      refl
