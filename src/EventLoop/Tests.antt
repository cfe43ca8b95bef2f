-- ===== src/EventLoop/Tests.antt =====
-- A manager with READ registered for descriptor 1, and a worker of the same scheduler.
use siempre.Base.{ℕ, zero, suc, ◌≡◌, refl, true, false, List, [], ◌∷◌, none, some, ◌==◌, arith}
use siempre.Fiber.{Fiber, ready, entry}
use siempre.Scheduler.Worker.{Worker, Body, rounds}
use siempre.Scheduler.Worker.OneRound.{AtLoop, tasks_of}
use siempre.IoManager.Context.{FdContext, Scheduled, read_event, new_context, blank}
use siempre.IoManager.Contexts.{events_at}
use siempre.IoManager.{add, Manager, handle_event}
use siempre.IoManager.Keeps.{IsValid, watched}
use siempre.EventLoop.{deliver}
use siempre.EventLoop.Deliver.{readable, event_delivered}

abbrev reading : FdContext
reading = record {
  fd = 1;
  read = record { sc = some 9; fiber = none; cb = some 7 };
  write = blank;
  events = read_event;
}

abbrev one_event : Manager
one_event = record {
  contexts = new_context 0 ∷ reading ∷ [];
  pending = 1;
  epoll = record { op = add; fd = 1; events = read_event } ∷ [];
  scheduled = [];
}

one_event_agrees : (g : ℕ) → watched one_event.epoll g ≡ events_at one_event.contexts g
one_event_agrees zero = refl
one_event_agrees (suc zero) = refl
one_event_agrees (suc (suc g)) = ground arith

one_event-IsValid : IsValid one_event
one_event-IsValid = record {
  counts = record {
    consistent = (
      record { reading = (refl, refl, refl); writing = (refl, refl, refl) },
      (record { reading = (refl, refl, refl); writing = (refl, refl, refl) }, tt),
    );
    numbered = (refl, (refl, tt));
    counted = refl;
    small = omega arith;
    roomy = omega arith;
  };
  agrees = one_event_agrees;
}

abbrev resting : Fiber
resting = record { state = ready; cb = some 50; stack = true; in_scheduler = true }

-- The loop runs in fiber 0, fiber 9 is the idle one, and callback 4 is queued.
abbrev one_queued : Worker
one_queued = record {
  scheduler = record {
    tasks = tasks_of (4 ∷ []);
    active = 0;
    idle = 0;
    stopping = false;
    auto_stop = false;
    use_caller = false;
    thread_count = 1;
    threads = 7 ∷ [];
    thread_ids = 7 ∷ [];
  };
  thread = record {
    fibers = λ g. resting;
    saved = entry;
    running = entry 0;
    current = some 0;
    thread_fiber = some 0;
    main_fiber = some 0;
  };
  idle_fiber = 9;
  tid = 7;
  ran = [];
}

one_queued-AtLoop : AtLoop one_queued 0
one_queued-AtLoop = record {
  dispatches = record { dispatcher = refl; open_flow = refl };
  idle_apart = λ e. omega arith;
  idle_in_scheduler = refl;
  idle_open = refl;
  idle_live = refl;
  none_active = refl;
  none_idle = refl;
  not_ending = refl;
}

-- Callbacks that ask for nothing, the fourth of which throws.
abbrev plain : Body
plain c = ([], c == 4)

event_delivered_example :
    (handle_event one_event 1 readable false ≡ some one_event)
    × (m' : Manager) × (new : List Scheduled) × (handle_event one_event 1 readable true ≡ some m')
    × (m'.scheduled ≡ new)
    × ((events_at m'.contexts 1).read ≡ false)
    × (w' : Worker) × (rounds plain
          (record one_queued { scheduler = deliver 9 one_queued.scheduler new })
          (20 ∷ 20 ∷ [])
        ≡ some w')
    × (w'.ran ≡ 4 ∷ 7 ∷ [])
event_delivered_example =
    event_delivered one_event 1 9 7 0 reading plain one_queued (4 ∷ []) (20 ∷ 20 ∷ [])
      one_event-IsValid refl refl refl refl one_queued-AtLoop refl
      ((λ e. omega arith, λ e. omega arith), ((λ e. omega arith, λ e. omega arith), tt)) refl
