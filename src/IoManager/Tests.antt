-- ===== src/IoManager/Tests.antt =====
-- Runs of the I/O manager, and the theorems at a manager with one event registered.
use siempre.Base.{
  ℕ, zero, suc, ◌≡◌, ap, sym, refl, true, false, [], ◌∷◌, none, some, arith, ◌==◌, get_elem?, List,
  inl,
}
use siempre.IoManager.Context.{FdContext, read_event, write_event, meet, is_set, new_context, blank}
use siempre.IoManager.Contexts.{events_at}
use siempre.Scheduler.{Scheduler}
use siempre.IoManager.{
  add, Manager, Ready, tickled, ready, reported, yields, idle_round, stopping, add_event,
  handle_event,
}
use siempre.IoManager.Keeps.{IsValid, watched}
use siempre.IoManager.Calls.{Adds, add_event_lem}
use siempre.IoManager.Logged.{Triggers}
use siempre.IoManager.Reported.{handle_event_lem}
use siempre.IoManager.Stale.{handle_event_stale}
use Prim.Native.Nat.{bit_and}
use siempre.IoManager.Batch.{left_at, idle_round_lem}
use siempre.IoManager.Masks.{real_mask, and_not, idle_masks}
use siempre.IoManager.Account.{System, start, Accounted, start-Accounted}
use siempre.IoManager.History.{Reach, starts, steps, adds, Reach-Accounted}
use siempre.IoManager.Race
use siempre.IoManager.Race.{Adding, both_testing, registered, resize_race}

abbrev reading : FdContext
reading = record {
  fd = 1;
  read = record { sc = some 9; fiber = none; cb = some 7 };
  write = blank;
  events = read_event;
}

-- READ is registered for descriptor 1, with callback 7 of scheduler 9.
abbrev one_event : Manager
one_event = record {
  contexts = new_context 0 ∷ reading ∷ [];
  pending = 1;
  epoll = record { op = add; fd = 1; events = read_event } ∷ [];
  scheduled = [];
}

one_event_agrees : (g : ℕ) → watched one_event.epoll g ≡ events_at one_event.contexts g
one_event_agrees zero = refl
one_event_agrees (suc zero) = refl
one_event_agrees (suc (suc g)) = ground arith

one_event-IsValid : IsValid one_event
one_event-IsValid = record {
  counts = record {
    consistent = (
      record { reading = (refl, refl, refl); writing = (refl, refl, refl) },
      (record { reading = (refl, refl, refl); writing = (refl, refl, refl) }, tt),
    );
    numbered = (refl, (refl, tt));
    counted = refl;
    small = omega arith;
    roomy = omega arith;
  };
  agrees = one_event_agrees;
}

add_event_lem_example :
    (m' : Manager) × (add_event one_event 1 write_event (some 8) (some 9) 3 true true
      ≡ some (m', true))
    × Adds one_event m' 1 write_event true
add_event_lem_example =
    (add_event_lem one_event 1 write_event (some 8) 9 3 true true one_event-IsValid refl refl
        (omega arith)).0
      refl

abbrev readable : Ready
readable = record { broken = false; input = true; output = false }

handle_event_lem_example :
    (m' : Manager) × (handle_event one_event 1 readable true ≡ some m')
    × Triggers one_event m' 1 reading read_event true
handle_event_lem_example =
    handle_event_lem one_event 1 reading readable true one_event-IsValid refl (λ _. refl) (λ h. cc)

abbrev two_contexts : List FdContext
two_contexts = new_context 0 ∷ new_context 1 ∷ []

resize_race_example :
    (v : Adding) × (w : Adding) × Race.Reach (both_testing two_contexts 9 4) v
    × (get_elem? v.contexts 9 ≡ some reading)
    × (v.first.phase ≡ registered)
    × Race.Step v w
    × (get_elem? w.contexts 9 ≡ none)
resize_race_example = resize_race two_contexts 9 4 reading (omega arith) (omega arith) (omega arith)

abbrev writing : FdContext
writing = record {
  fd = 1;
  read = blank;
  write = record { sc = some 9; fiber = none; cb = some 7 };
  events = write_event;
}

-- WRITE alone is registered for descriptor 1.
abbrev one_write : Manager
one_write = record {
  contexts = new_context 0 ∷ writing ∷ [];
  pending = 1;
  epoll = record { op = add; fd = 1; events = write_event } ∷ [];
  scheduled = [];
}

one_write_agrees : (g : ℕ) → watched one_write.epoll g ≡ events_at one_write.contexts g
one_write_agrees zero = refl
one_write_agrees (suc zero) = refl
one_write_agrees (suc (suc g)) = ground arith

one_write-IsValid : IsValid one_write
one_write-IsValid = record {
  counts = record {
    consistent = (
      record { reading = (refl, refl, refl); writing = (refl, refl, refl) },
      (record { reading = (refl, refl, refl); writing = (refl, refl, refl) }, tt),
    );
    numbered = (refl, (refl, tt));
    counted = refl;
    small = omega arith;
    roomy = omega arith;
  };
  agrees = one_write_agrees;
}

abbrev both_ready : Ready
both_ready = record { broken = false; input = true; output = true }

handle_event_stale_example : handle_event one_write 1 both_ready true ≡ none
handle_event_stale_example =
    handle_event_stale one_write 1 writing both_ready one_write-IsValid refl refl (inl (refl, refl))

-- READ is added for descriptor 5 in the manager that the constructor leaves.
first_add :
    (m' : Manager) × (add_event start.manager 5 read_event (some 7) (some 9) 3 true true
      ≡ some (m', true))
    × Adds start.manager m' 5 read_event true
first_add =
    (add_event_lem start.manager 5 read_event (some 7) 9 3 true true start-Accounted.valid refl refl
        (omega arith)).0
      (ap (λ x. is_set (meet x read_event)) (sym (start-Accounted.valid.agrees 5)))

abbrev one_added : System
one_added = record { manager = first_add.0; added = 1; deleted = 0 }

one_added-Reach : Reach one_added
one_added-Reach = steps start _ starts (
    adds start first_add.0 5 read_event (some 7) 9 3 true true true refl refl (omega arith)
      first_add.1)

Reach-Accounted_example : Accounted one_added
Reach-Accounted_example = Reach-Accounted one_added one_added-Reach

abbrev working : Scheduler
working = record {
  tasks = [];
  active = 0;
  idle = 1;
  stopping = false;
  auto_stop = false;
  use_caller = false;
  thread_count = 1;
  threads = 7 ∷ [];
  thread_ids = 7 ∷ [];
}

not_stopping : stopping one_event working ≡ false
unfolding stopping
not_stopping = refl

idle_round_lem_example :
    (m' : Manager) × (idle_round one_event working (reported (tickled ∷ ready 1 readable true ∷ []))
      ≡ some (yields m'))
    × IsValid m'
    × ((g : ℕ)
        → events_at m'.contexts g
          ≡ left_at (tickled ∷ ready 1 readable true ∷ []) g (events_at one_event.contexts g))
idle_round_lem_example =
    idle_round_lem one_event working (tickled ∷ ready 1 readable true ∷ []) one_event-IsValid
      not_stopping (tt, tt) (tt, ((refl, (λ h. refl), (λ h. cc)), tt))

-- A hang-up where READ is registered.
idle_masks_example :
    (real_mask 16 1 ≡ 1)
    × (bit_and 1 (real_mask 16 1) ≡ 1)
    × (and_not 1 (real_mask 16 1) ≡ 0)
    × ((bit_and 1 (real_mask 16 1) == 0) ≡ false)
    × ((and_not 1 (real_mask 16 1) == 0) ≡ true)
idle_masks_example = idle_masks read_event 16 (omega arith)
