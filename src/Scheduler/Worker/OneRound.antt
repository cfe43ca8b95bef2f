-- ===== src/Scheduler/Worker/OneRound.antt =====
-- One round of the loop of a worker against a queue of callbacks.
use siempre.Base.{
  ℕ, zero, suc, ◌+◌, ◌≡◌, ◌≢◌, refl, sym, ap, Bool, true, false, List, [], ◌∷◌, ◌++◌, Option, none,
  some, ◌==◌, not, is_empty, arith, append_assoc, append-nil, ◌∙◌,
}
use siempre.Fiber.{is_exec, is_term}
use siempre.Fiber.Entered.{Dispatches, entered_lem, idle_turn}
use siempre.Scheduler.{
  by_cb_ptr, Task, Scheduler, any_thread, Round, run_callback, go_idle, round, schedule, take_task,
  begin_idle,
}
use siempre.Scheduler.Worker.{
  Worker, Body, schedule_all, switch_in, flow, main_func, stays, finish, come_back, one_round,
  return_from,
}

-- The specification: a first-in first-out queue of callbacks. A round runs the first and puts what it
-- asks for behind the others.
abbrev pub queue_after : Body → ℕ → List ℕ → List ℕ
queue_after body zero q = q
queue_after body (suc n) [] = []
queue_after body (suc n) (c ∷ q) = queue_after body n (q ++ (body c).0)

abbrev pub ran_after : Body → ℕ → List ℕ → List ℕ
ran_after body zero q = []
ran_after body (suc n) [] = []
ran_after body (suc n) (c ∷ q) = c ∷ ran_after body n (q ++ (body c).0)

abbrev pub call_task : ℕ → Task
call_task c = record { fiber = none; cb = some c; thread_id = any_thread }

abbrev pub tasks_of : List ℕ → List Task
tasks_of [] = []
tasks_of (c ∷ cs) = call_task c ∷ tasks_of cs

tasks_of-append : (a b : List ℕ) → tasks_of (a ++ b) ≡ tasks_of a ++ tasks_of b
tasks_of-append [] b = refl
tasks_of-append (c ∷ a) b = ap (λ l. call_task c ∷ l) (tasks_of-append a b)

-- Control is in the loop of a worker between two rounds; `m` is the fiber that the loop runs in.
pub record AtLoop (w : Worker) (m : ℕ) : Type 0 where
  pub dispatches : Dispatches w.thread m
  pub idle_apart : w.idle_fiber ≢ m
  pub idle_in_scheduler : (w.thread.fibers w.idle_fiber).in_scheduler ≡ true
  pub idle_open : (w.thread.saved w.idle_fiber).done ≡ false
  pub idle_live : is_term (w.thread.fibers w.idle_fiber).state ≡ false
  pub none_active : w.scheduler.active ≡ 0
  pub none_idle : w.scheduler.idle ≡ 0
  pub not_ending : w.scheduler.auto_stop ≡ false

-- The worker stands for the queue `q`, having run `done` since `w`.
pub record Stands (w w' : Worker) (m : ℕ) (done q : List ℕ) : Type 0 where
  pub at_loop : AtLoop w' m
  pub queue : w'.scheduler.tasks ≡ tasks_of q
  pub record_of : w'.ran ≡ w.ran ++ done
  pub same_flow : w'.thread.running ≡ w.thread.running
  pub same_idle : w'.idle_fiber ≡ w.idle_fiber

-- A callback handed over by a pointer to it, as a trigger of an event does.
pub schedule_cb :
    (s : Scheduler) (c : ℕ)
    → (schedule s (by_cb_ptr (some c)) any_thread).0
      ≡ record s { tasks = s.tasks ++ (call_task c ∷ []) }
unfolding schedule
schedule_cb s c = refl

pub tasks_of-last :
    (q : List ℕ) (c : ℕ) → tasks_of (q ++ (c ∷ [])) ≡ tasks_of q ++ (call_task c ∷ [])
tasks_of-last q c = tasks_of-append q (c ∷ [])

schedule_all_lem :
    (s : Scheduler) (cs : List ℕ) → schedule_all s cs ≡ record s { tasks = s.tasks ++ tasks_of cs }
unfolding schedule_all schedule
schedule_all_lem s [] = rw (append-nil s.tasks) refl
schedule_all_lem s (c ∷ cs) =
    schedule_all_lem (record s { tasks = s.tasks ++ (call_task c ∷ []) }) cs
    ∙ rw (append_assoc s.tasks (call_task c ∷ []) (tasks_of cs)) refl

finish_lem :
    (body : Body) (w1 w2 : Worker) (r : Round) (o : Option Worker)
    → stays r ≡ true
    → o ≡ some w1
    → flow body w1 ≡ some w2
    → finish body r o ≡ some (return_from r w2, true)
unfolding finish come_back
finish_lem body w1 w2 r o n e f = ap (finish body r) e ∙ rw n (ap (come_back r) f)

-- The parts of a round put together.
round_of :
    (body : Body) (w w1 w2 : Worker) (addr : ℕ) (s : Scheduler) (task : Option Task) (tickle : Bool)
    (r : Round)
    → take_task (λ f. is_exec (w.thread.fibers f).state) w.tid w.scheduler ≡ some (s, task, tickle)
    → round task (is_term (w.thread.fibers w.idle_fiber).state) ≡ r
    → stays r ≡ true
    → switch_in (record w { scheduler = s }) addr r ≡ some w1
    → flow body w1 ≡ some w2
    → one_round body w addr ≡ some (return_from r w2, true)
unfolding one_round
round_of body w w1 w2 addr s task tickle r e1 e2 n e3 e4 =
    rw (e1, e2) (finish_lem body w1 w2 r _ n e3 e4)

module _ (body : Body) (w : Worker) (m addr : ℕ) (a : AtLoop w m) (n : addr ≢ m)
    (k : addr ≢ w.idle_fiber) where
  callback_round :
      (c : ℕ) (q : List ℕ)
      → w.scheduler.tasks ≡ tasks_of (c ∷ q)
      → (w' : Worker) × (one_round body w addr ≡ some (w', true))
        × Stands w w' m (c ∷ []) (q ++ (body c).0)
  unfolding take_task switch_in flow return_from round main_func
  callback_round c q e =
      let (t1, r1, cur, cb, ends) = entered_lem w.thread m addr c a.dispatches n in
      let (t2, r2, b) = ends (body c).1 in
      let same_fiber = b.other_fibers w.idle_fiber (λ x. k (sym x)) in
      let same_saved = b.other_flows w.idle_fiber (λ x. k (sym x)) a.idle_apart in
      let other : (addr == w.idle_fiber) ≡ false = ground arith in
      let s1 : Scheduler = record w.scheduler {
        tasks = tasks_of q;
        active = w.scheduler.active + 1;
      } in
      let w1 : Worker = record w { scheduler = s1; thread = t1 } in
      let w2 : Worker = record w {
        scheduler = record s1 { tasks = tasks_of q ++ tasks_of (body c).0 };
        thread = t2;
        ran = w.ran ++ (c ∷ []);
      } in
      let taken : take_task (λ f. is_exec (w.thread.fibers f).state) w.tid w.scheduler
          ≡ some (s1, some (call_task c), not (is_empty (tasks_of q))) =
        rw e refl in
      let entered : switch_in (record w { scheduler = s1 }) addr (run_callback c) ≡ some w1 =
        rw r1 refl in
      let flowed : flow body w1 ≡ some w2 = rw (cur, other, cb, schedule_all_lem, r2) refl in
      (
        return_from (run_callback c) w2,
        round_of body w w1 w2 addr s1 (some (call_task c)) _ (run_callback c) taken refl refl
            entered flowed,
        record {
          at_loop = record {
            dispatches = record {
              dispatcher = b.same_dispatcher ∙ a.dispatches.dispatcher;
              open_flow = rw b.same_flow a.dispatches.open_flow;
            };
            idle_apart = a.idle_apart;
            idle_in_scheduler = rw same_fiber a.idle_in_scheduler;
            idle_open = rw same_saved a.idle_open;
            idle_live = rw same_fiber a.idle_live;
            none_active = omega (arith, a.none_active);
            none_idle = a.none_idle;
            not_ending = a.not_ending;
          };
          queue = sym (tasks_of-append q (body c).0);
          record_of = refl;
          same_flow = b.same_flow;
          same_idle = refl;
        },
      )

  empty_round :
      w.scheduler.tasks ≡ []
      → (w' : Worker) × (one_round body w addr ≡ some (w', true)) × Stands w w' m [] []
  unfolding take_task switch_in flow return_from round begin_idle
  empty_round e =
      let (t1, r1, cur, t2, r2, b, i, st, sv) =
        idle_turn w.thread m w.idle_fiber a.dispatches a.idle_apart a.idle_in_scheduler
          a.idle_open in
      let same : (w.idle_fiber == w.idle_fiber) ≡ true = ground arith in
      let s1 : Scheduler = begin_idle w.scheduler in
      let w1 : Worker = record w { scheduler = s1; thread = t1 } in
      let w2 : Worker = record w { scheduler = s1; thread = t2 } in
      let taken : take_task (λ f. is_exec (w.thread.fibers f).state) w.tid w.scheduler
          ≡ some (w.scheduler, none, false) =
        rw e refl in
      let goes_idle : round none (is_term (w.thread.fibers w.idle_fiber).state) ≡ go_idle =
        rw a.idle_live refl in
      let entered : switch_in w addr go_idle ≡ some w1 = rw r1 refl in
      let flowed : flow body w1 ≡ some w2 = rw (cur, same, a.not_ending, r2) refl in
      (
        return_from go_idle w2,
        round_of body w w1 w2 addr w.scheduler none false go_idle taken goes_idle refl entered
            flowed,
        record {
          at_loop = record {
            dispatches = record {
              dispatcher = b.same_dispatcher ∙ a.dispatches.dispatcher;
              open_flow = rw b.same_flow a.dispatches.open_flow;
            };
            idle_apart = a.idle_apart;
            idle_in_scheduler = i;
            idle_open = rw sv a.idle_open;
            idle_live = rw st refl;
            none_active = a.none_active;
            none_idle = omega (arith, a.none_idle);
            not_ending = a.not_ending;
          };
          queue = e;
          record_of = sym (append-nil w.ran);
          same_flow = b.same_flow;
          same_idle = refl;
        },
      )

-- One round against the specification.
pub one_round_lem :
    (body : Body) (w : Worker) (m addr : ℕ) (q : List ℕ)
    → AtLoop w m
    → addr ≢ m
    → addr ≢ w.idle_fiber
    → w.scheduler.tasks ≡ tasks_of q
    → (w' : Worker) × (one_round body w addr ≡ some (w', true))
      × Stands w w' m (ran_after body 1 q) (queue_after body 1 q)
one_round_lem body w m addr [] a n k e = empty_round body w m addr a n k e
one_round_lem body w m addr (c ∷ q) a n k e = callback_round body w m addr a n k c q e
