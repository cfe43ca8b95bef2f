-- ===== src/EventLoop/Deliver.antt =====
-- An event that is reported reaches the callback that was registered for it.
use siempre.Base.{
  ℕ, ◌+◌, ◌≡◌, refl, sym, ap, ◌∙◌, true, false, List, [], ◌∷◌, ◌++◌, some, ◌==◌, length,
  length-append, get_elem?, arith, append_assoc, append-nil, subst,
}
use siempre.Scheduler.{Scheduler, by_cb_ptr}
use siempre.Scheduler.Worker.{Worker, Body, rounds}
use siempre.Scheduler.Worker.OneRound.{AtLoop, tasks_of, tasks_of-last, schedule_cb, ran_after}
use siempre.Scheduler.Worker.Fifo.{Free, rounds-Stands}
use siempre.IoManager.Context.{FdContext, Scheduled}
use siempre.IoManager.Contexts.{events_at}
use siempre.IoManager.{Manager, Ready, real_events, handle_event}
use siempre.IoManager.Keeps.{IsValid}
use siempre.IoManager.Triggers.{both_handed}
use siempre.IoManager.Reported.{handles, handle_event_lem, handle_event_refused}
use siempre.EventLoop.{deliver}

-- The queue as it stands is run in as many rounds as it is long.
ran_after-length : (body : Body) (q r : List ℕ) → ran_after body (length q) (q ++ r) ≡ q
ran_after-length body [] r = refl
ran_after-length body (c ∷ q) r =
    rw (append_assoc q r (body c).0) (ap (λ l. c ∷ l) (ran_after-length body q (r ++ (body c).0)))

-- Input is reported of a descriptor, and nothing else.
abbrev pub readable : Ready
readable = record { broken = false; input = true; output = false }

deliver_one :
    (k c : ℕ) (s : Scheduler) (q : List ℕ)
    → s.tasks ≡ tasks_of q
    → deliver k s ((k, by_cb_ptr (some c)) ∷ []) ≡ record s { tasks = tasks_of (q ++ (c ∷ [])) }
unfolding deliver
deliver_one k c s q e =
    let here : (k == k) ≡ true = ground arith in
    rw (here, schedule_cb, e) (ap (λ l. record s { tasks = l }) (sym (tasks_of-last q c)))

handed_over :
    (x : FdContext) (k c : ℕ)
    → x.read.sc ≡ some k
    → x.read.cb ≡ some c
    → both_handed x (real_events readable x.events) ≡ (k, by_cb_ptr (some c)) ∷ []
handed_over x k c sc cb = rw (sc, cb) refl

ran_all :
    (body : Body) (q : List ℕ) (c n : ℕ)
    → n ≡ length q + 1
    → ran_after body n (q ++ (c ∷ [])) ≡ q ++ (c ∷ [])
ran_all body q c n e =
    let long : n ≡ length (q ++ (c ∷ [])) = omega (arith, length-append q (c ∷ [])) in
    rw long (
      subst (λ l. ran_after body (length (q ++ (c ∷ []))) l ≡ q ++ (c ∷ []))
        (append-nil (q ++ (c ∷ []))) (ran_after-length body (q ++ (c ∷ [])) []))

-- A valid manager in which READ of `fd` is registered with callback `c` of scheduler `k` is told that
-- there is input. If epoll_ctl refuses, nothing changes. If it succeeds, READ is registered no more,
-- and one task is handed over; a worker of that scheduler that is in its loop, with the callbacks `q`
-- queued, runs these and then `c` in the rounds that follow, one for each, whatever the callbacks
-- schedule and whether or not they throw.
pub event_delivered :
    (m : Manager) (fd k c main : ℕ) (x : FdContext) (body : Body) (w : Worker) (q addrs : List ℕ)
    → IsValid m
    → get_elem? m.contexts fd ≡ some x
    → x.events.read ≡ true
    → x.read.sc ≡ some k
    → x.read.cb ≡ some c
    → AtLoop w main
    → w.scheduler.tasks ≡ tasks_of q
    → Free main w.idle_fiber addrs
    → length addrs ≡ length q + 1
    → (handle_event m fd readable false ≡ some m)
      × (m' : Manager) × (new : List Scheduled) × (handle_event m fd readable true ≡ some m')
      × (m'.scheduled ≡ m.scheduled ++ new)
      × ((events_at m'.contexts fd).read ≡ false)
      × (w' : Worker) × (rounds body (record w { scheduler = deliver k w.scheduler new }) addrs
          ≡ some w')
      × (w'.ran ≡ w.ran ++ (q ++ (c ∷ [])))
event_delivered m fd k c main x body w q addrs v e on sc cb a t f l =
    let (m', h, g) = handle_event_lem m fd x readable true v e (λ z. on) (λ z. ground arith) in
    let done : handles x readable true ≡ true = ground arith in
    let given_on = rw done at (g.schedules) in
    let w1 : Worker = record w {
      scheduler = record w.scheduler { tasks = tasks_of (q ++ (c ∷ [])) };
    } in
    let at : AtLoop w1 main = record {
      dispatches = a.dispatches;
      idle_apart = a.idle_apart;
      idle_in_scheduler = a.idle_in_scheduler;
      idle_open = a.idle_open;
      idle_live = a.idle_live;
      none_active = a.none_active;
      none_idle = a.none_idle;
      not_ending = a.not_ending;
    } in
    let (w', run, s) = rounds-Stands body w1 main addrs (q ++ (c ∷ [])) at f refl in
    (
      handle_event_refused m fd x readable v e,
      m',
      (k, by_cb_ptr (some c)) ∷ [],
      h,
      given_on ∙ ap (λ l. m.scheduled ++ l) (handed_over x k c sc cb),
      ground (arith, g.changes fd, on),
      w',
      rw (deliver_one k c w.scheduler q t) run,
      rw (ran_all body q c (length addrs) l) at (s.record_of),
    )
