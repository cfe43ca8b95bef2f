-- ===== src/Scheduler/Worker/Fifo.antt =====
-- The loop of a worker against a queue of callbacks.
use siempre.Base.{
  ℕ, zero, suc, ◌≡◌, ◌≢◌, refl, sym, ap, List, [], ◌∷◌, ◌++◌, some, All, length, append_assoc,
  append-nil, ◌∙◌,
}
use siempre.Scheduler.Worker.{Worker, Body, again, rounds}
use siempre.Scheduler.Worker.OneRound.{
  queue_after, ran_after, tasks_of, AtLoop, Stands, one_round_lem,
}

ran_after-suc :
    (body : Body) (n : ℕ) (q : List ℕ)
    → ran_after body (suc n) q ≡ ran_after body 1 q ++ ran_after body n (queue_after body 1 q)
ran_after-suc body zero [] = refl
ran_after-suc body (suc n) [] = refl
ran_after-suc body n (c ∷ q) = refl

queue_after-suc :
    (body : Body) (n : ℕ) (q : List ℕ)
    → queue_after body (suc n) q ≡ queue_after body n (queue_after body 1 q)
queue_after-suc body zero [] = refl
queue_after-suc body (suc n) [] = refl
queue_after-suc body n (c ∷ q) = refl

-- The addresses of new fibers, which no fiber of the worker has.
abbrev pub Free : ℕ → ℕ → List ℕ → Type 0
Free m idle addrs = All (λ addr. (addr ≢ m) × (addr ≢ idle)) addrs

-- From its loop, with callbacks in the queue, a worker runs as many rounds as it is given addresses,
-- without failing an assertion: the callbacks run once each, in the order in which they were queued,
-- those that a callback asks for behind all others; an empty queue costs a turn of the idle fiber;
-- whether or not callbacks throw, control is back in the flow of the loop each time, the counters of
-- active and idle threads are zero again, and the queue is what the specification says.
pub rounds-Stands :
    (body : Body) (w : Worker) (m : ℕ) (addrs q : List ℕ)
    → AtLoop w m
    → Free m w.idle_fiber addrs
    → w.scheduler.tasks ≡ tasks_of q
    → (w' : Worker) × (rounds body w addrs ≡ some w')
      × Stands w w' m (ran_after body (length addrs) q) (queue_after body (length addrs) q)
unfolding rounds again
rounds-Stands body w m [] q a f e = (
  w,
  refl,
  record {
    at_loop = a;
    queue = e;
    record_of = sym (append-nil w.ran);
    same_flow = refl;
    same_idle = refl;
  },
)
rounds-Stands body w m (addr ∷ addrs) q a f e =
    let (w1, e1, s1) = one_round_lem body w m addr q a f.0.0 f.0.1 e in
    let (w2, e2, s2) =
      rounds-Stands body w1 m addrs (queue_after body 1 q) s1.at_loop (rw s1.same_idle f.1)
        s1.queue in
    (
      w2,
      ap (λ o. again o (λ w'. rounds body w' addrs)) e1 ∙ e2,
      record {
        at_loop = s2.at_loop;
        queue = s2.queue ∙ ap tasks_of (sym (queue_after-suc body (length addrs) q));
        record_of =
            s2.record_of
            ∙ rw (s1.record_of, ran_after-suc body (length addrs) q)
                (append_assoc w.ran (ran_after body 1 q)
                  (ran_after body (length addrs) (queue_after body 1 q)));
        same_flow = s2.same_flow ∙ s1.same_flow;
        same_idle = s2.same_idle ∙ s1.same_idle;
      },
    )
