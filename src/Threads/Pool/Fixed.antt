-- ===== src/Threads/Pool/Fixed.antt =====
-- What holds of a fixed pool after any steps of its threads.
use siempre.Base.{
  ℕ, ◌+◌, ◌^◌, ◌%◌, ◌≡◌, ◌≤◌, ◌<◌, ◌⊎◌, inl, inr, refl, Bool, List, [], ◌∷◌, ◌++◌, length, arith,
  ltb, Bool-cases, ◌∙◌, sym, ap,
}
use siempre.Threads.Pool.{Task, set_task_threshold, set_work_mode}
use siempre.Threads.Pool.Queue.{
  System, start, Step, arrives, retries, works, rests, sets_threshold, sets_mode, Reach, here, next,
}
use siempre.Threads.Pool.Keeps.{
  count_of, count_of-append, Sound, kept, start-Sound, passed-kept, passed-Sound, renewed-Sound,
  limited-Sound, moded-Sound, rested-Sound, worked-kept, worked-Sound,
}

module _ (workers size : ℕ) where
  abbrev Inv : System → Type 0
  Inv s = Sound workers size s × ((f : Task → Bool) → count_of f s.submitted ≡ kept f s)

  step-Inv : {s s' : System} → Inv s → Step s s' → Inv s'
  step-Inv {s} v (arrives t) = (
    passed-Sound workers size (record s { submitted = s.submitted ++ (t ∷ []) }) t
        (renewed-Sound workers size s (s.submitted ++ (t ∷ [])) s.pool.notified v.0),
    λ f. omega (
      arith,
      v.1 f,
      count_of-append f s.submitted (t ∷ []),
      passed-kept f (record s { submitted = s.submitted ++ (t ∷ []) }) s.pool t,
    ),
  )
  step-Inv {s} v (retries t before after e) =
      let p = record s.pool { notified = before ++ after } in
      (
        passed-Sound workers size (record s { pool = p }) t
            (renewed-Sound workers size s s.submitted (before ++ after) v.0),
        λ f. omega (
          arith,
          v.1 f,
          passed-kept f s p t,
          count_of-append f before after,
          count_of-append f before (t ∷ after),
          count_of-append f (t ∷ []) after,
          ap (count_of f) e,
        ),
      )
  step-Inv {s} v (works l) = (worked-Sound workers size s l v.0, λ f. v.1 f ∙ sym (worked-kept f s))
  step-Inv {s} v (sets_threshold n) =
      (limited-Sound workers size s n v.0, λ f. unfold set_task_threshold in v.1 f)
  step-Inv {s} v (sets_mode m) =
      (moded-Sound workers size s m v.0, λ f. unfold set_work_mode in v.1 f)
  step-Inv {s} v (rests l) = (rested-Sound workers size s l v.0, v.1)

  Reach-Inv : {s s' : System} → Inv s → Reach s s' → Inv s'
  Reach-Inv v here = v
  Reach-Inv v (next r st) = step-Inv (Reach-Inv v r) st

-- Whatever its threads do, in whatever order, setting the threshold and the mode included: the tasks
-- are taken in the order in which they were put in the queue, and those not taken are the queue; every
-- task that came is taken, in the queue or held by a caller that waits; the queue is never longer than
-- the greatest threshold so far; no worker sleeps while there is a task; no caller sleeps while the
-- queue is shorter than the least threshold so far; the workers are all accounted for; and the counter
-- is the length of the queue plus the value it was found with, in 32 bits; provided that this value is
-- one of 32 bits. Of the thresholds so far, one is the value that the field was found with, and the
-- others are those that were set.
pub pool_sound :
    (workers threshold size : ℕ) (s : System)
    → size < 2 ^ 32
    → Reach (start workers threshold size) s
    → (s.queued ≡ s.taken ++ s.pool.tasks)
      × ((f : Task → Bool) → count_of f s.submitted ≡ kept f s)
      × (length s.pool.tasks ≤ s.highest)
      × ((s.pool.on_not_empty ≡ 0) ⊎ (s.pool.tasks ≡ []))
      × ((s.pool.on_not_full ≡ []) ⊎ (s.lowest ≤ length s.pool.tasks))
      × (s.pool.on_not_empty + s.pool.ready + s.running ≡ workers)
      × (s.pool.task_size ≡ (size + length s.pool.tasks) % 2 ^ 32)
pool_sound workers threshold size s l r =
    let v = Reach-Inv workers size (start-Sound workers threshold size l, λ f. refl) r in
    (v.0.fifo, v.1, v.0.bounded, v.0.heard_not_empty, v.0.heard_not_full, v.0.staffed, v.0.sized)

some_worker : (n : ℕ) (ts : List Task) → (n ≡ 0) ⊎ (ts ≡ []) → 0 < length ts → n ≡ 0
some_worker n ts (inl e) l = e
some_worker n ts (inr e) l = absurd (ground (arith, e))

no_caller :
    {threshold : ℕ} (ts us : List Task)
    → (ts ≡ []) ⊎ (threshold ≤ length us)
    → length us < threshold
    → length ts ≡ 0
no_caller ts us (inl e) l = rw e refl
no_caller ts us (inr h) l = absurd (omega (arith, h, l))

-- A pool with a worker, whose threshold was never 0, neither when it was found nor when it was set, is
-- never stuck: while a task waits in the queue or with a caller, some worker is ready or runs a task,
-- or some caller has been notified; provided that the counter was found with a value of 32 bits.
pub pool_progress :
    (workers threshold size : ℕ) (s : System)
    → size < 2 ^ 32
    → 0 < workers
    → Reach (start workers threshold size) s
    → 0 < s.lowest
    → 0 < length s.pool.tasks + length s.pool.on_not_full
    → 0 < s.pool.ready + s.running + length s.pool.notified
pool_progress workers threshold size s l w r h q =
    let v = pool_sound workers threshold size s l r in
    elim (Bool-cases (ltb 0 (length s.pool.tasks))) [
      | inl e ↦
          let n = some_worker s.pool.on_not_empty s.pool.tasks v.3 (ground arith) in
          omega (arith, v.5, n, w)
      | inr e ↦
          let z : length s.pool.tasks ≡ 0 = ground arith in
          absurd (
            omega
              (arith, q, z, no_caller s.pool.on_not_full s.pool.tasks v.4 (omega (arith, z, h))))
    ]
