-- ===== src/Threads/Pool/Keeps.antt =====
-- What the steps of a fixed pool keep.
use siempre.Base.{
  ℕ, suc, ◌+◌, ◌-◌, ◌^◌, ◌%◌, ◌≡◌, ◌≤◌, ◌<◌, ◌⊎◌, inl, inr, refl, Bool, List, [], ◌∷◌, ◌++◌, length,
  length-append, leb, min, if◌then◌else◌, arith, Bool-cases, append_assoc, append-nil, ◌∙◌, sym, ap,
  subst,
}
use siempre.Threads.Pool.{
  Pool, Task, Mode, add_task, fixed_round, set_task_threshold, set_work_mode,
}
use siempre.Threads.Pool.Queue.{System, start, passed, worked, limited}

-- How many tasks of a list have a property.
abbrev pub count_of : (Task → Bool) → List Task → ℕ
count_of f [] = 0
count_of f (t ∷ ts) = if f t then suc (count_of f ts) else count_of f ts

pub count_of-append :
    (f : Task → Bool) (xs ys : List Task) → count_of f (xs ++ ys) ≡ count_of f xs + count_of f ys
count_of-append f [] ys = omega arith
count_of-append f (x ∷ xs) ys = ground (arith, count_of-append f xs ys)

-- All but the conservation of tasks, for a pool with so many workers and the first value of the
-- counter.
pub record Sound (workers size : ℕ) (s : System) : Type 0 where
  pub above : s.lowest ≤ s.pool.threshold
  pub under : s.pool.threshold ≤ s.highest
  pub fifo : s.queued ≡ s.taken ++ s.pool.tasks
  pub bounded : length s.pool.tasks ≤ s.highest
  pub heard_not_empty : (s.pool.on_not_empty ≡ 0) ⊎ (s.pool.tasks ≡ [])
  pub heard_not_full : (s.pool.on_not_full ≡ []) ⊎ (s.lowest ≤ length s.pool.tasks)
  pub staffed : s.pool.on_not_empty + s.pool.ready + s.running ≡ workers
  pub sized : s.pool.task_size ≡ (size + length s.pool.tasks) % 2 ^ 32

-- The tasks with a property that are taken, in the queue or held by callers of `addTask`.
abbrev pub kept : (Task → Bool) → System → ℕ
kept f s =
    count_of f s.taken
    + count_of f s.pool.tasks
    + count_of f s.pool.notified
    + count_of f s.pool.on_not_full

pub start-Sound :
    (workers threshold size : ℕ) → size < 2 ^ 32 → Sound workers size (start workers threshold size)
start-Sound workers threshold size l = record {
  above = omega arith;
  under = omega arith;
  fifo = refl;
  bounded = omega arith;
  heard_not_empty = inr refl;
  heard_not_full = inl refl;
  staffed = omega arith;
  sized = omega (arith, l);
}

pub passed-kept :
    (f : Task → Bool) (s : System) (p : Pool) (t : Task)
    → kept f (passed s p t) ≡ kept f (record s { pool = p }) + count_of f (t ∷ [])
unfolding add_task
passed-kept f s p t =
    ground (arith, count_of-append f p.tasks (t ∷ []), count_of-append f p.on_not_full (t ∷ []))

-- Neither the tasks that came nor the callers that were notified matter to it.
pub renewed-Sound :
    (workers size : ℕ) (s : System) (came awake : List Task)
    → Sound workers size s
    → Sound workers size (record s { submitted = came; pool = record s.pool { notified = awake } })
renewed-Sound workers size s came awake v = record {
  above = v.above;
  under = v.under;
  fifo = v.fifo;
  bounded = v.bounded;
  heard_not_empty = v.heard_not_empty;
  heard_not_full = v.heard_not_full;
  staffed = v.staffed;
  sized = v.sized;
}

pub rested-Sound :
    (workers size : ℕ) (s : System)
    → 0 < s.running
    → Sound workers size s
    → Sound workers size
        (record s { pool = record s.pool { ready = s.pool.ready + 1 }; running = s.running - 1 })
rested-Sound workers size s l v = record {
  above = v.above;
  under = v.under;
  fifo = v.fifo;
  bounded = v.bounded;
  heard_not_empty = v.heard_not_empty;
  heard_not_full = v.heard_not_full;
  staffed = omega (arith, v.staffed, l);
  sized = v.sized;
}

still_waiting :
    {lowest : ℕ} (n m : ℕ) (ts : List Task)
    → n ≤ m
    → (ts ≡ []) ⊎ (lowest ≤ n)
    → (ts ≡ []) ⊎ (lowest ≤ m)
still_waiting n m ts l (inl e) = inl e
still_waiting n m ts l (inr h) = inr (omega (arith, h, l))

lower_waiting :
    (low lowest n : ℕ) (ts : List Task)
    → low ≤ lowest
    → (ts ≡ []) ⊎ (lowest ≤ n)
    → (ts ≡ []) ⊎ (low ≤ n)
lower_waiting low lowest n ts l (inl e) = inl e
lower_waiting low lowest n ts l (inr h) = inr (omega (arith, h, l))

pub limited-Sound :
    (workers size : ℕ) (s : System) (n : ℕ)
    → Sound workers size s
    → Sound workers size (limited s n)
unfolding set_task_threshold
limited-Sound workers size s n v = record {
  above = ground (arith, v.above);
  under = ground arith;
  fifo = v.fifo;
  bounded = ground (arith, v.bounded);
  heard_not_empty = v.heard_not_empty;
  heard_not_full =
      lower_waiting (min s.lowest n) s.lowest (length s.pool.tasks) s.pool.on_not_full (omega arith)
        v.heard_not_full;
  staffed = v.staffed;
  sized = v.sized;
}

pub moded-Sound :
    (workers size : ℕ) (s : System) (m : Mode)
    → Sound workers size s
    → Sound workers size (record s { pool = set_work_mode s.pool m })
unfolding set_work_mode
moded-Sound workers size s m v = record {
  above = v.above;
  under = v.under;
  fifo = v.fifo;
  bounded = v.bounded;
  heard_not_empty = v.heard_not_empty;
  heard_not_full = v.heard_not_full;
  staffed = v.staffed;
  sized = v.sized;
}

pub passed-Sound :
    (workers size : ℕ) (s : System) (t : Task)
    → Sound workers size s
    → Sound workers size (passed s s.pool t)
unfolding add_task
passed-Sound workers size s t v = elim (Bool-cases (leb s.pool.threshold (length s.pool.tasks))) [
  | inl e ↦ rw e (record {
    above = v.above;
    under = v.under;
    fifo = append-nil s.queued ∙ v.fifo;
    bounded = v.bounded;
    heard_not_empty = v.heard_not_empty;
    heard_not_full = inr (ground (arith, v.above));
    staffed = v.staffed;
    sized = v.sized;
  })
  | inr e ↦ rw e (record {
    above = v.above;
    under = v.under;
    fifo = ap (λ q. q ++ (t ∷ [])) v.fifo ∙ append_assoc s.taken s.pool.tasks (t ∷ []);
    bounded = ground (arith, v.under, length-append s.pool.tasks (t ∷ []));
    heard_not_empty = inl refl;
    heard_not_full =
        still_waiting (length s.pool.tasks) (length (s.pool.tasks ++ (t ∷ []))) s.pool.on_not_full
          (omega (arith, length-append s.pool.tasks (t ∷ []))) v.heard_not_full;
    staffed = omega (arith, v.staffed);
    sized = ground (arith, v.sized, length-append s.pool.tasks (t ∷ []));
  })
]

all_heard : (n : ℕ) (t : Task) (ts : List Task) → (n ≡ 0) ⊎ (t ∷ ts ≡ []) → n ≡ 0
all_heard n t ts (inl e) = e
all_heard n t ts (inr h) = ground arith

pub worked-kept : (f : Task → Bool) (s : System) → kept f (worked s (fixed_round s.pool)) ≡ kept f s
unfolding fixed_round
worked-kept f s = go s.pool.tasks refl
  where
    go : (ts : List Task) → s.pool.tasks ≡ ts → kept f (worked s (fixed_round s.pool)) ≡ kept f s
    go [] e = rw e (omega (arith, count_of-append f s.taken []))
    go (t ∷ ts) e = rw e (
        ground (
          arith,
          count_of-append f s.taken (t ∷ []),
          count_of-append f s.pool.notified s.pool.on_not_full,
        ))

pub worked-Sound :
    (workers size : ℕ) (s : System)
    → 0 < s.pool.ready
    → Sound workers size s
    → Sound workers size (worked s (fixed_round s.pool))
unfolding fixed_round
worked-Sound workers size s l v = go s.pool.tasks refl
  where
    go : (ts : List Task) → s.pool.tasks ≡ ts → Sound workers size (worked s (fixed_round s.pool))
    go [] e = rw e (record {
      above = v.above;
      under = v.under;
      fifo = v.fifo ∙ ap (λ q. s.taken ++ q) e ∙ sym (append-nil (s.taken ++ []));
      bounded = omega arith;
      heard_not_empty = inr refl;
      heard_not_full =
          subst (λ q. (s.pool.on_not_full ≡ []) ⊎ (s.lowest ≤ length q)) e v.heard_not_full;
      staffed = omega (arith, v.staffed, l);
      sized = subst (λ q. s.pool.task_size ≡ (size + length q) % 2 ^ 32) e v.sized;
    })
    go (t ∷ ts) e = rw e (record {
      above = v.above;
      under = v.under;
      fifo = v.fifo ∙ ap (λ q. s.taken ++ q) e ∙ sym (append_assoc s.taken (t ∷ []) ts);
      bounded = ground (arith, v.bounded, e);
      heard_not_empty = inl (
          all_heard s.pool.on_not_empty t ts
            (subst (λ q. (s.pool.on_not_empty ≡ 0) ⊎ (q ≡ [])) e v.heard_not_empty));
      heard_not_full = inl refl;
      staffed = omega (arith, v.staffed, l);
      sized = omega (arith, subst (λ q. s.pool.task_size ≡ (size + length q) % 2 ^ 32) e v.sized);
    })
