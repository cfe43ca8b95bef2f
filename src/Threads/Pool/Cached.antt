-- ===== src/Threads/Pool/Cached.antt =====
-- What a worker of a cached pool does: it leaves the task that it runs in the queue.
use siempre.Base.{ℕ, zero, suc, ◌+◌, ◌≡◌, refl, List, [], ◌∷◌, ◌++◌, ap, ◌∙◌, arith}
use siempre.Threads.Pool.{Pool, Task, add_task, cached_round}
use siempre.Threads.Pool.Queue.{took}

-- So many rounds of workers, with the tasks that they run.
abbrev pub rounds : ℕ → Pool → Pool × List Task
rounds zero p = (p, [])
rounds (suc n) p = let r = cached_round p in let rest = rounds n r.0 in (rest.0, took r.1 ++ rest.1)

abbrev pub times : ℕ → Task → List Task
times zero t = []
times (suc n) t = t ∷ times n t

abbrev pub add_all : Pool → List Task → Pool
add_all p [] = p
add_all p (t ∷ ts) = add_all (add_task p t) ts

rounds_lem :
    (n : ℕ) (p : Pool) (t : Task) (ts : List Task)
    → p.tasks ≡ t ∷ ts
    → ((rounds n p).0.tasks ≡ t ∷ ts) × ((rounds n p).1 ≡ times n t)
unfolding cached_round
rounds_lem zero p t ts e = (e, refl)
rounds_lem (suc n) p t ts e =
    let q = record p { tasks = t ∷ ts; on_cond = 0; ready = p.on_cond + p.ready } in
    let r = rounds_lem n q t ts refl in rw e (r.0, ap (λ l. t ∷ l) r.1)

-- Who sleeps on m_cond and who is ready; no worker of a cached pool sleeps on m_notEmpty.
abbrev pub Unwoken : Pool → Pool → Type 0
Unwoken p q = (q.on_cond ≡ p.on_cond) × (q.ready ≡ p.ready) × (q.on_not_empty ≡ 0)

add_task-Unwoken : (p : Pool) (t : Task) → p.on_not_empty ≡ 0 → Unwoken p (add_task p t)
unfolding add_task
add_task-Unwoken p t e = (ground arith, ground (arith, e), ground (arith, e))

add_all-Unwoken : (p : Pool) (ts : List Task) → p.on_not_empty ≡ 0 → Unwoken p (add_all p ts)
add_all-Unwoken p [] e = (refl, refl, e)
add_all-Unwoken p (t ∷ ts) e =
    let (a, b, c) = add_task-Unwoken p t e in
    let (x, y, z) = add_all-Unwoken (add_task p t) ts c in (x ∙ a, y ∙ b, z)

-- In a cached pool `p` with a task in its queue the rounds of the workers run the first one each time
-- and never another. In a cached pool `q`, whatever its queue, tasks that are added wake none of the
-- workers that fell asleep because there was none: with all asleep, none is ready afterwards either.
pub cached_repeats :
    (p q : Pool) (ts us : List Task) (t : Task) (n : ℕ)
    → p.tasks ≡ t ∷ ts
    → q.on_not_empty ≡ 0
    → ((rounds n p).1 ≡ times n t) × ((rounds n p).0.tasks ≡ t ∷ ts) × Unwoken q (add_all q us)
cached_repeats p q ts us t n e z =
    let r = rounds_lem n p t ts e in (r.1, r.0, add_all-Unwoken q us z)
