-- ===== src/Threads/Pool/Tests.antt =====
-- Runs of pools.
use siempre.Base.{◌+◌, ◌≡◌, ◌≤◌, ◌<◌, refl, [], ◌∷◌, some, arith, length}
use siempre.Threads.Pool.{Pool, new_pool, cached_mode, add_task, fixed_round}
use siempre.Threads.Pool.Queue.{System, start, passed, worked, Reach, here, next, arrives, works}
use siempre.Threads.Pool.Fixed.{pool_sound, pool_progress}
use siempre.Threads.Pool.Cached.{cached_repeats, rounds, Unwoken}

-- One worker falls asleep, one task is queued and wakes it, and a second caller finds no room.
abbrev busy : System
busy =
    let s = worked (start 1 1 7) (fixed_round (start 1 1 7).pool) in
    let t = passed (record s { submitted = some 3 ∷ [] }) s.pool (some 3) in
    passed (record t { submitted = some 3 ∷ some 4 ∷ [] }) t.pool (some 4)

busy-Reach : Reach (start 1 1 7) busy
busy-Reach = next (next (next here (works (omega arith))) (arrives (some 3))) (arrives (some 4))

busy_run :
    (busy.pool.tasks ≡ some 3 ∷ []) × (busy.pool.on_not_full ≡ some 4 ∷ []) × (busy.pool.ready ≡ 1)
unfolding add_task fixed_round
busy_run = (refl, refl, refl)

pool_sound_example : length busy.pool.tasks ≤ 1
pool_sound_example = (pool_sound 1 1 7 busy (omega arith) busy-Reach).2

pool_progress_example : 0 < busy.pool.ready + busy.running + length busy.pool.notified
unfolding add_task fixed_round
pool_progress_example =
    pool_progress 1 1 7 busy (omega arith) (omega arith) busy-Reach (omega arith) (omega arith)

abbrev one_task : Pool
one_task = add_task (new_pool cached_mode 2 4 0) (some 3)

one_task_queued : one_task.tasks ≡ some 3 ∷ []
unfolding add_task
one_task_queued = refl

-- Both workers found the queue empty and fell asleep.
abbrev two_asleep : Pool
two_asleep = record (new_pool cached_mode 2 4 0) { on_cond = 2; ready = 0 }

cached_repeats_example :
    ((rounds 2 one_task).1 ≡ some 3 ∷ some 3 ∷ [])
    × ((rounds 2 one_task).0.tasks ≡ some 3 ∷ [])
    × Unwoken two_asleep (add_task two_asleep (some 9))
cached_repeats_example =
    cached_repeats one_task two_asleep [] (some 9 ∷ []) (some 3) 2 one_task_queued refl
