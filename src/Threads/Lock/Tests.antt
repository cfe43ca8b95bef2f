-- ===== src/Threads/Lock/Tests.antt =====
-- Runs of locks.
use siempre.Base.{◌≡◌, false, [], ◌∷◌}
use siempre.Threads.Lock.{reading, new_lock, end_lock}
use siempre.Threads.Lock.Balance.{locks, unlocks, uses, held, scope_balanced}

scope_balanced_example :
    held false
      (end_lock (uses reading (new_lock reading false) (unlocks ∷ locks ∷ locks ∷ []))).requests
    ≡ false
scope_balanced_example = (scope_balanced reading (unlocks ∷ locks ∷ locks ∷ [])).2
