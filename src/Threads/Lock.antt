-- ===== src/Threads/Lock.antt =====
-- The locks that live as long as a scope: `ScopeLockImpl`, `ReadScopeLockImpl` and
-- `WriteScopeLockImpl` of include/Thread/Mutex.h, which differ in the call that takes the mutex.
-- What the mutex is asked is kept as a list, the latest call last. The flag has no initial value in
-- the code, so the constructor takes the one that is found there.
pub mod Balance
mod Tests
use siempre.Base.{Bool, true, false, List, [], ◌∷◌, ◌++◌, if◌then◌else◌}

pub data Access : Type 0 where
  whole : Access
  reading : Access
  writing : Access

-- `lock`, `rdlock` or `wrlock` of the mutex, and its `unlock`.
pub data Request : Type 0 where
  takes : Access → Request
  gives : Request

pub record ScopeLock : Type 0 where
  pub is_locked : Bool
  pub requests : List Request

pub lock : Access → ScopeLock → ScopeLock
lock a s =
    if s.is_locked then s else record { is_locked = true; requests = s.requests ++ (takes a ∷ []) }

pub unlock : ScopeLock → ScopeLock
unlock s =
    if s.is_locked then record { is_locked = false; requests = s.requests ++ (gives ∷ []) } else s

-- The constructor.
pub new_lock : Access → Bool → ScopeLock
unfolding lock
new_lock a found = record (lock a (record { is_locked = found; requests = [] })) {
  is_locked = true;
}

-- The destructor.
pub end_lock : ScopeLock → ScopeLock
unfolding unlock
end_lock s = unlock s
