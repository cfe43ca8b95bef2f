-- ===== src/Threads.antt =====
-- Threads: the locks of a scope (include/Thread/Mutex.h) and the pool of workers
-- (src/Thread/ThreadPool.cc). The wrappers of pthread are not modelled.
pub mod Lock
pub mod Pool
