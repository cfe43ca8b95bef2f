-- ===== src/Lib.antt =====
-- A verification library of Siempre, a C++ library of fibers, timers and event loops.
--
-- The parts and how they meet. A Scheduler owns a queue of tasks, each a fiber or a callback, and its
-- threads take tasks from it and resume fibers. An IOManager is a Scheduler: it registers descriptors
-- with epoll, and schedules what is registered when a descriptor is ready. A TimerManager keeps timers
-- and says which callbacks are due; the loop of the IOManager does not ask it. A pool of threads is
-- apart from these.
-- Loggers print events through formatters, and Config fills its variables from YAML documents through
-- casts. Strings, shared pointers and the command line stand by themselves.
--
-- - Base: names of the libraries passed on, Boolean tests, lists measured by native numbers, texts as
--   lists of bytes.
-- - Timer, for src/Thread/Timer.cc: `Timer` and `Manager` are Timer and TimerManager, the set is the
--   list `timers` kept in the order of the comparator, and `add_timer`, `cancel`, `refresh`, `reset`,
--   `get_next_timer` and `list_expired_cb` are the methods of these names.
-- - Fiber, for src/Fiber/Fiber.cc: `resume`, `yield`, `call`, `back`, `swap_in`, `swap_out`, `reset`,
--   `main_func_end`. A context is the flow of control that it keeps.
-- - Scheduler, for src/Fiber/Scheduler.cc and include/Fiber/Scheduler.h: `schedule`,
--   `schedule_range`, the locked block of run as `take_task` with its search `scan`, `start`, `stop`;
--   in Scheduler/Worker the loop of run on one thread, `rounds`, over the fibers of Fiber: a callback is
--   user code, and the model is given what it schedules and whether it throws.
-- - IoManager, for src/io/IOManager.cc: `add_event`, `del_event`, `cancel_event`, `cancel_all`,
--   `context_resize`, and `handle_event` for the body of the loop over what epoll_wait reports; in
--   IoManager/History the runs of a manager, and in IoManager/Batch a round of idle; in
--   IoManager/Masks the numbers that events are in the code; in IoManager/Race the growth of the vector
--   by two threads.
-- - EventLoop: an IoManager and the loop of a Scheduler's thread together, for what goes from a report
--   of epoll to the callback.
-- - SharedPtr, for include/template/shared_ptr.hpp: the heap of wrappers, and `step` for every method
--   of the shared and the weak pointers.
-- - SString, for src/base/SString.cc: strings on blocks of bytes, with every copy checked against the
--   bounds of its block; in SString/Streams the stream operators.
-- - Channel, for src/net/Channel.cc and src/net/EpollPoller.cc: the interest of a channel, the callbacks
--   of `handle_event`, and `update_channel`.
-- - Env, for src/Configurator/Env.cc: `init`, the parser of the command line, and the help texts.
-- - Logger, for src/Logger/Logger.cc and include/Logger/Logger.h: in Logger/Pattern `init` is
--   LogFormatter::init with its loops `parse`, `scan_name` and `scan_format`; in Logger/Format the
--   levels and what each item prints; in Logger/Loggers the appenders, loggers and the manager, with
--   `log` for Logger::Log, and in Logger/Loggers/Macros the macros that make an event.
-- - Config, for include/Configurator/Configurator.h and src/Configurator/Configurator.cc: in
--   Config/Cast the casts of containers, in Config/Cast/Unordered those of hash tables, whose contents
--   are a quotient of lists, in Config/Appenders those of appenders and loggers, in
--   Config/Vars `ConfigVar` and `lookup`, in Config/Load `list_all_member` and `load_from_yaml`.
-- - Threads, for include/Thread/Mutex.h and src/Thread/ThreadPool.cc: in Threads/Lock the lock of a
--   scope, in Threads/Pool `add_task` and the rounds of the workers, and in Threads/Pool/Queue the
--   steps of a pool.
-- - Fs, for src/fs/fs.cc: the questions about files and `list_dir`, over what access, stat and readdir
--   answer.
--
-- Conventions. The clock, the addresses of new objects and the answers of epoll are arguments. A
-- method that holds a lock throughout is one step; where a method lets a lock go in between, its parts
-- are steps of their own. `none` (or `fault`) is undefined behaviour or a failed assertion. Times are
-- 64 bits wide and wrap where the code adds them; counters and sizes are unbounded except where a
-- module says otherwise. yaml-cpp is an interface, `Yaml`, and strftime and the casts of the basic types
-- are parameters. Fuel is used for the loops of SString and Scheduler that never end, where the theorems
-- hold for any fuel; for the parser of patterns, where the length of the pattern is enough; and for
-- `list_all_member`, where more than the depth of the document is enough.
--
-- Not modelled: the TCP classes, the wrappers of pthread, the colours of lines.
-- Of the parts above: fibers that are resumed by several threads, the stacks of fibers, the locks
-- of Env, SStringList, the destructor of the pool.
pub mod Base
pub mod Timer
pub mod Fiber
pub mod Scheduler
pub mod IoManager
pub mod SharedPtr
pub mod SString
pub mod Env
pub mod Channel
pub mod Logger
pub mod Config
pub mod Threads
pub mod Fs
pub mod EventLoop
