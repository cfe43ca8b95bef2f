-- ===== src/IoManager.antt =====
-- The event side of the I/O scheduler: src/io/IOManager.cc and include/io/IOManager.h.
-- `contexts` is m_FdContexts with the objects that it points to, `epoll` the successful epoll_ctl calls,
-- the latest first, and `scheduled` what schedulers were asked to run, in order. Whether an epoll_ctl
-- call succeeds is the argument `ok`. A file descriptor is not negative. `none` is a failed
-- SIEM_ASSERT or an access outside `contexts`. The counter of pending events is a 64-bit word.
pub mod Context
pub mod Contexts
pub mod Keeps
pub mod Calls
pub mod Cancel
pub mod Triggers
pub mod Logged
pub mod Reported
pub mod CancelAll
pub mod Totals
pub mod Stale
pub mod Account
pub mod History
pub mod Masks
pub mod Batch
pub mod Race
mod Tests
use siempre.Base.{
  ℕ, zero, suc, ◌+◌, ◌-◌, ◌*◌, ◌/◌, ◌%◌, ◌^◌, ◌≡◌, Bool, true, false, not, ◌&&◌, ◌||◌, List, [],
  ◌∷◌, ◌++◌, Option, none, some, ltb, leb, ◌==◌, if◌then◌else◌, length, take, set, get_elem?,
}
use siempre.Scheduler.{Scheduler, is_stopping, has_idle_threads}
use Context.{
  Event, FdContext, Scheduled, no_event, read_event, write_event, meet, without, join, is_set,
  new_context, register, unregister, trigger_event,
}

-- EPOLL_CTL_ADD, EPOLL_CTL_MOD and EPOLL_CTL_DEL
pub data Op : Type 0 where
  add modify delete : Op

pub record Ctl : Type 0 where
  pub op : Op
  pub fd : ℕ
  pub events : Event

pub record Manager : Type 0 where
  pub contexts : List FdContext
  pub pending : ℕ
  pub epoll : List Ctl
  pub scheduled : List Scheduled

abbrev pub inc : ℕ → ℕ
inc n = (n + 1) % 2 ^ 64

abbrev pub dec : ℕ → ℕ
dec n = (n + 2 ^ 64 - 1) % 2 ^ 64

-- `contextResize`: a vector resize, then an object for each place that is null.
pub new_contexts : ℕ → ℕ → List FdContext
new_contexts fd zero = []
new_contexts fd (suc n) = new_context fd ∷ new_contexts (fd + 1) n

pub context_resize : List FdContext → ℕ → List FdContext
unfolding new_contexts
context_resize cs size = take size cs ++ new_contexts (length cs) (size - length cs)

-- `contextResize(fd * 1.5)`
pub grow : List FdContext → ℕ → List FdContext
unfolding context_resize
grow cs fd = context_resize cs (fd * 3 / 2)

-- The vector after the first lines of `addEvent`, the test and the growth, where no other thread
-- comes in between; IoManager/Race has them as two steps.
pub room_for : List FdContext → ℕ → List FdContext
unfolding grow
room_for cs fd = if ltb fd (length cs) then cs else grow cs fd

-- The bookkeeping behind a successful epoll_ctl call of `addEvent`.
added : Manager → ℕ → Ctl → Option FdContext → Option (Manager × Bool)
added m fd ctl none = none
added m fd ctl (some c) = some (
  record m { contexts = set m.contexts fd c; pending = inc m.pending; epoll = ctl ∷ m.epoll },
  true,
)

-- `addEvent` once it has found the context; the answer is true for the result 0, false for -1.
add_to :
    Manager
    → ℕ
    → Option FdContext
    → Event
    → Option ℕ
    → Option ℕ
    → ℕ
    → Bool
    → Bool
    → Option (Manager × Bool)
unfolding added
add_to m fd none e cb sched this_fiber this_exec ok = none
add_to m fd (some c) e cb sched this_fiber this_exec ok =
    if is_set (meet c.events e)
    then none
    else if ok
    then added m fd
        (record {
          op = if is_set c.events then modify else add;
          fd = c.fd;
          events = join c.events e;
        })
        (register c e cb sched this_fiber this_exec)
    else some (m, false)

pub add_event :
    Manager → ℕ → Event → Option ℕ → Option ℕ → ℕ → Bool → Bool → Option (Manager × Bool)
unfolding room_for add_to
add_event m fd e cb sched this_fiber this_exec ok =
    let cs = room_for m.contexts fd in
    add_to (record m { contexts = cs }) fd (get_elem? cs fd) e cb sched this_fiber this_exec ok

-- The epoll_ctl call that leaves `events` registered.
abbrev pub leaving : ℕ → Event → Ctl
leaving fd events = record {
  op = if is_set events then modify else delete;
  fd = fd;
  events = events;
}

deleted : Manager → ℕ → Option FdContext → Option (Manager × Bool)
deleted m fd none = none
deleted m fd (some c) =
    some (record m { contexts = set m.contexts fd c; pending = dec m.pending }, true)

del_from : Manager → ℕ → Option FdContext → Event → Bool → Option (Manager × Bool)
unfolding deleted
del_from m fd none e ok = some (m, false)
del_from m fd (some c) e ok =
    if is_set (meet c.events e)
    then if ok
      then deleted (record m { epoll = leaving fd (without c.events e) ∷ m.epoll }) fd
          (unregister c e)
      else some (m, false)
    else some (m, false)

-- A place outside the vector is refused first: `get_elem?` is none there.
pub del_event : Manager → ℕ → Event → Bool → Option (Manager × Bool)
unfolding del_from
del_event m fd e ok = del_from m fd (get_elem? m.contexts fd) e ok

fired : Manager → ℕ → Option (FdContext × Scheduled) → Option (Manager × FdContext)
fired m fd none = none
fired m fd (some (c, s)) = some (
  record m {
    contexts = set m.contexts fd c;
    scheduled = m.scheduled ++ (s ∷ []);
    pending = dec m.pending;
  },
  c,
)

-- `if (on) { triggerEvent(e); --m_pendingEventCount; }`
pub fire_if : Bool → Event → ℕ → Manager → FdContext → Option (Manager × FdContext)
unfolding fired
fire_if true e fd m c = fired m fd (trigger_event c e)
fire_if false e fd m c = some (m, c)

answer_true : Option (Manager × FdContext) → Option (Manager × Bool)
answer_true none = none
answer_true (some (m, c)) = some (m, true)

cancel_in : Manager → ℕ → Option FdContext → Event → Bool → Option (Manager × Bool)
unfolding fire_if answer_true
cancel_in m fd none e ok = some (m, false)
cancel_in m fd (some c) e ok =
    if is_set (meet c.events e)
    then if ok
      then answer_true
          (fire_if true e fd (record m { epoll = leaving fd (without c.events e) ∷ m.epoll }) c)
      else some (m, false)
    else some (m, false)

pub cancel_event : Manager → ℕ → Event → Bool → Option (Manager × Bool)
unfolding cancel_in
cancel_event m fd e ok = cancel_in m fd (get_elem? m.contexts fd) e ok

pub then_write : Bool → ℕ → Option (Manager × FdContext) → Option (Manager × FdContext)
then_write on fd none = none
then_write on fd (some (m, c)) = fire_if on write_event fd m c

-- The second test of `cancelAll` reads the events that the first trigger left.
then_write_registered : ℕ → Option (Manager × FdContext) → Option (Manager × FdContext)
then_write_registered fd none = none
then_write_registered fd (some (m, c)) = fire_if c.events.write write_event fd m c

-- SIEM_ASSERT(fd_ctx->m_events == 0)
all_gone : Option (Manager × FdContext) → Option (Manager × Bool)
all_gone none = none
all_gone (some (m, c)) = if is_set c.events then none else some (m, true)

cancel_all_in : Manager → ℕ → Option FdContext → Bool → Option (Manager × Bool)
unfolding fire_if then_write_registered all_gone
cancel_all_in m fd none ok = some (m, false)
cancel_all_in m fd (some c) ok =
    if is_set c.events
    then if ok
      then all_gone (
          then_write_registered fd (
            fire_if c.events.read read_event fd
              (record m { epoll = record { op = delete; fd = fd; events = no_event } ∷ m.epoll })
              c))
      else some (m, false)
    else some (m, false)

pub cancel_all : Manager → ℕ → Bool → Option (Manager × Bool)
unfolding cancel_all_in
cancel_all m fd ok = cancel_all_in m fd (get_elem? m.contexts fd) ok

-- What epoll_wait reports of a descriptor: EPOLLERR or EPOLLHUP, EPOLLIN, EPOLLOUT.
pub record Ready : Type 0 where
  pub broken : Bool
  pub input : Bool
  pub output : Bool

-- The events that have happened; an error or a hang-up counts for each registered direction.
abbrev pub real_events : Ready → Event → Event
real_events r registered = record {
  read = r.input || (r.broken && registered.read);
  write = r.output || (r.broken && registered.write);
}

left_after : Option (Manager × FdContext) → Option Manager
left_after none = none
left_after (some (m, c)) = some m

pub handle_in : Manager → ℕ → Option FdContext → Ready → Bool → Option Manager
unfolding fire_if then_write left_after
handle_in m fd none r ok = none
handle_in m fd (some c) r ok =
    if is_set (meet c.events real)
    then if ok
      then left_after (
          then_write real.write fd (
            fire_if real.read read_event fd
              (record m { epoll = leaving fd (without c.events real) ∷ m.epoll }) c))
      else some m
    else some m
  where
    real : Event
    real = real_events r c.events

-- The body of the loop over the reported events of `idle`, for a descriptor other than the pipe's.
pub handle_event : Manager → ℕ → Ready → Bool → Option Manager
unfolding handle_in
handle_event m fd r ok = handle_in m fd (get_elem? m.contexts fd) r ok

-- One entry of the array that epoll_wait fills: the pipe of `tickle`, which is drained, or a
-- descriptor, with the outcome of the epoll_ctl call that its handling makes.
pub data Occurrence : Type 0 where
  tickled : Occurrence
  ready : ℕ → Ready → Bool → Occurrence

handle : Manager → Occurrence → Option Manager
unfolding handle_event
handle m tickled = some m
handle m (ready fd r ok) = handle_event m fd r ok

-- The loop over the reported events.
pub handle_all : Option Manager → List Occurrence → Option Manager
unfolding handle
handle_all o [] = o
handle_all none (x ∷ xs) = none
handle_all (some m) (x ∷ xs) = handle_all (handle m x) xs

-- What epoll_wait returns with: an error that is EINTR, another error, or events.
pub data Wait : Type 0 where
  interrupted broken_off : Wait
  reported : List Occurrence → Wait

-- How a round of the loop of `idle` ends: it begins anew, leaves the loop, or yields and goes on.
pub data Turn : Type 0 where
  again : Turn
  ends : Turn
  yields : Manager → Turn

yield_after : Option Manager → Option Turn
yield_after none = none
yield_after (some m) = some (yields m)

-- `stopping()`, and whether `tickle()` writes to the pipe.
pub stopping : Manager → Scheduler → Bool
stopping m s = (m.pending == 0) && is_stopping s

pub tickles : Scheduler → Bool
tickles s = has_idle_threads s

-- A round of the loop of `idle`.
pub idle_round : Manager → Scheduler → Wait → Option Turn
unfolding yield_after
idle_round m s interrupted = some (if stopping m s then ends else again)
idle_round m s broken_off = some ends
idle_round m s (reported xs) =
    if stopping m s then some ends else yield_after (handle_all (some m) xs)
