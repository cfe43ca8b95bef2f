-- ===== src/IoManager/Context.antt =====
-- IOManager::FdContext of src/io/IOManager.cc and include/io/IOManager.h: what is registered for one
-- file descriptor. An Event is the pair of its bits READ (0x1) and WRITE (0x4). `none` is a failed
-- SIEM_ASSERT, which ends the process, or a call through a null scheduler.
pub mod Keeps
use siempre.Base.{
  ℕ, ◌+◌, ◌≡◌, Bool, true, false, not, ◌&&◌, ◌||◌, List, [], ◌∷◌, Option, none, some, if◌then◌else◌,
  is_some,
}
use siempre.Scheduler.{Source, by_fiber_ptr, by_cb_ptr}

pub record Event : Type 0 where
  pub read : Bool
  pub write : Bool

abbrev pub no_event : Event
no_event = record { read = false; write = false }

abbrev pub read_event : Event
read_event = record { read = true; write = false }

abbrev pub write_event : Event
write_event = record { read = false; write = true }

-- `a & b`, `a & ~b`, `a | b`, and the test of a mask
abbrev pub meet : Event → Event → Event
meet a b = record { read = a.read && b.read; write = a.write && b.write }

abbrev pub without : Event → Event → Event
without a b = record { read = a.read && not b.read; write = a.write && not b.write }

abbrev pub join : Event → Event → Event
join a b = record { read = a.read || b.read; write = a.write || b.write }

abbrev pub is_set : Event → Bool
is_set a = a.read || a.write

pub record EventContext : Type 0 where
  pub sc : Option ℕ
  pub fiber : Option ℕ
  pub cb : Option ℕ

abbrev pub blank : EventContext
blank = record { sc = none; fiber = none; cb = none }

pub record FdContext : Type 0 where
  pub fd : ℕ
  pub read : EventContext
  pub write : EventContext
  pub events : Event

abbrev pub new_context : ℕ → FdContext
new_context fd = record { fd = fd; read = blank; write = blank; events = no_event }

-- What a scheduler was asked to run.
abbrev pub Scheduled : Type 0
Scheduled = ℕ × Source

-- `getContext`: of READ or of WRITE alone.
pub get_context : FdContext → Event → Option EventContext
get_context c e =
    if e.read && not e.write
    then some c.read
    else if e.write && not e.read
    then some c.write
    else none

-- A write through the reference that `getContext` returns.
pub set_context : FdContext → Event → EventContext → FdContext
set_context c e x = if e.read then record c { read = x } else record c { write = x }

pub reset_context : EventContext → EventContext
reset_context x = record { sc = none; fiber = none; cb = none }

-- The scheduling at the end of `triggerEvent`: the scheduler empties the variable it is given.
fire : EventContext → Option (EventContext × Scheduled)
fire x = elim x.sc [
  | none ↦ none
  | some s ↦
      if is_some x.cb
      then some (record x { sc = none; cb = none }, (s, by_cb_ptr x.cb))
      else some (record x { sc = none; fiber = none }, (s, by_fiber_ptr x.fiber))
]

put_fired : FdContext → Event → Option (EventContext × Scheduled) → Option (FdContext × Scheduled)
unfolding set_context
put_fired c e none = none
put_fired c e (some (x, s)) = some (set_context c e x, s)

fire_in : FdContext → Event → Option EventContext → Option (FdContext × Scheduled)
unfolding fire put_fired
fire_in c e none = none
fire_in c e (some x) = put_fired c e (fire x)

pub trigger_event : FdContext → Event → Option (FdContext × Scheduled)
unfolding get_context fire_in
trigger_event c e =
    if is_set (meet c.events e)
    then fire_in (record c { events = without c.events e }) e (get_context c e)
    else none

-- The part of `addEvent` that fills the context, once epoll has taken the event. With no callback the
-- current fiber is registered; `this_exec` says whether its state is EXEC.
fill : FdContext → Event → Option EventContext → Option ℕ → Option ℕ → ℕ → Bool → Option FdContext
unfolding set_context
fill c e none cb sched this_fiber this_exec = none
fill c e (some x) cb sched this_fiber this_exec =
    if is_some x.sc || (is_some x.fiber || is_some x.cb)
    then none
    else if is_some cb
    then some (set_context c e (record { sc = sched; fiber = none; cb = cb }))
    else if this_exec
    then some (set_context c e (record { sc = sched; fiber = some this_fiber; cb = none }))
    else none

pub register : FdContext → Event → Option ℕ → Option ℕ → ℕ → Bool → Option FdContext
unfolding get_context fill
register c e cb sched this_fiber this_exec =
    fill (record c { events = join c.events e }) e (get_context c e) cb sched this_fiber this_exec

-- The part of `delEvent` that clears it, once epoll has dropped the event.
clear : FdContext → Event → Option EventContext → Option FdContext
unfolding set_context reset_context
clear c e none = none
clear c e (some x) = some (set_context c e (reset_context x))

pub unregister : FdContext → Event → Option FdContext
unfolding get_context clear
unregister c e = clear (record c { events = without c.events e }) e (get_context c e)

-- The context of the one direction in `e`.
abbrev pub context_at : FdContext → Event → EventContext
context_at c e = if e.read then c.read else c.write

-- What a registered context hands to its scheduler: its callback, or else its fiber.
abbrev pub work_of : EventContext → Source
work_of x = if is_some x.cb then by_cb_ptr x.cb else by_fiber_ptr x.fiber

-- A registered direction has a scheduler and either a callback or a fiber; any other has none of these.
abbrev pub Armed : Bool → EventContext → Type 0
Armed on x =
    (is_some x.sc ≡ on)
    × ((is_some x.cb || is_some x.fiber) ≡ on)
    × ((is_some x.cb && is_some x.fiber) ≡ false)

pub record IsConsistent (c : FdContext) : Type 0 where
  pub reading : Armed c.events.read c.read
  pub writing : Armed c.events.write c.write

-- The number of events registered.
abbrev pub count : Event → ℕ
count e = (if e.read then 1 else 0) + (if e.write then 1 else 0)

abbrev pub IsSingle : Event → Type 0
IsSingle e = (e.read && not e.write || e.write && not e.read) ≡ true
