-- ===== src/Timer.antt =====
-- Timers and their manager: src/Thread/Timer.cc and include/Thread/Timer.h.
-- `objects` is the heap of Timer objects by address, `timers` the std::set in its iteration order.
-- The wall clock (GetCurrentMS) and the address of a new object are arguments. A method that takes
-- the write lock runs as one step. Times are 64-bit words.
pub mod Order
pub mod Keeps
pub mod Due
pub mod Rearm
pub mod Expired
pub mod Handles
pub mod History
mod Tests
use siempre.Base.{
  ℕ, suc, ◌+◌, ◌-◌, ◌*◌, ◌%◌, ◌^◌, ◌≡◌, Bool, true, false, not, ◌&&◌, List, [], ◌∷◌, ◌++◌, Option,
  none, some, arith, ltb, leb, ◌==◌, if◌then◌else◌, is_some, is_empty,
}
use Order.{before, insert, find, erase}

-- A callback is known by a number; `none` is an empty std::function.
pub record Timer : Type 0 where
  pub recurring : Bool
  pub ms : ℕ
  pub next : ℕ
  pub cb : Option ℕ

pub record Manager : Type 0 where
  pub objects : ℕ → Timer
  pub timers : List ℕ
  pub tickled : Bool
  pub previous : ℕ

abbrev pub u64 : ℕ → ℕ
u64 n = n % 2 ^ 64

-- `~0ull`
abbrev pub no_timeout : ℕ
no_timeout = 2 ^ 64 - 1

abbrev pub deadline : (ℕ → Timer) → ℕ → ℕ
deadline objects a = (objects a).next

abbrev pub put : (ℕ → Timer) → ℕ → Timer → ℕ → Timer
put objects a t b = if b == a then t else objects b

-- The constructor of a timer of the manager.
pub new_timer : ℕ → Option ℕ → Bool → ℕ → Timer
new_timer ms cb recurring now = record {
  recurring = recurring;
  ms = ms;
  next = u64 (now + ms);
  cb = cb;
}

is_front : ℕ → List ℕ → Bool
is_front a [] = false
is_front a (x ∷ xs) = x == a

-- The protected `addTimer`; the result says whether `onTimerInsertedAtFront` is called.
pub insert_timer : Manager → ℕ → Manager × Bool
unfolding is_front
insert_timer m a =
    let timers' = insert (deadline m.objects) a m.timers in
    let at_front = is_front a timers' && not m.tickled in
    (record m { timers = timers'; tickled = if at_front then true else m.tickled }, at_front)

pub add_timer : Manager → ℕ → ℕ → Option ℕ → Bool → ℕ → Manager × Bool
unfolding insert_timer new_timer
add_timer m addr ms cb recurring now =
    insert_timer (record m { objects = put m.objects addr (new_timer ms cb recurring now) }) addr

-- `OnTimer`: the bound callback runs only while the condition can still be locked.
pub on_timer : Bool → ℕ → List ℕ
on_timer alive cb = if alive then cb ∷ [] else []

-- `none` is undefined behaviour: an erasure at `end()`.
pub cancel : Manager → ℕ → Option (Manager × Bool)
cancel m a =
    if is_some t.cb
    then if find (deadline objects') a m.timers
      then some
          (record m { objects = objects'; timers = erase (deadline objects') a m.timers }, true)
      else none
    else some (m, false)
  where
    t : Timer
    t = m.objects a

    objects' : ℕ → Timer
    objects' = put m.objects a (record t { cb = none })

pub refresh : Manager → ℕ → ℕ → Manager × Bool
refresh m a now =
    if is_some t.cb
    then if find (deadline m.objects) a m.timers
      then (
        record m {
          objects = objects';
          timers = insert (deadline objects') a (erase (deadline m.objects) a m.timers);
        },
        true,
      )
      else (m, false)
    else (m, false)
  where
    t : Timer
    t = m.objects a

    objects' : ℕ → Timer
    objects' = put m.objects a (record t { next = u64 (now + t.ms) })

-- Where the new interval of a reset timer begins: now, or where the old one began.
pub reset_start : Timer → Bool → ℕ → ℕ
reset_start t from_now now = if from_now then now else u64 (t.next + 2 ^ 64 - t.ms)

-- The new state, the answer, and whether `onTimerInsertedAtFront` is called.
pub reset : Manager → ℕ → ℕ → Bool → ℕ → Manager × Bool × Bool
unfolding insert_timer reset_start
reset m a ms from_now now =
    if ms == t.ms && not from_now
    then (m, true, false)
    else if is_some t.cb
    then if find (deadline m.objects) a m.timers
      then ((insert_timer erased a).0, true, (insert_timer erased a).1)
      else (m, false, false)
    else (m, false, false)
  where
    t : Timer
    t = m.objects a

    erased : Manager
    erased = record m {
      objects =
          put m.objects a (record t { ms = ms; next = u64 (reset_start t from_now now + ms) });
      timers = erase (deadline m.objects) a m.timers;
    }

next_timeout : (ℕ → ℕ) → List ℕ → ℕ → ℕ
next_timeout next [] now = no_timeout
next_timeout next (x ∷ xs) now = if leb (next x) now then 0 else next x - now

pub get_next_timer : Manager → ℕ → Manager × ℕ
unfolding next_timeout
get_next_timer m now =
    (record m { tickled = false }, next_timeout (deadline m.objects) m.timers now)

pub has_timer : Manager → Bool
has_timer m = not (is_empty m.timers)

-- The clock went back by more than an hour; the subtraction is that of 64-bit words.
pub rolled_back : ℕ → ℕ → Bool
rolled_back now previous = ltb now previous && ltb now (u64 (previous + 2 ^ 64 - 60 * 60 * 1000))

pub detect_clock_rollover : Manager → ℕ → Manager × Bool
unfolding rolled_back
detect_clock_rollover m now = (record m { previous = now }, rolled_back now m.previous)

-- `while (it != end && (*it)->m_next == now_ms) ++it`
skip_equal : (ℕ → ℕ) → ℕ → List ℕ → List ℕ × List ℕ
skip_equal next now [] = ([], [])
skip_equal next now (x ∷ xs) =
    let rest = skip_equal next now xs in
    if next x == now then (x ∷ rest.0, rest.1) else ([], x ∷ xs)

-- `lower_bound` of a timer at address `probe` whose deadline is `now`, then `skip_equal`: what is
-- erased from the front of the set, and what stays.
pub split_due : (ℕ → ℕ) → ℕ → ℕ → List ℕ → List ℕ × List ℕ
unfolding skip_equal
split_due next now probe [] = ([], [])
split_due next now probe (x ∷ xs) =
    let rest = split_due next now probe xs in
    let stop = skip_equal next now (x ∷ xs) in
    if (if ltb (next x) now then true else if ltb now (next x) then false else ltb x probe)
    then (x ∷ rest.0, rest.1)
    else stop

-- The loop over the expired timers: it hands out each callback, and a recurring timer goes back.
pub rearm : ℕ → List ℕ → Manager → List (Option ℕ) → Manager × List (Option ℕ)
rearm now [] m cbs = (m, cbs)
rearm now (a ∷ later) m cbs =
    rearm now later (if t.recurring then again else once) (cbs ++ (t.cb ∷ []))
  where
    t : Timer
    t = m.objects a

    objects' : ℕ → Timer
    objects' = put m.objects a (record t { next = u64 (now + t.ms) })

    again : Manager
    again = record m { objects = objects'; timers = insert (deadline objects') a m.timers }

    once : Manager
    once = record m { objects = put m.objects a (record t { cb = none }) }

none_due : (ℕ → ℕ) → List ℕ → ℕ → Bool
none_due next [] now = true
none_due next (x ∷ xs) now = ltb now (next x)

pub expired_split : Manager → ℕ → ℕ → Bool → List ℕ × List ℕ
unfolding split_due
expired_split m now probe rollover =
    if rollover then (m.timers, []) else split_due (deadline m.objects) now probe m.timers

pub list_expired_cb : Manager → ℕ → ℕ → Manager × List (Option ℕ)
unfolding none_due rolled_back expired_split rearm
list_expired_cb m now probe =
    if is_empty m.timers
    then (m, [])
    else if not rollover && none_due (deadline m.objects) m.timers now
    then (m', [])
    else rearm now split.0 (record m' { timers = split.1 }) []
  where
    rollover : Bool
    rollover = rolled_back now m.previous

    m' : Manager
    m' = record m { previous = now }

    split : List ℕ × List ℕ
    split = expired_split m now probe rollover
