-- ===== src/Channel.antt =====
-- Channels and their registration: src/net/Channel.cc, include/net/Channel.h and
-- src/net/EpollPoller.cc. A mask is the record of its bits; a callback is a number. `update` of a
-- channel and of the poller have no body in the source: what `updateChannel` asks of the latter is given
-- back as the operation, and nothing goes to epoll.
mod Queries
mod Tests
use siempre.Base.{
  ℕ, Bool, true, false, not, ◌&&◌, ◌||◌, List, [], ◌∷◌, ◌++◌, Option, none, some, if◌then◌else◌,
}

pub record Mask : Type 0 where
  pub epollin : Bool
  pub epollpri : Bool
  pub epollout : Bool
  pub epollerr : Bool
  pub epollhup : Bool

pub data Index : Type 0 where
  new added deleted : Index

pub record Channel : Type 0 where
  pub fd : ℕ
  pub events : Mask
  pub rtevents : Mask
  pub index : Index
  pub tied : Bool
  pub read_cb : Option ℕ
  pub write_cb : Option ℕ
  pub close_cb : Option ℕ
  pub error_cb : Option ℕ

abbrev pub none_event : Mask
none_event = record {
  epollin = false;
  epollpri = false;
  epollout = false;
  epollerr = false;
  epollhup = false;
}

abbrev pub read_event : Mask
read_event = record none_event { epollin = true; epollpri = true }

abbrev pub write_event : Mask
write_event = record none_event { epollout = true }

abbrev pub combine : (Bool → Bool → Bool) → Mask → Mask → Mask
combine f a b = record {
  epollin = f a.epollin b.epollin;
  epollpri = f a.epollpri b.epollpri;
  epollout = f a.epollout b.epollout;
  epollerr = f a.epollerr b.epollerr;
  epollhup = f a.epollhup b.epollhup;
}

abbrev pub join : Mask → Mask → Mask
join a b = combine (λ x y. x || y) a b

abbrev pub meet : Mask → Mask → Mask
meet a b = combine (λ x y. x && y) a b

abbrev pub without : Mask → Mask → Mask
without a b = combine (λ x y. x && not y) a b

abbrev pub is_set : Mask → Bool
is_set m = m.epollin || m.epollpri || m.epollout || m.epollerr || m.epollhup

pub new_channel : ℕ → Channel
new_channel fd = record {
  fd = fd;
  events = none_event;
  rtevents = none_event;
  index = new;
  tied = false;
  read_cb = none;
  write_cb = none;
  close_cb = none;
  error_cb = none;
}

-- What changes the interest of a channel.
pub data Interest : Type 0 where
  enable_reading disable_reading enable_writing disable_writing disable_all : Interest

pub change : Channel → Interest → Channel
change c enable_reading = record c { events = join c.events read_event }
change c disable_reading = record c { events = without c.events read_event }
change c enable_writing = record c { events = join c.events write_event }
change c disable_writing = record c { events = without c.events write_event }
change c disable_all = record c { events = meet c.events none_event }

-- These two assign with `&=` where they test.
pub is_reading_event : Channel → Channel × Bool
is_reading_event c = let m = meet c.events read_event in (record c { events = m }, is_set m)

pub is_write_event : Channel → Channel × Bool
is_write_event c = let m = meet c.events write_event in (record c { events = m }, is_set m)

pub is_none_event : Channel → Bool
is_none_event c = not (is_set c.events)

abbrev pub call : Bool → Option ℕ → List ℕ
call true (some cb) = cb ∷ []
call true none = []
call false cb = []

-- The callbacks that are called, in order; `alive` is whether the tied object still exists.
pub handle_event : Channel → Bool → List ℕ
handle_event c alive =
    if c.tied && not alive
    then []
    else (call (r.epollhup && not r.epollin) c.close_cb
        ++ (call r.epollerr c.error_cb
            ++ (call (r.epollin || r.epollpri) c.read_cb ++ call r.epollout c.write_cb)))
  where
    r : Mask
    r = c.rtevents

pub data Operation : Type 0 where
  ctl_add ctl_mod ctl_del : Operation

-- The channel, whether the map of the poller has its descriptor, and the operation asked for.
pub update_channel : Channel → Bool → Channel × Bool × Operation
update_channel c in_map = go c.index
  where
    go : Index → Channel × Bool × Operation
    go new = (record c { index = added }, true, ctl_add)
    go deleted = (record c { index = added }, in_map, ctl_add)
    go added =
        if is_none_event c
        then (record c { index = deleted }, in_map, ctl_del)
        else (c, in_map, ctl_mod)
