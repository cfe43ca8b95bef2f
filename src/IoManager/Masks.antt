-- ===== src/IoManager/Masks.antt =====
-- The masks that src/io/IOManager.cc computes with, as numbers of 32 bits: READ is 1 and WRITE 4, as
-- EPOLLIN and EPOLLOUT are. A report of epoll_wait is a word of the flags EPOLLIN, EPOLLPRI, EPOLLOUT,
-- EPOLLERR and EPOLLHUP, which are the bits 1, 2, 4, 8 and 16.
use Prim.Native.Nat.{bit_and, bit_or}
use siempre.Base.{
  ℕ, zero, suc, ◌+◌, ◌-◌, ◌^◌, ◌≡◌, ◌<◌, refl, Bool, true, false, not, ◌&&◌, if◌then◌else◌, ◌==◌,
  arith,
}
use siempre.IoManager.Context.{Event, meet, without, join, is_set}
use siempre.IoManager.{Ready, real_events}

abbrev pub mask : Event → ℕ
mask e = (if e.read then 1 else 0) + (if e.write then 4 else 0)

-- `a & ~b`
abbrev pub and_not : ℕ → ℕ → ℕ
and_not a b = bit_and a (2 ^ 32 - 1 - b)

abbrev pub has_flag : ℕ → ℕ → Bool
has_flag word flag = not (bit_and word flag == 0)

-- The word with both directions that are registered, on an error or a hang-up.
abbrev pub widened : ℕ → ℕ → ℕ
widened word registered = if has_flag word 24 then bit_or word (bit_and 5 registered) else word

-- `real_events` of `idle`
pub real_mask : ℕ → ℕ → ℕ
real_mask word registered =
    let word' = widened word registered in
    let read = if has_flag word' 1 then bit_or 0 1 else 0 in
    if has_flag word' 4 then bit_or read 4 else read

abbrev pub ready_of : ℕ → Ready
ready_of word = record {
  broken = has_flag word 24;
  input = has_flag word 1;
  output = has_flag word 4;
}

abbrev real : ℕ → Event → Event
real word ev = real_events (ready_of word) ev

agrees : Event → ℕ → Bool
unfolding real_mask
agrees ev word =
    let r = real_mask word (mask ev) in
    (r == mask (real word ev))
    && ((bit_and (mask ev) r == mask (meet ev (real word ev)))
        && (and_not (mask ev) r == mask (without ev (real word ev))))

all_below : (ℕ → Bool) → ℕ → Bool
all_below p zero = true
all_below p (suc n) = p n && all_below p n

all_below_lem : (p : ℕ → Bool) (n i : ℕ) → all_below p n ≡ true → i < n → p i ≡ true
unfolding all_below
all_below_lem p zero i h l = absurd (omega arith)
all_below_lem p (suc n) i h l = ground (arith, all_below_lem p n i)

agrees_all : (ev : Event) → all_below (agrees ev) 32 ≡ true
unfolding all_below agrees
agrees_all ev = go ev.read ev.write
  where
    go : (r w : Bool) → all_below (agrees (record { read = r; write = w })) 32 ≡ true
    go true true = refl
    go true false = refl
    go false true = refl
    go false false = refl

three_tests :
    (a b c d e f : ℕ) → ((a == b) && ((c == d) && (e == f))) ≡ true → (a ≡ b) × (c ≡ d) × (e ≡ f)
three_tests a b c d e f h = (ground arith, ground arith, ground arith)

-- A mask is 0 exactly where no event is set, and tells the events.
pub mask-is_set : (e : Event) → (mask e == 0) ≡ not (is_set e)
mask-is_set e = ground arith

-- For every word that epoll_wait reports and every set of registered events, the numbers that `idle`
-- computes are the masks of the events of the model: those that have happened, those of them that are
-- registered, and those left; and its two tests, whether any happened and whether any are left, agree.
pub idle_masks :
    (ev : Event) (word : ℕ)
    → word < 32
    → let happened = real_events (ready_of word) ev in
      let r = real_mask word (mask ev) in
      (r ≡ mask happened)
      × (bit_and (mask ev) r ≡ mask (meet ev happened))
      × (and_not (mask ev) r ≡ mask (without ev happened))
      × ((bit_and (mask ev) r == 0) ≡ not (is_set (meet ev happened)))
      × ((and_not (mask ev) r == 0) ≡ not (is_set (without ev happened)))
unfolding agrees
idle_masks ev word l =
    let all : agrees ev word ≡ true = all_below_lem (agrees ev) 32 word (agrees_all ev) l in
    let r = real_mask word (mask ev) in
    let (one, two, three) =
      three_tests r (mask (real word ev)) (bit_and (mask ev) r) (mask (meet ev (real word ev)))
        (and_not (mask ev) r) (mask (without ev (real word ev))) all in
    (
      one,
      two,
      three,
      rw two (mask-is_set (meet ev (real word ev))),
      rw three (mask-is_set (without ev (real word ev))),
    )

-- Likewise for the masks of addEvent, delEvent and cancelEvent.
pub call_masks :
    (a b : Event)
    → (bit_and (mask a) (mask b) ≡ mask (meet a b))
      × (bit_or (mask a) (mask b) ≡ mask (join a b))
      × (and_not (mask a) (mask b) ≡ mask (without a b))
call_masks a b = go a.read a.write b.read b.write
  where
    made : Bool → Bool → Event
    made r w = record { read = r; write = w }

    go :
        (r w s x : Bool)
        → (bit_and (mask (made r w)) (mask (made s x)) ≡ mask (meet (made r w) (made s x)))
          × (bit_or (mask (made r w)) (mask (made s x)) ≡ mask (join (made r w) (made s x)))
          × (and_not (mask (made r w)) (mask (made s x)) ≡ mask (without (made r w) (made s x)))
    go false false false false = (refl, refl, refl)
    go false false false true = (refl, refl, refl)
    go false false true false = (refl, refl, refl)
    go false false true true = (refl, refl, refl)
    go false true false false = (refl, refl, refl)
    go false true false true = (refl, refl, refl)
    go false true true false = (refl, refl, refl)
    go false true true true = (refl, refl, refl)
    go true false false false = (refl, refl, refl)
    go true false false true = (refl, refl, refl)
    go true false true false = (refl, refl, refl)
    go true false true true = (refl, refl, refl)
    go true true false false = (refl, refl, refl)
    go true true false true = (refl, refl, refl)
    go true true true false = (refl, refl, refl)
    go true true true true = (refl, refl, refl)
