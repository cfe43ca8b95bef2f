-- ===== src/IoManager/Race.antt =====
-- The growth of the vector in addEvent, by two threads at once: each tests the size under the read
-- lock, lets the lock go, and then resizes under the write lock.
use siempre.Base.{
  ℕ, zero, suc, ◌+◌, ◌-◌, ◌*◌, ◌/◌, ◌≡◌, ◌≤◌, ◌<◌, Bool-cases, inl, inr, refl, List, [], ◌∷◌, none,
  length, get_elem?, set, ltb, if◌then◌else◌, some, false, subst, take, arith, length-take,
  length-append,
}
use siempre.IoManager.Context.{FdContext}
use siempre.IoManager.{context_resize, new_contexts, grow, room_for}

length-new_contexts : (fd n : ℕ) → length (new_contexts fd n) ≡ n
unfolding new_contexts
length-new_contexts fd zero = refl
length-new_contexts fd (suc n) = omega (arith, length-new_contexts (fd + 1) n)

-- `contextResize` leaves exactly `size` contexts, whether it grows the vector or cuts it.
pub length-context_resize :
    (cs : List FdContext) (size : ℕ) → length (context_resize cs size) ≡ size
unfolding context_resize
length-context_resize cs size = omega (
  arith,
  length-append (take size cs) (new_contexts (length cs) (size - length cs)),
  length-take size cs,
  length-new_contexts (length cs) (size - length cs),
)

get_elem?-none : (cs : List FdContext) (i : ℕ) → length cs ≤ i → get_elem? cs i ≡ none
get_elem?-none [] i h = refl
get_elem?-none (c ∷ cs) zero h = absurd (omega arith)
get_elem?-none (c ∷ cs) (suc i) h = get_elem?-none cs i (omega arith)

-- How far a call of `addEvent` has come: before its test under the read lock, past it with the vector
-- found too short, with its context found, and with its event registered there.
pub data Phase : Type 0 where
  testing growing holding registered : Phase

pub record Call : Type 0 where
  pub fd : ℕ
  pub phase : Phase

-- What a call does to the vector and its phase in one go: it lets its lock go behind the test.
pub advance : List FdContext → ℕ → Phase → List FdContext × Phase
unfolding grow
advance cs fd testing = (cs, if ltb fd (length cs) then holding else growing)
advance cs fd growing = (grow cs fd, holding)
advance cs fd holding = (cs, holding)
advance cs fd registered = (cs, registered)

-- Two threads in their calls of `addEvent`, for two descriptors.
pub record Adding : Type 0 where
  pub contexts : List FdContext
  pub first : Call
  pub second : Call

-- A thread that holds its context puts what it registers there.
pub data Step (w : Adding) : Adding → Type 0 where
  first_advances : Step w (record w {
    contexts = (advance w.contexts w.first.fd w.first.phase).0;
    first = record w.first { phase = (advance w.contexts w.first.fd w.first.phase).1 };
  })
  second_advances : Step w (record w {
    contexts = (advance w.contexts w.second.fd w.second.phase).0;
    second = record w.second { phase = (advance w.contexts w.second.fd w.second.phase).1 };
  })
  first_registers :
      (c : FdContext)
      → w.first.phase ≡ holding
      → Step w (record w {
        contexts = set w.contexts w.first.fd c;
        first = record w.first { phase = registered };
      })
  second_registers :
      (c : FdContext)
      → w.second.phase ≡ holding
      → Step w (record w {
        contexts = set w.contexts w.second.fd c;
        second = record w.second { phase = registered };
      })

pub data Reach (w : Adding) : Adding → Type 0 where
  here : Reach w w
  next : {u v : Adding} → Reach w u → Step u v → Reach w v

-- Without another thread in between, the two goes of a call are `room_for`.
advance_twice :
    (cs : List FdContext) (fd : ℕ)
    → let r = advance cs fd testing in (advance r.0 fd r.1).0 ≡ room_for cs fd
unfolding advance room_for
advance_twice cs fd = elim (Bool-cases (ltb fd (length cs))) [
  | inl e ↦ rw e refl
  | inr e ↦ rw e refl
]

get_elem?-set_in :
    (cs : List FdContext) (i : ℕ) (c : FdContext)
    → i < length cs
    → get_elem? (set cs i c) i ≡ some c
get_elem?-set_in [] i c h = absurd (omega arith)
get_elem?-set_in (x ∷ cs) zero c h = refl
get_elem?-set_in (x ∷ cs) (suc i) c h = get_elem?-set_in cs i c (omega arith)

abbrev pub both_testing : List FdContext → ℕ → ℕ → Adding
both_testing cs far near = record {
  contexts = cs;
  first = record { fd = far; phase = testing };
  second = record { fd = near; phase = testing };
}

length-grow : (cs : List FdContext) (fd : ℕ) → length (grow cs fd) ≡ fd * 3 / 2
unfolding grow
length-grow cs fd = length-context_resize cs (fd * 3 / 2)

-- Two threads call addEvent, for descriptors `far` and `near` that a vector of at least two places is
-- too short for, and one and a half times `near` is not above `far`. A run of their steps leads to a
-- state in which `far` has its place with what its thread registered there; and from that state one
-- more step of the other thread, which grows the vector, leads to one in which there is no such place.
pub resize_race :
    (cs : List FdContext) (far near : ℕ) (c : FdContext)
    → 2 ≤ length cs
    → length cs ≤ near
    → near * 3 / 2 ≤ far
    → (v : Adding) × (w : Adding) × Reach (both_testing cs far near) v
      × (get_elem? v.contexts far ≡ some c)
      × (v.first.phase ≡ registered)
      × Step v w
      × (get_elem? w.contexts far ≡ none)
unfolding advance
resize_race cs far near c two h k =
    let short : ltb far (length cs) ≡ false = ground arith in
    let short' : ltb near (length cs) ≡ false = ground arith in
    let grown = grow cs far in
    let tested : Adding = record {
      contexts = cs;
      first = record { fd = far; phase = growing };
      second = record { fd = near; phase = growing };
    } in
    let held : Adding = record tested {
      contexts = grown;
      first = record { fd = far; phase = holding };
    } in
    let testing_near : Adding = record tested { second = record { fd = near; phase = testing } } in
    let one : Step (both_testing cs far near) testing_near =
      subst
        (λ b. Step (both_testing cs far near) (record testing_near {
          first = record { fd = far; phase = if b then holding else growing };
        }))
        short first_advances in
    let two_ : Step testing_near tested =
      subst
        (λ b.
          Step testing_near (record tested {
            second = record { fd = near; phase = if b then holding else growing };
          }))
        short' second_advances in
    let v : Adding = record held {
      contexts = set grown far c;
      first = record { fd = far; phase = registered };
    } in
    let w : Adding = record v {
      contexts = grow (set grown far c) near;
      second = record { fd = near; phase = holding };
    } in
    (
      v,
      w,
      next (next (next (next here one) two_) first_advances) (first_registers c refl),
      get_elem?-set_in grown far c (omega (arith, length-grow cs far)),
      refl,
      second_advances,
      get_elem?-none (grow (set grown far c) near) far
          (omega (arith, length-grow (set grown far c) near)),
    )
