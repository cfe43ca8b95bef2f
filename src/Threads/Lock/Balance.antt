-- ===== src/Threads/Lock/Balance.antt =====
-- A lock of a scope takes and gives its mutex in turn.
use siempre.Base.{
  ◌≡◌, refl, Bool, true, false, List, [], ◌∷◌, ◌++◌, if◌then◌else◌, arith, Bool-cases, ◌∙◌, inl,
  inr,
}
use siempre.Threads.Lock.{
  Access, Request, takes, gives, ScopeLock, lock, unlock, new_lock, end_lock,
}

-- What the body of a scope may call.
pub data Use : Type 0 where
  locks : Use
  unlocks : Use

abbrev pub uses : Access → ScopeLock → List Use → ScopeLock
uses a s [] = s
uses a s (locks ∷ us) = uses a (lock a s) us
uses a s (unlocks ∷ us) = uses a (unlock s) us

-- Whether the mutex is held after the requests.
abbrev pub held : Bool → List Request → Bool
held b [] = b
held b (takes a ∷ rs) = held true rs
held b (gives ∷ rs) = held false rs

-- Every request is made in turn: the mutex is taken when it is free and given when it is held.
abbrev pub in_turn : Bool → List Request → Bool
in_turn b [] = true
in_turn b (takes a ∷ rs) = if b then false else in_turn true rs
in_turn b (gives ∷ rs) = if b then in_turn false rs else false

held-append : (b : Bool) (rs qs : List Request) → held b (rs ++ qs) ≡ held (held b rs) qs
held-append b [] qs = refl
held-append b (takes a ∷ rs) qs = held-append true rs qs
held-append b (gives ∷ rs) qs = held-append false rs qs

in_turn-append :
    (b : Bool) (rs qs : List Request)
    → in_turn b rs ≡ true
    → in_turn (held b rs) qs ≡ true
    → in_turn b (rs ++ qs) ≡ true
in_turn-append b [] qs h k = k
in_turn-append true (takes a ∷ rs) qs h k = ground arith
in_turn-append false (takes a ∷ rs) qs h k = in_turn-append true rs qs h k
in_turn-append true (gives ∷ rs) qs h k = in_turn-append false rs qs h k
in_turn-append false (gives ∷ rs) qs h k = ground arith

-- The flag says whether the mutex is held.
abbrev Agrees : ScopeLock → Type 0
Agrees s = (in_turn false s.requests ≡ true) × (held false s.requests ≡ s.is_locked)

asked :
    (s : ScopeLock) (r : Request)
    → Agrees s
    → in_turn s.is_locked (r ∷ []) ≡ true
    → in_turn false (s.requests ++ (r ∷ [])) ≡ true
asked s r h k = in_turn-append false s.requests (r ∷ []) h.0 (rw h.1 k)

lock-Agrees : (a : Access) (s : ScopeLock) → Agrees s → Agrees (lock a s)
unfolding lock
lock-Agrees a s h = elim (Bool-cases s.is_locked) [
  | inl e ↦ rw e (h.0, h.1 ∙ e)
  | inr e ↦ rw e (asked s (takes a) h (ground arith), held-append false s.requests (takes a ∷ []))
]

unlock-Agrees : (s : ScopeLock) → Agrees s → Agrees (unlock s)
unfolding unlock
unlock-Agrees s h = elim (Bool-cases s.is_locked) [
  | inl e ↦ rw e (asked s gives h (ground arith), held-append false s.requests (gives ∷ []))
  | inr e ↦ rw e (h.0, h.1 ∙ e)
]

uses-Agrees : (a : Access) (s : ScopeLock) (us : List Use) → Agrees s → Agrees (uses a s us)
uses-Agrees a s [] h = h
uses-Agrees a s (locks ∷ us) h = uses-Agrees a (lock a s) us (lock-Agrees a s h)
uses-Agrees a s (unlocks ∷ us) h = uses-Agrees a (unlock s) us (unlock-Agrees s h)

unlocked : (s : ScopeLock) → (unlock s).is_locked ≡ false
unfolding unlock
unlocked s = elim (Bool-cases s.is_locked) [ inl e ↦ rw e refl | inr e ↦ rw e refl ]

-- For each of the three kinds of lock. Where the flag is found cleared, a scope takes the mutex at its
-- start, asks for it only in turn whatever its body calls, and has given it back at its end. Where the
-- flag is found set, a scope that calls nothing gives back a mutex that it has not taken.
pub scope_balanced :
    (a : Access) (us : List Use)
    → ((new_lock a false).requests ≡ takes a ∷ [])
      × (in_turn false (end_lock (uses a (new_lock a false) us)).requests ≡ true)
      × (held false (end_lock (uses a (new_lock a false) us)).requests ≡ false)
      × ((end_lock (new_lock a true)).requests ≡ gives ∷ [])
unfolding new_lock end_lock lock unlock
scope_balanced a us =
    let h = uses-Agrees a (new_lock a false) us (refl, refl) in
    let k = unlock-Agrees (uses a (new_lock a false) us) h in
    (refl, k.0, k.1 ∙ unlocked (uses a (new_lock a false) us), refl)
