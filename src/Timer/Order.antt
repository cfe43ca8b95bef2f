-- ===== src/Timer/Order.antt =====
-- The order of Timer::Comparator (src/Thread/Timer.cc) and the operations of std::set that the
-- timer manager uses, over the function that reads the deadline of the timer at an address.
use siempre.Base.{
  ℕ, ◌≡◌, ◌≢◌, ◌⊎◌, inl, inr, refl, Bool, true, false, not, List, [], ◌∷◌, Option, none, some,
  arith, ltb, if◌then◌else◌, All, In,
}

-- `comparator` compares smart pointers: a null pointer comes before every other one, then the
-- deadlines decide, then the addresses.
abbrev pub comparator : (ℕ → ℕ) → Option ℕ → Option ℕ → Bool
comparator next none none = false
comparator next none (some b) = true
comparator next (some a) none = false
comparator next (some a) (some b) =
    if ltb (next a) (next b) then true else if ltb (next b) (next a) then false else ltb a b

abbrev pub before : (ℕ → ℕ) → ℕ → ℕ → Bool
before next a b = comparator next (some a) (some b)

abbrev pub insert : (ℕ → ℕ) → ℕ → List ℕ → List ℕ
insert next a [] = a ∷ []
insert next a (x ∷ xs) =
    if before next a x then a ∷ x ∷ xs else if before next x a then x ∷ insert next a xs else x ∷ xs

-- Whether `find` returns an iterator other than `end()`.
abbrev pub find : (ℕ → ℕ) → ℕ → List ℕ → Bool
find next a [] = false
find next a (x ∷ xs) = if before next x a then find next a xs else not (before next a x)

abbrev pub erase : (ℕ → ℕ) → ℕ → List ℕ → List ℕ
erase next a [] = []
erase next a (x ∷ xs) =
    if before next x a then x ∷ erase next a xs else if before next a x then x ∷ xs else xs

abbrev pub IsSorted : (ℕ → ℕ) → List ℕ → Type 0
IsSorted next [] = Unit {0}
IsSorted next (x ∷ xs) = All (λ y. before next x y ≡ true) xs × IsSorted next xs

module _ (next : ℕ → ℕ) where
  pub before_trans :
      (a b c : ℕ) → before next a b ≡ true → before next b c ≡ true → before next a c ≡ true
  before_trans a b c h k = ground arith

  pub All-before_trans :
      (a b : ℕ) (xs : List ℕ)
      → before next a b ≡ true
      → All (λ y. before next b y ≡ true) xs
      → All (λ y. before next a y ≡ true) xs
  All-before_trans a b [] h k = tt
  All-before_trans a b (x ∷ xs) h k = (before_trans a b x h k.0, All-before_trans a b xs h k.1)

  All-insert :
      (a x : ℕ) (xs : List ℕ)
      → before next x a ≡ true
      → All (λ y. before next x y ≡ true) xs
      → All (λ y. before next x y ≡ true) (insert next a xs)
  All-insert a x [] h k = (h, tt)
  All-insert a x (y ∷ ys) h k = ground (arith, All-insert a x ys h k.1)

  pub insert-IsSorted : (a : ℕ) (xs : List ℕ) → IsSorted next xs → IsSorted next (insert next a xs)
  insert-IsSorted a [] s = (tt, tt)
  insert-IsSorted a (x ∷ xs) s =
      ground (arith, All-before_trans a x xs, All-insert a x xs, insert-IsSorted a xs s.1)

  All-erase :
      (a x : ℕ) (xs : List ℕ)
      → All (λ y. before next x y ≡ true) xs
      → All (λ y. before next x y ≡ true) (erase next a xs)
  All-erase a x [] k = tt
  All-erase a x (y ∷ ys) k = ground (arith, All-erase a x ys k.1)

  pub erase-IsSorted : (a : ℕ) (xs : List ℕ) → IsSorted next xs → IsSorted next (erase next a xs)
  erase-IsSorted a [] s = tt
  erase-IsSorted a (x ∷ xs) s = ground (arith, All-erase a x xs s.0, erase-IsSorted a xs s.1)

  before_irrefl : (a : ℕ) → before next a a ≡ false
  before_irrefl a = ground arith

  -- What a list holds after an insertion.
  pub In-insert_self : (a : ℕ) (xs : List ℕ) → In a (insert next a xs)
  In-insert_self a [] = inl refl
  In-insert_self a (x ∷ xs) = ground (arith, In-insert_self a xs)

  pub In-insert_other : (a b : ℕ) (xs : List ℕ) → In b xs → In b (insert next a xs)
  In-insert_other a b [] h = elim h [ ]
  In-insert_other a b (x ∷ xs) h = ground (arith, In-insert_other a b xs)

  pub insert-In : (a b : ℕ) (xs : List ℕ) → In b (insert next a xs) → (b ≡ a) ⊎ In b xs
  insert-In a b [] h = ground arith
  insert-In a b (x ∷ xs) h = ground (arith, insert-In a b xs)

  -- What it holds after an erasure.
  pub erase-In : (a b : ℕ) (xs : List ℕ) → In b (erase next a xs) → In b xs
  erase-In a b [] h = h
  erase-In a b (x ∷ xs) h = ground (arith, erase-In a b xs)

  pub In-erase : (a b : ℕ) (xs : List ℕ) → b ≢ a → In b xs → In b (erase next a xs)
  In-erase a b [] n h = h
  In-erase a b (x ∷ xs) n h = ground (arith, In-erase a b xs)

  pub All-In :
      (x b : ℕ) (xs : List ℕ)
      → All (λ y. before next x y ≡ true) xs
      → In b xs
      → before next x b ≡ true
  All-In x b [] k h = elim h [ ]
  All-In x b (y ∷ ys) k (inl e) = rw (← e) k.0
  All-In x b (y ∷ ys) k (inr h) = All-In x b ys k.1 h

  pub not-In-erase : (a : ℕ) (xs : List ℕ) → IsSorted next xs → ¬ In a (erase next a xs)
  not-In-erase a [] s h = h
  not-In-erase a (x ∷ xs) s h =
      ground (arith, not-In-erase a xs s.1, All-In x a xs s.0, before_irrefl a)

  pub find-In : (a : ℕ) (xs : List ℕ) → find next a xs ≡ true → In a xs
  find-In a [] h = cc
  find-In a (x ∷ xs) h = ground (arith, find-In a xs)

  pub In-find : (a : ℕ) (xs : List ℕ) → IsSorted next xs → In a xs → find next a xs ≡ true
  In-find a [] s h = elim h [ ]
  In-find a (x ∷ xs) s h = ground (arith, In-find a xs s.1, All-In x a xs s.0)
