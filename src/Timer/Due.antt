-- ===== src/Timer/Due.antt =====
-- Which timers `listExpiredCb` takes out of the set, and what becomes of them.
use siempre.Base.{
  ℕ, ◌≡◌, ◌≢◌, ◌<◌, ◌≤◌, inl, inr, refl, Bool, true, List, [], ◌∷◌, arith, All, In, keep, ltb, leb,
}
use siempre.Timer.Order.{before, IsSorted}
use siempre.Timer.{skip_equal, split_due}

module _ (next : ℕ → ℕ) (now : ℕ) where
  abbrev pub due : List ℕ → List ℕ
  due = keep (λ x. leb (next x) now)

  abbrev pub pending : List ℕ → List ℕ
  pending = keep (λ x. ltb now (next x))

  pub keep-none :
      (x : ℕ) (xs : List ℕ)
      → now < next x
      → All (λ y. before next x y ≡ true) xs
      → (due xs ≡ []) × (pending xs ≡ xs)
  keep-none x [] h k = (refl, refl)
  keep-none x (y ∷ ys) h k = ground (arith, keep-none x ys h k.1)

  skip_equal_lem :
      (xs : List ℕ)
      → IsSorted next xs
      → All (λ y. now ≤ next y) xs
      → skip_equal next now xs ≡ (due xs, pending xs)
  unfolding skip_equal
  skip_equal_lem [] s h = refl
  skip_equal_lem (x ∷ xs) s h = ground (arith, skip_equal_lem xs s.1 h.1, keep-none x xs)

  All-at_least :
      (x : ℕ) (xs : List ℕ)
      → now ≤ next x
      → All (λ y. before next x y ≡ true) xs
      → All (λ y. now ≤ next y) xs
  All-at_least x [] h k = tt
  All-at_least x (y ∷ ys) h k = ground (arith, All-at_least x ys h k.1)

  -- In a sorted set the split is by the deadlines alone, whatever address the probe has.
  pub split_due_lem :
      (probe : ℕ) (xs : List ℕ)
      → IsSorted next xs
      → split_due next now probe xs ≡ (due xs, pending xs)
  unfolding split_due
  split_due_lem probe [] s = refl
  split_due_lem probe (x ∷ xs) s = ground (
    arith,
    split_due_lem probe xs s.1,
    skip_equal_lem (x ∷ xs) s,
    All-at_least x xs,
    keep-none x xs,
  )

module _ (next : ℕ → ℕ) (p : ℕ → Bool) where
  All-keep : (P : ℕ → Type 0) (xs : List ℕ) → All P xs → All P (keep p xs)
  All-keep P [] k = tt
  All-keep P (y ∷ ys) k = ground (arith, All-keep P ys k.1)

  pub keep-IsSorted : (xs : List ℕ) → IsSorted next xs → IsSorted next (keep p xs)
  keep-IsSorted [] s = tt
  keep-IsSorted (x ∷ xs) s =
      ground (arith, All-keep (λ y. before next x y ≡ true) xs s.0, keep-IsSorted xs s.1)

  pub keep-In : (b : ℕ) (xs : List ℕ) → In b (keep p xs) → In b xs × (p b ≡ true)
  keep-In b [] h = elim h [ ]
  keep-In b (x ∷ xs) h = ground (arith, keep-In b xs)

  pub In-keep : (b : ℕ) (xs : List ℕ) → In b xs → p b ≡ true → In b (keep p xs)
  In-keep b [] h e = h
  In-keep b (x ∷ xs) (inl q) e = let px : p x ≡ true = rw q e in rw px (inl q)
  In-keep b (x ∷ xs) (inr q) e = ground (arith, In-keep b xs q e)

-- No address occurs twice.
abbrev pub Distinct : List ℕ → Type 0
Distinct [] = Unit {0}
Distinct (x ∷ xs) = All (λ y. y ≢ x) xs × Distinct xs

All-ne :
    (next : ℕ → ℕ) (x : ℕ) (xs : List ℕ)
    → All (λ y. before next x y ≡ true) xs
    → All (λ y. y ≢ x) xs
All-ne next x [] k = tt
All-ne next x (y ∷ ys) k = (λ e. ground arith, All-ne next x ys k.1)

pub sorted-Distinct : (next : ℕ → ℕ) (xs : List ℕ) → IsSorted next xs → Distinct xs
sorted-Distinct next [] s = tt
sorted-Distinct next (x ∷ xs) s = (All-ne next x xs s.0, sorted-Distinct next xs s.1)
