-- ===== src/Base/Lists.antt =====
-- Lists measured and indexed by native numbers, under the library's names, and two predicates on
-- lists by recursion.
use Prim.Native.Nat.{ℕ, zero, suc, ◌+◌, ◌-◌, ◌≤◌, min}
use mathlib.Core.Path.{◌≡◌, refl, ap}
use mathlib.Core.Logic.{◌⊎◌, ◌≢◌}
use mathlib.Core.Bool.{Bool, true, false}
use mathlib.Core.List.{List, [], ◌∷◌, ◌++◌}
use mathlib.Core.Option.{Option, none, some}
use native.Mathlib.Omega.{arith}
use siempre.Base.Tests.{if◌then◌else◌, ◌==◌}

module _ {ℓ} {A : Type ℓ} where
  abbrev pub length : List A → ℕ
  length [] = 0
  length (x ∷ xs) = suc (length xs)

  abbrev pub is_empty : List A → Bool
  is_empty [] = true
  is_empty (x ∷ xs) = false

  abbrev pub get_elem? : List A → ℕ → Option A
  get_elem? [] i = none
  get_elem? (x ∷ xs) zero = some x
  get_elem? (x ∷ xs) (suc i) = get_elem? xs i

  abbrev pub set : List A → ℕ → A → List A
  set [] i v = []
  set (x ∷ xs) zero v = v ∷ xs
  set (x ∷ xs) (suc i) v = x ∷ set xs i v

  abbrev pub take : ℕ → List A → List A
  take zero xs = []
  take (suc n) [] = []
  take (suc n) (x ∷ xs) = x ∷ take n xs

  abbrev pub drop : ℕ → List A → List A
  drop zero xs = xs
  drop (suc n) [] = []
  drop (suc n) (x ∷ xs) = drop n xs

  abbrev pub replicate : ℕ → A → List A
  replicate zero a = []
  replicate (suc n) a = a ∷ replicate n a

  -- The elements that pass a Boolean test, in order.
  abbrev pub keep : (A → Bool) → List A → List A
  keep p [] = []
  keep p (x ∷ xs) = if p x then x ∷ keep p xs else keep p xs

  abbrev pub All {κ} : (A → Type κ) → List A → Type κ
  All P [] = Unit
  All P (x ∷ xs) = P x × All P xs

  pub length-append : (xs ys : List A) → length (xs ++ ys) ≡ length xs + length ys
  length-append [] ys = omega arith
  length-append (x ∷ xs) ys = omega (arith, length-append xs ys)

  pub length-set : (xs : List A) (i : ℕ) (v : A) → length (set xs i v) ≡ length xs
  length-set [] i v = refl
  length-set (x ∷ xs) zero v = refl
  length-set (x ∷ xs) (suc i) v = ap suc (length-set xs i v)

  pub length-take : (n : ℕ) (xs : List A) → length (take n xs) ≡ min n (length xs)
  length-take zero xs = omega arith
  length-take (suc n) [] = omega arith
  length-take (suc n) (x ∷ xs) = omega (arith, length-take n xs)

  pub length-drop : (n : ℕ) (xs : List A) → length (drop n xs) ≡ length xs - n
  length-drop zero xs = omega arith
  length-drop (suc n) [] = omega arith
  length-drop (suc n) (x ∷ xs) = omega (arith, length-drop n xs)

  pub length-replicate : (n : ℕ) (a : A) → length (replicate n a) ≡ n
  length-replicate zero a = refl
  length-replicate (suc n) a = ap suc (length-replicate n a)

  pub All-append {κ} : (P : A → Type κ) (xs ys : List A) → All P xs → All P ys → All P (xs ++ ys)
  All-append P [] ys hx hy = hy
  All-append P (x ∷ xs) ys hx hy = (hx.0, All-append P xs ys hx.1 hy)

-- A number occurs in a list.
abbrev pub In : ℕ → List ℕ → Type 0
In a [] = ⊥
In a (x ∷ xs) = (x ≡ a) ⊎ In a xs

-- How often a number occurs in a list.
abbrev pub count : ℕ → List ℕ → ℕ
count a [] = 0
count a (x ∷ xs) = (if a == x then 1 else 0) + count a xs

-- The list without its element at an index.
abbrev pub remove {ℓ} : {A : Type ℓ} → List A → ℕ → List A
remove [] i = []
remove (x ∷ xs) zero = xs
remove (x ∷ xs) (suc i) = x ∷ remove xs i

pub count-remove :
    (a p : ℕ) (xs : List ℕ) (i : ℕ)
    → get_elem? xs i ≡ some p
    → count a xs ≡ count a (remove xs i) + (if a == p then 1 else 0)
count-remove a p [] i h = ground arith
count-remove a p (x ∷ xs) zero h = ground arith
count-remove a p (x ∷ xs) (suc i) h = omega (arith, count-remove a p xs i h)

pub count-set :
    (a p q : ℕ) (xs : List ℕ) (i : ℕ)
    → get_elem? xs i ≡ some p
    → count a (set xs i q) ≡ count a (remove xs i) + (if a == q then 1 else 0)
count-set a p q [] i h = ground arith
count-set a p q (x ∷ xs) zero h = ground arith
count-set a p q (x ∷ xs) (suc i) h = omega (arith, count-set a p q xs i h)

count_self : (p : ℕ) → (p == p) ≡ true
count_self p = ground arith

pub count_pos : (p : ℕ) (xs : List ℕ) (i : ℕ) → get_elem? xs i ≡ some p → 1 ≤ count p xs
count_pos p xs i h = ground (arith, count-remove p p xs i h, count_self p)

pub count-remove_other :
    (p q : ℕ) (xs : List ℕ) (i j : ℕ)
    → get_elem? xs i ≡ some p
    → get_elem? xs j ≡ some q
    → i ≢ j
    → 1 ≤ count q (remove xs i)
count-remove_other p q [] i j hi hj n = ground arith
count-remove_other p q (x ∷ xs) zero zero hi hj n = absurd (n refl)
count-remove_other p q (x ∷ xs) zero (suc j) hi hj n = count_pos q xs j hj
count-remove_other p q (x ∷ xs) (suc i) zero hi hj n = ground arith
count-remove_other p q (x ∷ xs) (suc i) (suc j) hi hj n =
    omega (arith, count-remove_other p q xs i j hi hj (λ e. n (ap suc e)))

get_elem?-set :
    (p : ℕ) (xs : List ℕ) (i j : ℕ) → get_elem? xs i ≡ some p → get_elem? (set xs j p) i ≡ some p
get_elem?-set p [] i j h = h
get_elem?-set p (x ∷ xs) zero zero h = refl
get_elem?-set p (x ∷ xs) (suc i) zero h = h
get_elem?-set p (x ∷ xs) zero (suc j) h = h
get_elem?-set p (x ∷ xs) (suc i) (suc j) h = get_elem?-set p xs i j h

-- Two elements change places.
pub count-exchange :
    (a p q : ℕ) (xs : List ℕ) (i j : ℕ)
    → get_elem? xs i ≡ some p
    → get_elem? xs j ≡ some q
    → count a (set (set xs j p) i q) ≡ count a xs
count-exchange a p q xs i j hi hj =
    let e = get_elem?-set p xs i j hi in
    omega (
      arith,
      count-set a p q (set xs j p) i e,
      count-remove a p (set xs j p) i e,
      count-set a q p xs j hj,
      count-remove a q xs j hj,
    )
