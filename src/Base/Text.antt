-- ===== src/Base/Text.antt =====
-- Texts as the lists of their bytes, and numbers in decimal.
use Prim.Native.Nat.{ℕ, zero, suc, ◌+◌, ◌/◌, ◌%◌}
use Prim.Native.Char.{code}
use Prim.Native.String.{String}
use mathlib.Core.Path.{◌≡◌, refl, ap₂}
use mathlib.Core.Logic.{inl, inr}
use native.Mathlib.Omega.{arith}
use mathlib.Core.Bool.{Bool, true, false, ◌&&◌, ◌||◌}
use mathlib.Core.List.{List, [], ◌∷◌, ◌++◌}
use siempre.Base.Tests.{ltb, leb, Bool-cases, ◌==◌, if◌then◌else◌}

abbrev pub Bytes : Type 0
Bytes = List ℕ

abbrev pub codes : String → Bytes
codes String.[] = []
codes (String.◌∷◌ c s) = code c ∷ codes s

-- `==` on texts.
abbrev pub same : Bytes → Bytes → Bool
same [] [] = true
same [] (d ∷ w) = false
same (c ∷ v) [] = false
same (c ∷ v) (d ∷ w) = let rest = same v w in if c == d then rest else false

abbrev pub within : ℕ → ℕ → ℕ → Bool
within lo hi c = leb lo c && leb c hi

-- `isalpha` in the C locale.
abbrev pub is_alpha : ℕ → Bool
is_alpha c = within b'a' b'z' c || within b'A' b'Z' c

digits : ℕ → ℕ → Bytes
digits zero n = []
digits (suc fuel) n =
    let tens = digits fuel (n / 10) in
    if ltb n 10 then (48 + n) ∷ [] else tens ++ ((48 + n % 10) ∷ [])

-- A number as `operator<<` prints it.
pub decimal : ℕ → Bytes
unfolding digits
decimal n = digits (suc n) n

pub same_refl : (k : Bytes) → same k k ≡ true
same_refl [] = refl
same_refl (c ∷ k) = ground (arith, same_refl k)

pub same_eq : (v w : Bytes) → same v w ≡ true → v ≡ w
same_eq [] [] e = refl
same_eq [] (d ∷ w) e = ground arith
same_eq (c ∷ v) [] e = ground arith
same_eq (c ∷ v) (d ∷ w) e = elim (Bool-cases (c == d)) [
  | inl q ↦
      (let h : c ≡ d = ground arith in
        let t : same v w ≡ true = ground arith in ap₂ (λ x y. x ∷ y) h (same_eq v w t))
  | inr q ↦ absurd (ground arith)
]

pub same_sym : (v w : Bytes) → same v w ≡ same w v
same_sym [] [] = refl
same_sym [] (d ∷ w) = refl
same_sym (c ∷ v) [] = refl
same_sym (c ∷ v) (d ∷ w) = ground (arith, same_sym v w)
