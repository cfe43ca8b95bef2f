-- ===== src/SString/Split.antt =====
-- `SString::split(char)` of src/base/SString.cc: the positions of the separator are collected, and a
-- loop runs until they are used up. `none` is a loop that has not ended within the fuel.
use siempre.Base.{
  ℕ, zero, suc, ◌≡◌, refl, Bool, true, false, List, [], ◌∷◌, inl, inr, Option, none, some, arith,
  ◌==◌, if◌then◌else◌, In, Bool-cases,
}
use siempre.SString.{Result, ok, ◌>>=◌, SString, copied, read_block}
use siempre.SString.Bytes.{Holds, read_size}
use siempre.SString.Grow.{copied_lem}

pub indexes : List ℕ → ℕ → ℕ → List ℕ
indexes [] ch i = []
indexes (b ∷ bs) ch i = let rest = indexes bs ch (suc i) in if b == ch then i ∷ rest else rest

-- Neither branch of the body takes an index away, or changes `last_index`.
pub drain : ℕ → ℕ → List ℕ → Bool
drain fuel last [] = true
drain zero last (i ∷ is) = false
drain (suc fuel) last (i ∷ is) =
    let again = drain fuel last (i ∷ is) in if i == last then again else again

pub split : ℕ → SString → ℕ → Result (Option (List SString))
unfolding indexes drain
split fuel s ch = do
  text ← read_block s.data_block s.size
  strs ← first s (indexes text ch 0)
  ok (if drain fuel 0 (indexes text ch 0) then some strs else none)
  where
    first : SString → List ℕ → Result (List SString)
    first s [] = do c ← copied s; ok (c ∷ [])
    first s (i ∷ is) = ok []

drain_never : (fuel last i : ℕ) (is : List ℕ) → drain fuel last (i ∷ is) ≡ false
unfolding drain
drain_never zero last i is = refl
drain_never (suc fuel) last i is = ground (arith, drain_never fuel last i is)

indexes_some :
    (text : List ℕ) (ch i : ℕ) → In ch text → (j : ℕ) × (js : List ℕ) × (indexes text ch i ≡ j ∷ js)
unfolding indexes
indexes_some [] ch i h = elim h [ ]
indexes_some (b ∷ bs) ch i h = elim (Bool-cases (b == ch)) [
  | inl e ↦ (i, indexes bs ch (suc i), rw e refl)
  | inr e ↦
      (let later : In ch bs = elim h [ inl q ↦ absurd (ground arith) | inr m ↦ m ] in
        let x = indexes_some bs ch (suc i) later in (x.0, x.1, rw e x.2))
]

indexes_none : (text : List ℕ) (ch i : ℕ) → ¬ In ch text → indexes text ch i ≡ []
unfolding indexes
indexes_none [] ch i h = refl
indexes_none (b ∷ bs) ch i h =
    let e : (b == ch) ≡ false = elim (Bool-cases (b == ch)) [
      | inl q ↦ absurd (h (inl (ground arith)))
      | inr q ↦ q
    ] in
    rw e (indexes_none bs ch (suc i) (λ m. h (inr m)))

-- `split` never returns where the separator occurs; otherwise it gives the string itself.
pub split_lem :
    (s : SString) (t : List ℕ) (ch : ℕ)
    → Holds s t
    → (In ch t → (fuel : ℕ) → split fuel s ch ≡ ok none)
      × (¬ In ch t
          → (c : SString) × ((fuel : ℕ) → split fuel s ch ≡ ok (some (c ∷ []))) × Holds c t)
unfolding split drain
split_lem s t ch h = (
  λ i fuel.
      let x = indexes_some t ch 0 i in rw (read_size s t h, x.2, drain_never fuel 0 x.0 x.1) refl,
  λ n.
      let c = copied_lem s t h in
      (c.0, λ fuel. rw (read_size s t h, indexes_none t ch 0 n, c.1) refl, c.2),
)
