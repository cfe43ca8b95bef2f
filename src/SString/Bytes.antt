-- ===== src/SString/Bytes.antt =====
-- Blocks of bytes: what copying into and out of them gives, and which text a string holds.
use native.Mathlib.Nat.{pow-suc}
use siempre.Base.{
  leb→gt, ℕ, zero, suc, ◌+◌, ◌*◌, ◌^◌, ◌≡◌, ◌≤◌, ◌<◌, refl, List, [], ◌∷◌, ◌++◌, some, leb, arith,
  length, length-append, length-replicate, take, drop, Bool-cases, length-drop, ap, ◌∙◌, inl, inr,
  sym, append_assoc,
}
use siempre.SString.{
  Result, ok, SString, Pointer, own, outside, zeros, read_bytes, write_bytes, read_block, ceil_log2,
  calculate_capacity, next_log,
}

-- The string holds the text `t`: its block begins with it, is as long as the capacity says, and its
-- size is that of the text.
abbrev pub Holds : SString → List ℕ → Type 0
Holds s t =
    (rest : List ℕ) × (s.data_block ≡ some (t ++ rest))
    × (length (t ++ rest) ≡ s.cap)
    × (length t ≡ s.size)

-- The call returns a string that holds the text.
abbrev pub Gives : Result SString → List ℕ → Type 0
Gives r t = (s : SString) × (r ≡ ok s) × Holds s t

-- What a pointer and a length say, for a string that holds `t`: the string itself, or bytes
-- elsewhere.
abbrev pub Arg : List ℕ → Pointer → ℕ → List ℕ → Type 0
Arg t own n bs = (n ≡ length t) × (bs ≡ t)
Arg t (outside xs) n bs = (n ≤ length xs) × (bs ≡ take n xs)

succ_plus : (a b : ℕ) → suc a + b ≡ suc (a + b)
succ_plus a b = omega arith

module _ {ℓ} {A : Type ℓ} where
  pub take-append : (xs ys : List A) → take (length xs) (xs ++ ys) ≡ xs
  take-append [] ys = refl
  take-append (x ∷ xs) ys = ap (λ l. x ∷ l) (take-append xs ys)

  pub drop-append : (n : ℕ) (xs ys : List A) → drop (length xs + n) (xs ++ ys) ≡ drop n ys
  drop-append n [] ys = ap (λ m. drop m ys) (omega arith)
  drop-append n (x ∷ xs) ys =
      ap (λ m. drop m (x ∷ (xs ++ ys))) (succ_plus (length xs) n) ∙ drop-append n xs ys

  pub take-append_le : (n : ℕ) (xs ys : List A) → n ≤ length xs → take n (xs ++ ys) ≡ take n xs
  take-append_le zero xs ys h = refl
  take-append_le (suc n) [] ys h = ground arith
  take-append_le (suc n) (x ∷ xs) ys h = ap (λ l. x ∷ l) (take-append_le n xs ys (ground arith))

  pub drop-append_le :
      (n : ℕ) (xs ys : List A) → n ≤ length xs → drop n (xs ++ ys) ≡ drop n xs ++ ys
  drop-append_le zero xs ys h = refl
  drop-append_le (suc n) [] ys h = ground arith
  drop-append_le (suc n) (x ∷ xs) ys h = drop-append_le n xs ys (ground arith)

  pub take-all : (xs : List A) → take (length xs) xs ≡ xs
  take-all [] = refl
  take-all (x ∷ xs) = ap (λ l. x ∷ l) (take-all xs)

pub read_prefix :
    (n : ℕ) (t rest : List ℕ) → n ≤ length t → read_bytes (t ++ rest) 0 n ≡ ok (take n t)
unfolding read_bytes
read_prefix n t rest h = ground (arith, length-append t rest, take-append_le n t rest h)

pub write_at_end :
    (a rest bs : List ℕ)
    → length a + length bs ≤ length (a ++ rest)
    → write_bytes (a ++ rest) (length a) bs ≡ ok (a ++ (bs ++ drop (length bs) rest))
unfolding write_bytes
write_at_end a rest bs h = ground (arith, take-append a rest, drop-append (length bs) a rest)

pub length-written :
    (bs rest : List ℕ)
    → length bs ≤ length rest
    → length (bs ++ drop (length bs) rest) ≡ length rest
length-written bs rest h =
    omega (arith, length-append bs (drop (length bs) rest), length-drop (length bs) rest)

length-zeros : (n : ℕ) → length (zeros n) ≡ n
length-zeros n = length-replicate n 0

-- A text written into a new block.
pub write_new :
    (room : ℕ) (bs : List ℕ)
    → length bs ≤ room
    → write_bytes (zeros room) 0 bs ≡ ok (bs ++ drop (length bs) (zeros room))
write_new room bs h = write_at_end [] (zeros room) bs (omega (arith, length-zeros room))

abbrev pub new_string : ℕ → List ℕ → SString
new_string room bs = record {
  data_block = some (bs ++ drop (length bs) (zeros room));
  cap = room;
  size = length bs;
}

pub new_block-length :
    (room : ℕ) (bs : List ℕ)
    → length bs ≤ room
    → length (bs ++ drop (length bs) (zeros room)) ≡ room
new_block-length room bs h =
    length-written bs (zeros room) (omega (arith, length-zeros room)) ∙ length-zeros room

pub new_string-Holds : (room : ℕ) (bs : List ℕ) → length bs ≤ room → Holds (new_string room bs) bs
new_string-Holds room bs h = (
  drop (length bs) (zeros room),
  refl,
  length-written bs (zeros room) (omega (arith, length-zeros room)) ∙ length-zeros room,
  refl,
)

pub read_block_lem :
    (s : SString) (t : List ℕ) (n : ℕ)
    → Holds s t
    → n ≤ length t
    → read_block s.data_block n ≡ ok (take n t)
read_block_lem s t zero h l = refl
read_block_lem s t (suc n) (rest, e, c, z) l = rw e (read_prefix (suc n) t rest l)

pub read_size : (s : SString) (t : List ℕ) → Holds s t → read_block s.data_block s.size ≡ ok t
read_size s t (rest, e, c, z) =
    read_block_lem s t s.size (rest, e, c, z) (omega (arith, z)) ∙ ap ok (rw (sym z) (take-all t))

-- What stands in a block after bytes have been written behind a text.
abbrev pub behind : List ℕ → List ℕ → List ℕ → List ℕ
behind t bs rest = t ++ (bs ++ drop (length bs) rest)

pub write_behind :
    (t rest bs : List ℕ) (m : ℕ)
    → m ≡ length t
    → m + length bs ≤ length (t ++ rest)
    → write_bytes (t ++ rest) m bs ≡ ok (behind t bs rest)
write_behind t rest bs m e l = rw e (write_at_end t rest bs (omega (arith, l, e)))

pub behind-Holds :
    (r : SString) (t rest bs : List ℕ) (m : ℕ)
    → m ≡ length t
    → m + length bs ≤ length (t ++ rest)
    → r.data_block ≡ some (behind t bs rest)
    → r.cap ≡ length (t ++ rest)
    → r.size ≡ m + length bs
    → Holds r (t ++ bs)
behind-Holds r t rest bs m e l d c z = (
  drop (length bs) rest,
  d ∙ ap some (sym (append_assoc t bs (drop (length bs) rest))),
  omega (
    arith,
    e,
    l,
    c,
    length-append t rest,
    length-append (t ++ bs) (drop (length bs) rest),
    length-append t bs,
    length-drop (length bs) rest,
  ),
  omega (arith, e, z, length-append t bs),
)

two_pow_pos : (k : ℕ) → 1 ≤ 2 ^ k
two_pow_pos zero = ground arith
two_pow_pos (suc k) = omega (arith, pow-suc 2 k, two_pow_pos k)

next_log_bound : (n k : ℕ) → n ≤ 2 ^ k → suc n ≤ 2 ^ next_log (suc n) k
unfolding next_log
next_log_bound n k h = elim (Bool-cases (leb (suc n) (2 ^ k))) [
  | inl e ↦ ground arith
  | inr e ↦ rw e (omega (arith, pow-suc 2 k, two_pow_pos k, leb→gt (suc n) (2 ^ k) e, h))
]

next_log_least : (n k : ℕ) → 2 ^ k < 2 * n → n ≤ 2 ^ k → 2 ^ next_log (suc n) k < 2 * suc n
unfolding next_log
next_log_least n k h l = elim (Bool-cases (leb (suc n) (2 ^ k))) [
  | inl e ↦ ground arith
  | inr e ↦ rw e (omega (arith, pow-suc 2 k, leb→gt (suc n) (2 ^ k) e))
]

pub ceil_log2_bound : (n : ℕ) → n ≤ 2 ^ ceil_log2 n
unfolding ceil_log2
ceil_log2_bound zero = omega arith
ceil_log2_bound (suc n) = next_log_bound n (ceil_log2 n) (ceil_log2_bound n)

pub ceil_log2_least : (n : ℕ) → 1 ≤ n → 2 ^ ceil_log2 n < 2 * n
unfolding ceil_log2 next_log
ceil_log2_least zero h = ground arith
ceil_log2_least (suc zero) h = omega arith
ceil_log2_least (suc (suc n)) h =
    next_log_least (suc n) (ceil_log2 (suc n)) (ceil_log2_least (suc n) (omega arith))
      (ceil_log2_bound (suc n))

pub capacity_bound : (n : ℕ) → n ≤ calculate_capacity n
unfolding calculate_capacity
capacity_bound zero = omega arith
capacity_bound (suc n) = ceil_log2_bound (suc n)

-- The capacity for a size that is not 0 is a power of two that reaches the size and is less than
-- twice the size.
pub capacity_bounds :
    (n : ℕ)
    → 1 ≤ n
    → (k : ℕ) × (calculate_capacity n ≡ 2 ^ k)
      × (n ≤ calculate_capacity n)
      × (calculate_capacity n < 2 * n)
unfolding calculate_capacity
capacity_bounds zero h = ground arith
capacity_bounds (suc n) h =
    (ceil_log2 (suc n), refl, ceil_log2_bound (suc n), ceil_log2_least (suc n) h)
