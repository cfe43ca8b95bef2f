-- ===== src/SString.antt =====
-- Strings: src/base/SString.cc.
-- A string has a block of bytes (`none` is the null pointer) with its capacity and size. `fault` is
-- undefined behaviour: an access outside a block, through the null pointer, or to a block that was
-- deleted. `throws` is std::invalid_argument. Sizes are below 2 ^ 64; the sums that the code compares
-- with a size the caller gave keep their wrap. The logarithm of `calculateCapacity` is exact, as the
-- one of the C library is for sizes up to 2 ^ 45.
mod Bytes
mod Grow
mod Edit
mod Insert
mod Refine
mod Split
mod Streams
mod Tests
use siempre.Base.{
  ℕ, zero, suc, ◌+◌, ◌-◌, ◌^◌, ◌%◌, Bool, true, false, List, [], ◌∷◌, ◌++◌, Option, none, some, ltb,
  leb, ◌==◌, if◌then◌else◌, length, take, drop, replicate, get_elem?, set,
}

pub data Result {ℓ} (A : Type ℓ) : Type ℓ where
  ok : A → Result A
  throws : Result A
  fault : Result A

infixl 5 ◌>>=◌
abbrev pub ◌>>=◌ {ℓ κ} : {A : Type ℓ} {B : Type κ} → Result A → (A → Result B) → Result B
ok a >>= f = f a
throws >>= f = throws
fault >>= f = fault

pub record SString : Type 0 where
  pub data_block : Option (List ℕ)
  pub cap : ℕ
  pub size : ℕ

-- A pointer to bytes: of this string's own block, or of a block elsewhere.
pub data Pointer : Type 0 where
  own : Pointer
  outside : List ℕ → Pointer

abbrev pub zeros : ℕ → List ℕ
zeros n = replicate n 0

-- The two sides of memcpy.
pub read_bytes : List ℕ → ℕ → ℕ → Result (List ℕ)
read_bytes buf pos n = if leb (pos + n) (length buf) then ok (take n (drop pos buf)) else fault

pub write_bytes : List ℕ → ℕ → List ℕ → Result (List ℕ)
write_bytes buf pos bs =
    if leb (pos + length bs) (length buf)
    then ok (take pos buf ++ (bs ++ drop (pos + length bs) buf))
    else fault

abbrev pub block : Option (List ℕ) → Result (List ℕ)
block none = fault
block (some buf) = ok buf

-- Copying no bytes from a null pointer is let pass.
abbrev pub read_block : Option (List ℕ) → ℕ → Result (List ℕ)
read_block d zero = ok []
read_block d (suc n) = do buf ← block d; read_bytes buf 0 (suc n)

pub next_log : ℕ → ℕ → ℕ
next_log n k = if leb n (2 ^ k) then k else suc k

-- The least exponent of 2 that reaches a number.
pub ceil_log2 : ℕ → ℕ
ceil_log2 zero = 0
ceil_log2 (suc n) = next_log (suc n) (ceil_log2 n)

-- `pow(2, ceil(log2(size)))` in doubles, which is exact for the sizes up to 2 ^ 45; larger ones are
-- not modelled. At 0 the logarithm is minus infinity, and the power is 0.
pub calculate_capacity : ℕ → ℕ
calculate_capacity zero = 0
calculate_capacity (suc n) = 2 ^ ceil_log2 (suc n)

pub empty_string : SString
empty_string = record { data_block = some (zeros 128); cap = 128; size = 0 }

pub copied : SString → Result SString
copied str = do
  bs ← read_block str.data_block str.size
  buf ← write_bytes (zeros str.cap) 0 bs
  ok (record { data_block = some buf; cap = str.cap; size = str.size })

pub from_string : List ℕ → Result SString
from_string str = do
  let new_size = calculate_capacity (length str)
  let cap = if leb new_size 128 then 128 else new_size
  buf ← write_bytes (zeros cap) 0 str
  ok (record { data_block = some buf; cap = cap; size = length str })

-- The new string, and what is left of the argument.
pub moved : SString → SString × SString
moved str = (str, record str { data_block = none })

-- Of another string: the test on equal data only finds the string itself.
pub assign : SString → SString → Result SString
assign s str =
    if leb str.size s.cap
    then (do
      old ← block s.data_block
      bs ← read_block str.data_block str.size
      buf ← write_bytes (zeros (length old)) 0 bs
      ok (record s { data_block = some buf; size = str.size }))
    else (do
      bs ← read_block str.data_block str.size
      buf ← write_bytes (zeros str.cap) 0 bs
      ok (record { data_block = some buf; cap = str.cap; size = str.size }))

pub move_assign : SString → SString → SString × SString
move_assign s str = (str, record str { data_block = none })

abbrev pub read_now : Option (List ℕ) → Pointer → ℕ → Result (List ℕ)
read_now d own n = read_block d n
read_now d (outside bs) n = read_bytes bs 0 n

-- After the block has been deleted.
abbrev pub read_after : Pointer → ℕ → Result (List ℕ)
read_after own zero = ok []
read_after own (suc n) = fault
read_after (outside bs) n = read_bytes bs 0 n

pub add_assign : SString → Pointer → ℕ → Result SString
add_assign s p n =
    let new_cap = calculate_capacity (n + s.size) in
    if ltb s.cap new_cap
    then (do
      mine ← read_block s.data_block s.size
      half ← write_bytes (zeros new_cap) 0 mine
      bs ← read_now s.data_block p n
      buf ← write_bytes half s.size bs
      ok (record { data_block = some buf; cap = new_cap; size = n + s.size }))
    else (do
      bs ← read_now s.data_block p n
      old ← block s.data_block
      buf ← write_bytes old s.size bs
      ok (record s { data_block = some buf; size = n + s.size }))

pub plus : SString → Pointer → ℕ → Result SString
plus s p n = do t ← copied s; add_assign t p n

-- `operator[]`; a negative position is converted to one far outside.
pub at : SString → ℕ → Result ℕ
at s pos =
    if leb s.size pos then throws else (do buf ← block s.data_block; byte (get_elem? buf pos))
  where
    byte : Option ℕ → Result ℕ
    byte none = fault
    byte (some b) = ok b

pub clear : SString → Result SString
clear s = do
  old ← block s.data_block
  ok (record s { data_block = some (zeros (length old)); size = 0 })

pub resize : SString → ℕ → Result SString
resize s n =
    let kept = if leb s.size n then s.size else n in
    (do
      bs ← read_block s.data_block kept
      buf ← write_bytes (zeros n) 0 bs
      ok (record { data_block = some buf; cap = n; size = kept }))

pub append : SString → Pointer → ℕ → Result SString
append s p n =
    if ltb s.cap (s.size + n)
    then (do
      s' ← resize s (calculate_capacity (s.size + n))
      bs ← read_after p n
      old ← block s'.data_block
      buf ← write_bytes old s.size bs
      ok (record s' { data_block = some buf; size = s'.size + n }))
    else (do
      bs ← read_now s.data_block p n
      old ← block s.data_block
      buf ← write_bytes old s.size bs
      ok (record s { data_block = some buf; size = s.size + n }))

pub substr : SString → ℕ → ℕ → Result SString
substr s pos n =
    if ltb s.size pos then throws else if ltb s.size ((pos + n) % 2 ^ 64) then throws else (do
      let temp_cap = calculate_capacity n
      t ← resize empty_string (if ltb temp_cap 128 then 128 else temp_cap)
      mine ← block s.data_block
      bs ← read_bytes mine pos n
      old ← block t.data_block
      buf ← write_bytes old 0 bs
      ok (record t { data_block = some buf; size = n }))

pub replace : SString → ℕ → List ℕ → Result SString
replace s pos str =
    let last = (pos + length str) % 2 ^ 64 in
    if ltb s.size last then throws else (do
      s' ← if ltb s.cap last then resize s (calculate_capacity last) else ok s
      old ← block s'.data_block
      buf ← write_bytes old pos str
      ok (record s' { data_block = some buf }))
