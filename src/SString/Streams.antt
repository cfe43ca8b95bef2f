-- ===== src/SString/Streams.antt =====
-- The stream operators of src/base/SString.cc. A stream to read from is the list of its bytes. A char
-- is signed, so that the byte 255 equals EOF.
use siempre.Base.{
  ℕ, zero, suc, ◌+◌, ◌-◌, ◌≡◌, ◌≤◌, ◌<◌, refl, sym, ap, Bool, false, ◌||◌, List, [], ◌∷◌, ◌++◌, leb,
  ◌==◌, if◌then◌else◌, length, drop, All, arith, append-nil,
}
use siempre.SString.{
  Result, ok, fault, ◌>>=◌, SString, outside, zeros, block, append, from_string, empty_string,
  calculate_capacity,
}
use siempre.SString.Bytes.{Holds, new_string, write_new, take-all, capacity_bound}
use siempre.SString.Grow.{append_lem}

-- `os << m_data`: the bytes up to the first that is 0.
pub c_string : List ℕ → Result (List ℕ)
c_string [] = fault
c_string (zero ∷ bs) = ok []
c_string (suc b ∷ bs) = do rest ← c_string bs; ok (suc b ∷ rest)

pub print : SString → Result (List ℕ)
unfolding c_string
print s = do buf ← block s.data_block; c_string buf

abbrev pub stops : ℕ → Bool
stops b = b == 10 || (b == 0 || b == 255)

-- The loop of `operator>>`: what it puts into the string stream, and what is left to read.
pub get_line : List ℕ → List ℕ × List ℕ
get_line [] = ([], [])
get_line (b ∷ bs) = let (line, more) = get_line bs in if stops b then ([], bs) else (b ∷ line, more)

appended : Result SString → List ℕ → Result (SString × List ℕ)
appended r more = do s ← r; ok (s, more)

pub read_line : SString → List ℕ → Result (SString × List ℕ)
unfolding get_line appended
read_line s stream =
    let (line, more) = get_line stream in appended (append s (outside line) (length line)) more

abbrev pub IsLine : List ℕ → Type 0
IsLine t = All (λ b. stops b ≡ false) t

get_line-ended : (t more : List ℕ) → IsLine t → get_line (t ++ (10 ∷ more)) ≡ (t, more)
unfolding get_line
get_line-ended [] more h = refl
get_line-ended (b ∷ t) more h = rw (h.0, get_line-ended t more h.1) refl

c_string-ended : (t rest : List ℕ) → IsLine t → c_string (t ++ (0 ∷ rest)) ≡ ok t
unfolding c_string
c_string-ended [] rest h = refl
c_string-ended (zero ∷ t) rest h = absurd (ground (arith, h.0))
c_string-ended (suc b ∷ t) rest h = rw (c_string-ended t rest h.1) refl

c_string-open : (t : List ℕ) → IsLine t → c_string t ≡ fault
unfolding c_string
c_string-open [] h = refl
c_string-open (zero ∷ t) h = absurd (ground (arith, h.0))
c_string-open (suc b ∷ t) h = rw (c_string-open t h.1) refl

drop-zeros : (n m k : ℕ) → m ≡ n + k → drop n (zeros m) ≡ zeros k
drop-zeros zero m k e = let same_size : m ≡ k = omega arith in ap zeros same_size
drop-zeros (suc n) zero k e = absurd (omega arith)
drop-zeros (suc n) (suc m) k e = drop-zeros n m k (omega arith)

empty_string-Holds : Holds empty_string []
unfolding empty_string
empty_string-Holds = (zeros 128, refl, refl, refl)

-- `operator>>` into a string that holds `u` appends the bytes up to the first newline and takes that
-- newline from the stream.
pub read_line_lem :
    (s : SString) (u t more : List ℕ)
    → Holds s u
    → IsLine t
    → (s' : SString) × (read_line s (t ++ (10 ∷ more)) ≡ ok (s', more)) × Holds s' (u ++ t)
unfolding read_line appended
read_line_lem s u t more h l =
    let (s', e, k) =
      (append_lem s u (outside t) (length t) t h (omega arith, sym (take-all t))).1 t refl in
    (s', rw (get_line-ended t more l, e) refl, k)

-- The capacity that `SString(const std::string&)` allots.
abbrev pub room_of : List ℕ → ℕ
room_of t = if leb (calculate_capacity (length t)) 128 then 128 else calculate_capacity (length t)

-- A string made of a text without the bytes at which lines stop is printed as that text, and read
-- back, with a newline behind it, into an empty string; but only where the text is shorter than the
-- block: where it fills the block there is no 0 behind it, and the print reads on outside the block.
pub print-read :
    (t more : List ℕ)
    → IsLine t
    → (s : SString) × (from_string t ≡ ok s)
      × (length t < room_of t
          → (print s ≡ ok t)
            × (s' : SString) × (read_line empty_string (t ++ (10 ∷ more)) ≡ ok (s', more))
            × Holds s' t)
      × (length t ≡ room_of t → print s ≡ fault)
unfolding from_string print
print-read t more l =
    let room = room_of t in
    let fits : length t ≤ room = ground (arith, capacity_bound (length t)) in
    (
      new_string room t,
      rw (write_new room t fits) refl,
      (λ h.
          let left = room - length t - 1 in
          let rest : drop (length t) (zeros room) ≡ zeros (suc left) =
            drop-zeros (length t) room (suc left) (omega arith) in
          let r = read_line_lem empty_string [] t more empty_string-Holds l in
          (rw rest (c_string-ended t (zeros left) l), r.0, r.1, r.2)),
      λ h.
          let rest : drop (length t) (zeros room) ≡ [] =
            drop-zeros (length t) room 0 (omega arith) in
          rw (rest, append-nil t) (c_string-open t l),
    )
