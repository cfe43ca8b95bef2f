-- ===== src/SString/Edit.antt =====
-- Parts of a string read and replaced, and what is left of a moved one.
use siempre.Base.{
  ℕ, zero, suc, ◌+◌, ◌^◌, ◌%◌, ◌≡◌, ◌≤◌, ◌<◌, refl, false, List, [], ◌++◌, some, ltb, leb, arith,
  if◌then◌else◌, length, length-append, take, drop, length-take, length-drop, ap, ◌∙◌, sym, subst,
  append_assoc,
}
use siempre.SString.{
  ok, throws, fault, SString, Pointer, read_bytes, write_bytes, zeros, calculate_capacity, substr,
  replace, moved, assign, plus, empty_string,
}
use siempre.SString.Bytes.{
  Holds, Gives, Arg, drop-append, drop-append_le, take-append_le, write_at_end, capacity_bound,
  length-written,
}
use siempre.SString.Insert.{take-drop}
use siempre.SString.Grow.{resize_lem, copied_lem, add_assign_lem}

-- `+` gives a new string with the two texts; the old string is not touched.
pub plus_lem :
    (s : SString) (t : List ℕ) (p : Pointer) (n : ℕ) (bs : List ℕ)
    → Holds s t
    → Arg t p n bs
    → Gives (plus s p n) (t ++ bs)
unfolding plus
plus_lem s t p n bs h a =
    let c = copied_lem s t h in let r = add_assign_lem c.0 t p n bs c.2 a in (r.0, rw c.1 r.1, r.2)

read_middle :
    (t rest : List ℕ) (pos n : ℕ)
    → pos + n ≤ length t
    → read_bytes (t ++ rest) pos n ≡ ok (take n (drop pos t))
unfolding read_bytes
read_middle t rest pos n l = ground (
  arith,
  length-append t rest,
  drop-append_le pos t rest (omega (arith, l)),
  take-append_le n (drop pos t) rest (omega (arith, l, length-drop pos t)),
)

empty_Holds : Holds empty_string []
unfolding empty_string
empty_Holds = (zeros 128, refl, refl, refl)

take_none : (n : ℕ) → take {A = ℕ} n [] ≡ []
take_none zero = refl
take_none (suc n) = refl

small : (n : ℕ) → n < 2 ^ 64 → n % 2 ^ 64 ≡ n
small n l = omega arith

drop-drop : (n pos : ℕ) (t : List ℕ) → pos ≤ length t → drop n (drop pos t) ≡ drop (pos + n) t
drop-drop n pos t l =
    let ea : length (take pos t) ≡ pos = omega (arith, length-take pos t) in
    sym (drop-append n (take pos t) (drop pos t))
    ∙ ap (λ p. drop (p + n) (take pos t ++ drop pos t)) ea
    ∙ ap (drop (pos + n)) (take-drop pos t)

-- `substr` gives the bytes asked for if they are in the string; it throws if they are not, provided
-- that position and length do not wrap.
pub substr_lem :
    (s : SString) (t : List ℕ) (pos n : ℕ)
    → Holds s t
    → pos + n < 2 ^ 64
    → (pos + n ≤ length t → Gives (substr s pos n) (take n (drop pos t)))
      × (length t < pos + n → substr s pos n ≡ throws)
unfolding substr
substr_lem s t pos n (rest, e, c, z) w = (
  λ l.
      let out = take n (drop pos t) in
      let m : length out ≡ n = omega (arith, length-take n (drop pos t), length-drop pos t, l) in
      let room : ℕ = if ltb (calculate_capacity n) 128 then 128 else calculate_capacity n in
      let big : n ≤ room = ground (arith, capacity_bound n) in
      let g = resize_lem empty_string [] room empty_Holds in
      let v : Holds g.0 [] = subst (Holds g.0) (take_none room) g.2 in
      let f : length out ≤ length v.0 = omega (arith, m, big, v.2, g.3) in
      let d : ltb s.size ((pos + n) % 2 ^ 64) ≡ false =
        rw (small (pos + n) w) (ground (arith, z)) in
      let d' : ltb s.size pos ≡ false = ground (arith, z) in
      (
        record g.0 { data_block = some (out ++ drop (length out) v.0); size = n },
        rw (d', d, g.1, e)
            (rw (read_middle t rest pos n l, v.1)
              (rw (write_at_end [] v.0 out (omega (arith, f))) refl)),
        (drop (length out) v.0, refl, length-written out v.0 f ∙ v.2, m),
      ),
  λ l. ground (arith, z),
)

-- `replace` overwrites the bytes at the position if all of them are in the string; it throws if not,
-- provided that position and length do not wrap.
pub replace_lem :
    (s : SString) (t : List ℕ) (pos : ℕ) (str : List ℕ)
    → Holds s t
    → pos + length str < 2 ^ 64
    → (pos + length str ≤ length t
        → Gives (replace s pos str) (take pos t ++ (str ++ drop (pos + length str) t)))
      × (length t < pos + length str → replace s pos str ≡ throws)
unfolding replace
replace_lem s t pos str (rest, e, c, z) w = (
  λ l.
      let n = length str in
      let a = take pos t in
      let b = drop pos t in
      let ea : length a ≡ pos = omega (arith, length-take pos t, l) in
      let whole : t ++ rest ≡ a ++ (b ++ rest) =
        ap (λ u. u ++ rest) (sym (take-drop pos t)) ∙ append_assoc a b rest in
      let fit : length a + n ≤ length (a ++ (b ++ rest)) =
        omega
          (arith, length-append a (b ++ rest), length-append b rest, length-drop pos t, l, ea) in
      let later : drop n (b ++ rest) ≡ drop (pos + n) t ++ rest =
        drop-append_le n b rest (omega (arith, length-drop pos t, l))
        ∙ ap (λ u. u ++ rest) (drop-drop n pos t (omega (arith, l))) in
      let y : write_bytes (t ++ rest) pos str ≡ ok ((a ++ (str ++ drop (pos + n) t)) ++ rest) =
        ap (λ u. write_bytes u pos str) whole
        ∙ ap (λ p. write_bytes (a ++ (b ++ rest)) p str) (sym ea)
        ∙ write_at_end a (b ++ rest) str fit
        ∙ ap (λ u. ok (a ++ (str ++ u))) later
        ∙ ap (λ u. ok (a ++ u)) (sym (append_assoc str (drop (pos + n) t) rest))
        ∙ ap ok (sym (append_assoc a (str ++ drop (pos + n) t) rest)) in
      let d : ltb s.size ((pos + n) % 2 ^ 64) ≡ false =
        rw (small (pos + n) w) (ground (arith, z)) in
      let d' : ltb s.cap ((pos + n) % 2 ^ 64) ≡ false =
        rw (small (pos + n) w) (ground (arith, z, c, length-append t rest)) in
      let out : List ℕ = a ++ (str ++ drop (pos + n) t) in
      let q : length out ≡ length t = omega (
        arith,
        length-append a (str ++ drop (pos + n) t),
        length-append str (drop (pos + n) t),
        length-drop (pos + n) t,
        ea,
        l,
      ) in
      (
        record s { data_block = some (out ++ rest) },
        rw (d, d', e) (rw y refl),
        (
          rest,
          refl,
          omega (arith, q, c, length-append out rest, length-append t rest),
          omega (arith, q, z),
        ),
      ),
  λ l. ground (arith, z),
)

-- Where position and length wrap, the test of `replace` is passed and the bytes go outside the block.
pub replace_wraps :
    (s : SString) (t : List ℕ) (pos : ℕ) (str : List ℕ)
    → Holds s t
    → s.cap < 2 ^ 64
    → 2 ^ 64 ≤ pos + length str
    → (pos + length str) % 2 ^ 64 ≤ length t
    → replace s pos str ≡ fault
unfolding replace write_bytes
replace_wraps s t pos str (rest, e, c, z) b w l =
    let d : ltb s.size ((pos + length str) % 2 ^ 64) ≡ false = ground (arith, z) in
    let d' : ltb s.cap ((pos + length str) % 2 ^ 64) ≡ false =
      ground (arith, z, c, length-append t rest) in
    let f : leb (pos + length str) (length (t ++ rest)) ≡ false = ground (arith, c) in
    rw (d, d', e, f) refl

-- A string that was moved from keeps its capacity without a block: to assign it a text that fits
-- this capacity writes through the null pointer.
pub assign-moved :
    (s str : SString) (t u : List ℕ)
    → Holds s t
    → Holds str u
    → str.size ≤ s.cap
    → ((moved s).0 ≡ s) × (assign (moved s).1 str ≡ fault)
unfolding moved assign
assign-moved s str t u h g l = (refl, ground arith)
