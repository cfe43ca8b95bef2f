-- ===== src/SString/Grow.antt =====
-- Strings that are made, assigned, extended and resized.
use siempre.Base.{
  ℕ, zero, suc, ◌+◌, ◌≡◌, ◌≤◌, ◌<◌, inl, inr, refl, true, false, List, [], ◌∷◌, ◌++◌, some, ltb,
  leb, arith, if◌then◌else◌, length, length-append, length-replicate, take, drop, Bool-cases,
  length-take, ap, ◌∙◌, sym, subst, append-nil, ltb→ge, leb→le,
}
use siempre.SString.{
  ok, fault, SString, Pointer, own, outside, zeros, read_bytes, read_now, read_after,
  calculate_capacity, copied, from_string, assign, add_assign, clear, resize, append,
}
use siempre.SString.Bytes.{
  Holds, Gives, Arg, read_prefix, write_new, new_string, new_string-Holds, new_block-length,
  write_behind, read_block_lem, read_size, capacity_bound, take-all, behind, behind-Holds,
}

Arg-length : (t : List ℕ) (p : Pointer) (n : ℕ) (bs : List ℕ) → Arg t p n bs → length bs ≡ n
Arg-length t own n bs (e, d) = ap length d ∙ sym e
Arg-length t (outside xs) n bs (l, d) = ap length d ∙ (omega (arith, length-take n xs))

reads_now :
    (s : SString) (t : List ℕ) (p : Pointer) (n : ℕ) (bs : List ℕ)
    → Holds s t
    → Arg t p n bs
    → read_now s.data_block p n ≡ ok bs
unfolding read_bytes
reads_now s t own n bs h (e, d) =
    rw (e, d) (read_block_lem s t (length t) h (omega arith) ∙ ap ok (take-all t))
reads_now s t (outside xs) n bs h (l, d) =
    rw d (subst (λ y. read_bytes y 0 n ≡ ok (take n xs)) (append-nil xs) (read_prefix n xs [] l))

-- A text copied into a new block, and the size set.
renewed :
    (r : SString) (room : ℕ) (t : List ℕ)
    → length t ≤ room
    → r.data_block ≡ (new_string room t).data_block
    → r.cap ≡ room
    → r.size ≡ length t
    → Holds r t
renewed r room t l d c z = let h = new_string-Holds room t l in (h.0, d ∙ h.1, h.2 ∙ sym c, sym z)

length_le_cap : (s : SString) (t : List ℕ) → Holds s t → length t ≤ s.cap
length_le_cap s t (rest, e, c, z) = omega (arith, c, length-append t rest)

pub take_long : (n : ℕ) (t : List ℕ) → length t ≤ n → take n t ≡ t
take_long zero [] l = refl
take_long zero (x ∷ t) l = ground arith
take_long (suc n) [] l = refl
take_long (suc n) (x ∷ t) l = ap (λ u. x ∷ u) (take_long n t (omega (arith, l)))

take_clamped : (m n : ℕ) (t : List ℕ) → m ≡ length t → take (if leb m n then m else n) t ≡ take n t
take_clamped m n t e = elim (Bool-cases (leb m n)) [
  | inl d ↦
      rw d (take_long m t (omega (arith, e)) ∙ sym (take_long n t (omega (arith, e, leb→le m n d))))
  | inr d ↦ rw d refl
]

-- The copy of a string holds the same text, in a block of the same capacity.
pub copied_lem : (s : SString) (t : List ℕ) → Holds s t → Gives (copied s) t
unfolding copied
copied_lem s t h =
    let l : length t ≤ s.cap = length_le_cap s t h in
    let r : SString = record {
      data_block = some (t ++ drop (length t) (zeros s.cap));
      cap = s.cap;
      size = s.size;
    } in
    (r, rw (read_size s t h, write_new s.cap t l) refl, renewed r s.cap t l refl refl (sym h.3))

pub from_string_lem : (bs : List ℕ) → Gives (from_string bs) bs
unfolding from_string
from_string_lem bs =
    let new_size = calculate_capacity (length bs) in
    let room : ℕ = if leb new_size 128 then 128 else new_size in
    let l : length bs ≤ room = ground (arith, capacity_bound (length bs)) in
    (new_string room bs, rw (write_new room bs l) refl, new_string-Holds room bs l)

-- Assigning another string gives the text of that string, whether or not the block is renewed.
pub assign_lem : (s str : SString) (t u : List ℕ) → Holds s t → Holds str u → Gives (assign s str) u
unfolding assign
assign_lem s str t u (rest, e, c, z) h = elim (Bool-cases (leb str.size s.cap)) [
  | inl d ↦
      let l : length u ≤ length (t ++ rest) =
        (omega (arith, length_le_cap str u h, leb→le str.size s.cap d, c, h.3)) in
      (
        record s {
          data_block = some (u ++ drop (length u) (zeros (length (t ++ rest))));
          size = str.size;
        },
        rw (d, e, read_size str u h, write_new (length (t ++ rest)) u l) refl,
        renewed
            (record s {
              data_block = some (u ++ drop (length u) (zeros (length (t ++ rest))));
              size = str.size;
            })
            (length (t ++ rest)) u l refl (sym c) (sym h.3),
      )
  | inr d ↦
      let l : length u ≤ str.cap = length_le_cap str u h in
      (
        record {
          data_block = some (u ++ drop (length u) (zeros str.cap));
          cap = str.cap;
          size = str.size;
        },
        rw (d, read_size str u h, write_new str.cap u l) refl,
        renewed
            (record {
              data_block = some (u ++ drop (length u) (zeros str.cap));
              cap = str.cap;
              size = str.size;
            })
            str.cap u l refl refl (sym h.3),
      )
]

pub resize_lem :
    (s : SString) (t : List ℕ) (n : ℕ)
    → Holds s t
    → (s' : SString) × (resize s n ≡ ok s') × Holds s' (take n t) × (s'.cap ≡ n)
unfolding resize
resize_lem s t n h =
    let kept : ℕ = if leb s.size n then s.size else n in
    let k : take kept t ≡ take n t = take_clamped s.size n t (sym h.3) in
    let q : kept ≡ length (take n t) = ground (arith, length-take n t, h.3) in
    let l : length (take n t) ≤ n = omega (arith, length-take n t) in
    let r : SString = record {
      data_block = some (take n t ++ drop (length (take n t)) (zeros n));
      cap = n;
      size = kept;
    } in
    (
      r,
      rw (read_block_lem s t kept h (ground (arith, h.3)), k, write_new n (take n t) l) refl,
      renewed r n (take n t) l refl refl q,
      refl,
    )

pub clear_lem : (s : SString) (t : List ℕ) → Holds s t → Gives (clear s) []
unfolding clear
clear_lem s t (rest, e, c, z) = (
  record s { data_block = some (zeros (length (t ++ rest))); size = 0 },
  rw e refl,
  (zeros (length (t ++ rest)), refl, length-replicate (length (t ++ rest)) 0 ∙ c, refl),
)

-- `+=` gives the two texts behind one another, also for the string itself: what it appends is read
-- before the old block is deleted.
pub add_assign_lem :
    (s : SString) (t : List ℕ) (p : Pointer) (n : ℕ) (bs : List ℕ)
    → Holds s t
    → Arg t p n bs
    → Gives (add_assign s p n) (t ++ bs)
unfolding add_assign
add_assign_lem s t p n bs (rest, e, c, z) a =
    let h : Holds s t = (rest, e, c, z) in
    let m = Arg-length t p n bs a in
    elim (Bool-cases (ltb s.cap (calculate_capacity (n + s.size)))) [
      | inl d ↦
          let room = calculate_capacity (n + s.size) in
          let g : n + s.size ≤ room = capacity_bound (n + s.size) in
          let l : length t ≤ room = omega (arith, g, z) in
          let new = drop (length t) (zeros room) in
          let f : s.size + length bs ≤ length (t ++ new) =
            omega (arith, m, g, new_block-length room t l) in
          (
            record { data_block = some (behind t bs new); cap = room; size = n + s.size },
            rw
                (
                  d,
                  read_size s t h,
                  write_new room t l,
                  reads_now s t p n bs h a,
                  write_behind t new bs s.size (sym z) f,
                )
                refl,
            behind-Holds
                (record { data_block = some (behind t bs new); cap = room; size = n + s.size }) t
                new bs s.size (sym z) f refl (sym (new_block-length room t l)) (omega (arith, m)),
          )
      | inr d ↦
          let f : s.size + length bs ≤ length (t ++ rest) = omega (
            arith,
            m,
            c,
            capacity_bound (n + s.size),
            ltb→ge s.cap (calculate_capacity (n + s.size)) d,
          ) in
          (
            record s { data_block = some (behind t bs rest); size = n + s.size },
            rw (d, reads_now s t p n bs h a, e, write_behind t rest bs s.size (sym z) f) refl,
            behind-Holds (record s { data_block = some (behind t bs rest); size = n + s.size }) t
                rest bs s.size (sym z) f refl (sym c) (omega (arith, m)),
          )
    ]

reads_outside : (xs : List ℕ) (n : ℕ) → n ≤ length xs → read_after (outside xs) n ≡ ok (take n xs)
unfolding read_bytes
reads_outside xs n l =
    subst (λ y. read_bytes y 0 n ≡ ok (take n xs)) (append-nil xs) (read_prefix n xs [] l)

reads_deleted : (n : ℕ) → 1 ≤ n → read_after own n ≡ fault
reads_deleted zero l = ground arith
reads_deleted (suc n) l = refl

append_fits :
    (s : SString) (t : List ℕ) (p : Pointer) (n : ℕ) (bs : List ℕ)
    → Holds s t
    → Arg t p n bs
    → s.size + n ≤ s.cap
    → Gives (append s p n) (t ++ bs)
unfolding append
append_fits s t p n bs (rest, e, c, z) a l =
    let m = Arg-length t p n bs a in
    let d : ltb s.cap (s.size + n) ≡ false = ground arith in
    let f : s.size + length bs ≤ length (t ++ rest) = omega (arith, m, c, l) in
    let r : SString = record s { data_block = some (behind t bs rest); size = s.size + n } in
    (
      r,
      rw (d, reads_now s t p n bs (rest, e, c, z) a, e, write_behind t rest bs s.size (sym z) f)
          refl,
      behind-Holds r t rest bs s.size (sym z) f refl (sym c) (omega (arith, m)),
    )

append_grows :
    (s : SString) (t xs : List ℕ) (n : ℕ) (bs : List ℕ)
    → Holds s t
    → Arg t (outside xs) n bs
    → ltb s.cap (s.size + n) ≡ true
    → Gives (append s (outside xs) n) (t ++ bs)
unfolding append
append_grows s t xs n bs h a d =
    let m = Arg-length t (outside xs) n bs a in
    let room = calculate_capacity (s.size + n) in
    let g : s.size + n ≤ room = capacity_bound (s.size + n) in
    let k : take room t ≡ t = take_long room t (omega (arith, g, h.3)) in
    let w = resize_lem s t room h in
    let v : Holds w.0 t = subst (Holds w.0) k w.2 in
    let f : s.size + length bs ≤ length (t ++ v.0) = omega (arith, m, g, v.2, w.3) in
    let r : SString = record w.0 { data_block = some (behind t bs v.0); size = w.0.size + n } in
    (
      r,
      rw (d, w.1, reads_outside xs n a.0, v.1, sym a.1, write_behind t v.0 bs s.size (sym h.3) f)
          refl,
      behind-Holds r t v.0 bs s.size (sym h.3) f refl (sym v.2) (omega (arith, m, v.3, h.3)),
    )

append_deleted :
    (s : SString) (t : List ℕ) (n : ℕ)
    → Holds s t
    → 1 ≤ n
    → ltb s.cap (s.size + n) ≡ true
    → append s own n ≡ fault
unfolding append
append_deleted s t n h l d =
    rw (d, (resize_lem s t (calculate_capacity (s.size + n)) h).1, reads_deleted n l) refl

-- `append` gives the two texts behind one another if the bytes come from elsewhere, or if they fit.
-- Where a string is appended to itself and does not fit, the code reads the block that `resize` has
-- just deleted.
pub append_lem :
    (s : SString) (t : List ℕ) (p : Pointer) (n : ℕ) (bs : List ℕ)
    → Holds s t
    → Arg t p n bs
    → (s.size + n ≤ s.cap → Gives (append s p n) (t ++ bs))
      × ((xs : List ℕ) → p ≡ outside xs → Gives (append s p n) (t ++ bs))
      × (p ≡ own → 1 ≤ n → s.cap < s.size + n → append s p n ≡ fault)
append_lem s t p n bs h a = (
  λ l. append_fits s t p n bs h a l,
  λ xs e. elim (Bool-cases (ltb s.cap (s.size + n))) [
    | inl d ↦ rw e (append_grows s t xs n bs h (subst (λ q. Arg t q n bs) e a) d)
    | inr d ↦ append_fits s t p n bs h a (ltb→ge s.cap (s.size + n) d)
  ],
  λ e l c. rw e (append_deleted s t n h l (ground arith)),
)
