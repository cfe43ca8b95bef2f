-- ===== src/SString/Insert.antt =====
-- Insertion: `SString::insert` of src/base/SString.cc, for bytes of another block. Its `int` variables
-- are read as `size_t` wherever they are used; an offset that has wrapped is an index far out of the
-- block.
use siempre.Base.{
  ℕ, zero, suc, ◌+◌, ◌-◌, ◌%◌, ◌^◌, ◌≡◌, ◌≤◌, ◌<◌, refl, true, false, List, [], ◌∷◌, ◌++◌, inl, inr,
  Option, none, some, ltb, arith, if◌then◌else◌, length, length-append, take, drop, length-take,
  length-drop, Bool-cases, ap, ◌∙◌, sym, subst, get_elem?, set, length-set, ltb→ge, append_assoc,
}
use siempre.SString.{
  Result, ok, throws, fault, ◌>>=◌, SString, write_bytes, block, calculate_capacity, resize,
}
use siempre.SString.Bytes.{Holds, Gives, drop-append, write_at_end, capacity_bound, capacity_bounds}
use siempre.SString.Grow.{resize_lem, take_long}

abbrev pub put_byte : List ℕ → ℕ → Option ℕ → Result (List ℕ)
put_byte buf i none = fault
put_byte buf i (some b) = if ltb i (length buf) then ok (set buf i b) else fault

-- The loop that moves the last bytes to the right, from the end.
pub shift : List ℕ → ℕ → ℕ → ℕ → Result (List ℕ)
shift buf pos offset zero = ok buf
shift buf pos offset (suc k) = do
  buf' ← put_byte buf (pos + offset + k) (get_elem? buf (pos + k))
  shift buf' pos offset k

-- What is stored in an `int` and read as a `size_t`.
abbrev pub by_int : ℕ → ℕ
by_int n = if ltb (n % 2 ^ 32) (2 ^ 31) then n % 2 ^ 32 else n % 2 ^ 32 + (2 ^ 64 - 2 ^ 32)

pub insert : SString → ℕ → List ℕ → Result SString
unfolding shift
insert s pos str = if ltb s.size pos then throws else (do
  let new_size = by_int (s.size + length str)
  let new_cap = by_int (calculate_capacity new_size)
  s' ← if ltb s.cap new_cap then resize s new_cap else ok s
  old ← block s'.data_block
  moved ← shift old pos (by_int (length str)) (s'.size - pos)
  buf ← write_bytes moved pos str
  ok (record s' { data_block = some buf; size = new_size }))

module _ {ℓ} {A : Type ℓ} where
  last_of :
      (k : ℕ) (b : List A)
      → length b ≡ suc k
      → (b' : List A) × (x : A) × (b ≡ b' ++ (x ∷ [])) × (length b' ≡ k)
  last_of k [] e = ground arith
  last_of zero (x ∷ []) e = ([], x, refl, refl)
  last_of zero (x ∷ y ∷ b) e = ground arith
  last_of (suc k) (x ∷ []) e = ground arith
  last_of (suc k) (x ∷ y ∷ b) e =
      let l = last_of k (y ∷ b) (omega (arith, e)) in
      (x ∷ l.0, l.1, ap (λ u. x ∷ u) l.2, ap suc l.3)

  get_elem?-append :
      (xs : List A) (x : A) (c : List A) → get_elem? (xs ++ (x ∷ c)) (length xs) ≡ some x
  get_elem?-append [] x c = refl
  get_elem?-append (y ∷ xs) x c = get_elem?-append xs x c

  set_next :
      (x : A) (xs : List A) (a n : ℕ) (v : A) → set (x ∷ xs) (suc a + n) v ≡ x ∷ set xs (a + n) v
  set_next x xs a n v = let e : suc a + n ≡ suc (a + n) = omega arith in rw e refl

  set-append :
      (xs ys : List A) (n : ℕ) (v : A) → set (xs ++ ys) (length xs + n) v ≡ xs ++ set ys n v
  set-append [] ys n v = ap (λ i. set ys i v) (omega arith)
  set-append (x ∷ xs) ys n v =
      set_next x (xs ++ ys) (length xs) n v ∙ ap (λ u. x ∷ u) (set-append xs ys n v)

  drop-set :
      (ys : List A) (n : ℕ) (v : A) → n < length ys → drop n (set ys n v) ≡ v ∷ drop (suc n) ys
  drop-set [] n v l = ground arith
  drop-set (y ∷ ys) zero v l = refl
  drop-set (y ∷ ys) (suc n) v l = drop-set ys n v (omega (arith, l))

move_byte :
    (xs c : List ℕ) (x n j i : ℕ)
    → j ≡ length xs
    → i ≡ length xs + n
    → n ≤ length c
    → put_byte (xs ++ (x ∷ c)) i (get_elem? (xs ++ (x ∷ c)) j) ≡ ok (xs ++ set (x ∷ c) n x)
move_byte xs c x n j i ej ei l =
    let q : ltb (length xs + n) (length (xs ++ (x ∷ c))) ≡ true =
      ground (arith, length-append xs (x ∷ c)) in
    rw (ej, ei, get_elem?-append xs x c, q, set-append xs (x ∷ c) n x) refl

pub take-drop : (n : ℕ) (xs : List ℕ) → take n xs ++ drop n xs ≡ xs
take-drop zero xs = refl
take-drop (suc n) [] = refl
take-drop (suc n) (x ∷ xs) = ap (λ u. x ∷ u) (take-drop n xs)

-- The loop moves the bytes `b` by `n` places into `c`; what is between is left to be overwritten.
shift_lem :
    (k : ℕ) (a b c : List ℕ) (n : ℕ)
    → length b ≡ k
    → n ≤ length c
    → (mid : List ℕ) × (length mid ≡ n)
      × (shift (a ++ (b ++ c)) (length a) n k ≡ ok (a ++ (mid ++ (b ++ drop n c))))
unfolding shift
shift_lem zero a [] c n e l =
    (take n c, omega (arith, length-take n c), ap (λ u. ok (a ++ u)) (sym (take-drop n c)))
shift_lem zero a (x ∷ b) c n e l = ground arith
shift_lem (suc k) a b c n e l =
    let f = last_of k b e in
    let b' = f.0 in
    let x = f.1 in
    let c' : List ℕ = set (x ∷ c) n x in
    let r = shift_lem k a b' c' n f.3 (omega (arith, l, length-set (x ∷ c) n x)) in
    let xs : List ℕ = a ++ b' in
    let m : length xs ≡ length a + k = omega (arith, length-append a b', f.3) in
    let whole : a ++ (b ++ c) ≡ xs ++ (x ∷ c) =
      rw f.2 (ap (λ u. a ++ u) (append_assoc b' (x ∷ []) c) ∙ sym (append_assoc a b' (x ∷ c))) in
    let moved : drop n c' ≡ x ∷ drop n c = drop-set (x ∷ c) n x (omega (arith, l)) in
    let back : b' ++ (x ∷ drop n c) ≡ b ++ drop n c =
      rw f.2 (sym (append_assoc b' (x ∷ []) (drop n c))) in
    let put = move_byte xs c x n (length a + k) (length a + n + k) (sym m) (omega (arith, m)) l in
    (
      r.0,
      r.1,
      rw (whole, put)
          (ap (λ u. shift u (length a) n k) (append_assoc a b' c')
            ∙ r.2
            ∙ ap (λ u. ok (a ++ (r.0 ++ u))) (ap (λ u. b' ++ u) moved ∙ back)),
    )

roomy :
    (s : SString) (t : List ℕ) (n : ℕ)
    → Holds s t
    → s.size ≤ n
    → (s' : SString) × ((if ltb s.cap (calculate_capacity n)
          then resize s (calculate_capacity n)
          else ok s)
        ≡ ok s')
      × Holds s' t
      × (n ≤ s'.cap)
roomy s t n h l = elim (Bool-cases (ltb s.cap (calculate_capacity n))) [
  | inl d ↦
      let w = resize_lem s t (calculate_capacity n) h in
      let k : take (calculate_capacity n) t ≡ t =
        take_long (calculate_capacity n) t (omega (arith, l, h.3, capacity_bound n)) in
      (w.0, rw d w.1, subst (Holds w.0) k w.2, omega (arith, w.3, capacity_bound n))
  | inr d ↦
      (s, rw d refl, h, omega (arith, capacity_bound n, ltb→ge s.cap (calculate_capacity n) d))
]

drop_exact : (n : ℕ) (mid xs : List ℕ) → length mid ≡ n → drop n (mid ++ xs) ≡ xs
drop_exact n mid xs e = let q : n ≡ length mid + 0 = omega (arith, e) in rw q (drop-append 0 mid xs)

-- The whole edit of a block that is long enough.
edit :
    (t rest str : List ℕ) (pos k : ℕ)
    → pos ≤ length t
    → k ≡ length t - pos
    → length str ≤ length rest
    → (shift (t ++ rest) pos (length str) k >>= λ moved. write_bytes moved pos str)
      ≡ ok ((take pos t ++ (str ++ drop pos t)) ++ drop (length str) rest)
edit t rest str pos k l e c =
    let a = take pos t in
    let b = drop pos t in
    let ea : length a ≡ pos = omega (arith, length-take pos t, l) in
    let eb : length b ≡ k = omega (arith, length-drop pos t, e) in
    let s = shift_lem k a b rest (length str) eb c in
    let tail : List ℕ = b ++ drop (length str) rest in
    let split : t ++ rest ≡ a ++ (b ++ rest) =
      ap (λ u. u ++ rest) (sym (take-drop pos t)) ∙ append_assoc a b rest in
    let fit : length a + length str ≤ length (a ++ (s.0 ++ tail)) =
      omega (arith, length-append a (s.0 ++ tail), length-append s.0 tail, s.1) in
    let w = write_at_end a (s.0 ++ tail) str fit in
    let out : a ++ (str ++ tail) ≡ (a ++ (str ++ b)) ++ drop (length str) rest =
      ap (λ u. a ++ u) (sym (append_assoc str b (drop (length str) rest)))
      ∙ sym (append_assoc a (str ++ b) (drop (length str) rest)) in
    let x : shift (t ++ rest) pos (length str) k ≡ ok (a ++ (s.0 ++ tail)) =
      ap (λ u. shift u pos (length str) k) split
      ∙ ap (λ p. shift (a ++ (b ++ rest)) p (length str) k) (sym ea)
      ∙ s.2 in
    let y : write_bytes (a ++ (s.0 ++ tail)) pos str
        ≡ ok ((a ++ (str ++ b)) ++ drop (length str) rest) =
      ap (λ p. write_bytes (a ++ (s.0 ++ tail)) p str) (sym ea)
      ∙ w
      ∙ ap (λ u. ok (a ++ (str ++ u))) (drop_exact (length str) s.0 tail s.1)
      ∙ ap ok out in
    rw x y

bind_assoc :
    {A B C : Type 0} (m : Result A) (f : A → Result B) (g : B → Result C)
    → ((m >>= f) >>= g) ≡ (m >>= λ x. f x >>= g)
bind_assoc (ok a) f g = refl
bind_assoc throws f g = refl
bind_assoc fault f g = refl

by_int-small : (n : ℕ) → n < 2 ^ 31 → by_int n ≡ n
by_int-small n h =
    let e : n % 2 ^ 32 ≡ n = omega arith in
    let l : ltb n (2 ^ 31) ≡ true = ground arith in rw (e, l) refl

capacity_small : (n : ℕ) → n ≤ 2 ^ 30 → calculate_capacity n < 2 ^ 31
capacity_small zero h = unfold calculate_capacity in omega arith
capacity_small (suc n) h = omega (arith, (capacity_bounds (suc n) (omega arith)).3)

-- `insert` gives the text with the bytes put in at the position, whether or not the block has to
-- grow, where that is not longer than 2 ^ 30 bytes; a position behind the end throws.
pub insert_lem :
    (s : SString) (t : List ℕ) (pos : ℕ) (str : List ℕ)
    → Holds s t
    → (length t + length str ≤ 2 ^ 30
        → pos ≤ length t
        → Gives (insert s pos str) (take pos t ++ (str ++ drop pos t)))
      × (length t < pos → insert s pos str ≡ throws)
unfolding insert
insert_lem s t pos str h = (
  λ fit l.
      let g = roomy s t (s.size + length str) h (omega arith) in
      let v = g.2 in
      let d : ltb s.size pos ≡ false = ground (arith, h.3) in
      let f : length str ≤ length v.0 = omega (arith, g.3, v.2, v.3, h.3, length-append t v.0) in
      let k = edit t v.0 str pos (g.0.size - pos) l (omega (arith, v.3)) f in
      let out : List ℕ = take pos t ++ (str ++ drop pos t) in
      let n : length out ≡ length t + length str = omega (
        arith,
        length-append (take pos t) (str ++ drop pos t),
        length-append str (drop pos t),
        length-take pos t,
        length-drop pos t,
      ) in
      let r : SString = record g.0 {
        data_block = some (out ++ drop (length str) v.0);
        size = s.size + length str;
      } in
      let size_ : by_int (s.size + length str) ≡ s.size + length str =
        by_int-small (s.size + length str) (omega (arith, h.3)) in
      let cap_ : by_int (calculate_capacity (s.size + length str))
          ≡ calculate_capacity (s.size + length str) =
        by_int-small (calculate_capacity (s.size + length str))
          (capacity_small (s.size + length str) (omega (arith, h.3))) in
      let offset_ : by_int (length str) ≡ length str = by_int-small (length str) (omega arith) in
      (
        r,
        rw (d, size_, cap_, offset_, g.1, v.1)
            (sym (
                bind_assoc (shift (t ++ v.0) pos (length str) (g.0.size - pos))
                  (λ moved. write_bytes moved pos str)
                  (λ buf. ok (record g.0 { data_block = some buf; size = s.size + length str })))
              ∙ ap
                  (λ m. m >>= λ buf.
                    ok (record g.0 { data_block = some buf; size = s.size + length str }))
                  k),
        (
          drop (length str) v.0,
          refl,
          omega (
            arith,
            n,
            v.2,
            length-append out (drop (length str) v.0),
            length-drop (length str) v.0,
            length-append t v.0,
            f,
          ),
          omega (arith, n, h.3),
        ),
      ),
  λ l. ground (arith, h.3),
)
