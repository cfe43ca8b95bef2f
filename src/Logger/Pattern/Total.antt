-- ===== src/Logger/Pattern/Total.antt =====
-- The loops over a pattern end.
use siempre.Base.{
  ℕ, zero, suc, ◌≡◌, ◌≤◌, ◌||◌, List, [], ◌∷◌, ◌++◌, Option, some, map, refl, ◌==◌, length, Bytes,
  is_alpha, arith, ap, Bool-cases, inl, inr,
}
use siempre.Logger.Pattern.{
  Token, text, directive, Scan, found, unclosed, scan_name, scan_format, flush, starts_percent,
  pattern_error, prepend, after_scan, parse, tokens, init, item_of, Item,
}
use siempre.Logger.Pattern.Print.{parse_end}

-- The text that a directive leaves is not longer than the text behind its percent sign.
abbrev Shorter : ℕ → Scan → Type 0
Shorter n (found name fmt rest) = length rest ≤ n
Shorter n unclosed = Unit

scan_format-Shorter :
    (name fmt cs : Bytes) (n : ℕ) → length cs ≤ n → Shorter n (scan_format name fmt cs)
unfolding scan_format
scan_format-Shorter name fmt [] n l = tt
scan_format-Shorter name fmt (c ∷ cs) n l = elim (Bool-cases (c == b'}')) [
  | inl e ↦ rw e (omega (arith, l))
  | inr e ↦ rw e (scan_format-Shorter name (fmt ++ (c ∷ [])) cs n (omega (arith, l)))
]

scan_name-Shorter : (name cs : Bytes) (n : ℕ) → length cs ≤ n → Shorter n (scan_name name cs)
unfolding scan_name
scan_name-Shorter name [] n l = omega (arith, l)
scan_name-Shorter name (c ∷ cs) n l = elim (Bool-cases (c == b'{')) [
  | inl e ↦ rw e (scan_format-Shorter name [] cs n (omega (arith, l)))
  | inr e ↦ elim (Bool-cases (is_alpha c || c == b'}')) [
    | inl f ↦ rw (e, f) (scan_name-Shorter (name ++ (c ∷ [])) cs n (omega (arith, l)))
    | inr f ↦ rw (e, f) l
  ]
]

abbrev Given : Option (List Token) → Type 0
Given o = (ts : List Token) × (o ≡ some ts)

prepend-Given :
    (f : List Token → List Token) (o : Option (List Token)) → Given o → Given (prepend f o)
prepend-Given f o (ts, e) = (f ts, ap (prepend f) e)

scanned-Given :
    (go : Bytes → Bytes → Option (List Token)) (nstr cs : Bytes) (n : ℕ) (x : Scan)
    → ((m s : Bytes) → length s ≤ n → Given (go m s))
    → length cs ≤ n
    → Shorter n x
    → Given (after_scan go nstr cs x)
scanned-Given go nstr cs n (found name fmt rest) g l h =
    prepend-Given (λ ts. flush nstr (directive name fmt ∷ ts)) (go [] rest) (g [] rest h)
scanned-Given go nstr cs n unclosed g l h =
    prepend-Given (λ ts. text pattern_error ∷ ts) (go nstr cs) (g nstr cs l)

parse-Given : (fuel : ℕ) (nstr s : Bytes) → length s ≤ fuel → Given (parse fuel nstr s)
unfolding parse
parse-Given fuel nstr [] l = (flush nstr [], parse_end fuel nstr)
parse-Given zero nstr (c ∷ s) l = ground arith
parse-Given (suc fuel) nstr (c ∷ s) l = elim (Bool-cases (c == b'%')) [
  | inr e ↦ rw e (parse-Given fuel (nstr ++ (c ∷ [])) s (omega (arith, l)))
  | inl e ↦ elim (Bool-cases (starts_percent s)) [
    | inl f ↦ rw (e, f) (parse-Given fuel (nstr ++ (c ∷ [])) s (omega (arith, l)))
    | inr f ↦
        rw (e, f)
          (scanned-Given (λ m t. parse fuel m t) nstr s fuel (scan_name [] s)
            (λ m t h. parse-Given fuel m t h) (omega (arith, l))
            (scan_name-Shorter [] s fuel (omega (arith, l))))
  ]
]

-- The loops end on every pattern: the fuel that the length gives is enough.
pub tokens_total : (pattern : Bytes) → (ts : List Token) × (tokens pattern ≡ some ts)
unfolding tokens
tokens_total pattern = parse-Given (length pattern) [] pattern (omega arith)

-- So a formatter can be made of every pattern.
pub init_total : (pattern : Bytes) → (is : List Item) × (init pattern ≡ some is)
unfolding init
init_total pattern = let t = tokens_total pattern in (map item_of t.0, rw t.1 refl)
