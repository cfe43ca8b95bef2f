-- ===== src/Logger/Pattern/Print.antt =====
-- Patterns that are printed from tokens are parsed to these tokens, and every pattern is parsed.
use siempre.Base.{
  ℕ, zero, suc, ◌≡◌, ◌≢◌, ◌≤◌, refl, true, false, ◌||◌, List, [], ◌∷◌, ◌++◌, some, ◌==◌, length,
  Bytes, is_alpha, arith, All, append-nil, append_assoc, ap, ◌∙◌, sym, length-append, inl, inr, ◌⊎◌,
}
use siempre.Logger.Pattern.{
  Token, text, directive, found, scan_name, scan_format, flush, starts_percent, prepend, parse,
  tokens, item_of, error_format, init, string_item, find_item,
}

abbrev pub NoPercent : ℕ → Type 0
NoPercent c = (c == b'%') ≡ false

abbrev pub NoClose : ℕ → Type 0
NoClose c = (c == b'}') ≡ false

abbrev pub Letter : ℕ → Type 0
Letter c = is_alpha c ≡ true

abbrev pub print_format : Bytes → Bytes
print_format [] = []
print_format (c ∷ fmt) = b'{' ∷ c ∷ (fmt ++ (b'}' ∷ []))

abbrev pub print : List Token → Bytes
print [] = []
print (text t ∷ ts) = t ++ print ts
print (directive name fmt ∷ ts) = b'%' ∷ (name ++ (print_format fmt ++ print ts))

-- A name without a format ends before the next byte.
abbrev pub Ends : Bytes → Type 0
Ends [] = Unit
Ends (c ∷ cs) = ((c == b'{') ≡ false) × ((is_alpha c || c == b'}') ≡ false)

abbrev pub NotText : List Token → Type 0
NotText (text t ∷ ts) = ⊥
NotText _ = Unit

-- Which tokens can be written: texts without a percent sign, not empty and not next to another text;
-- names of letters; formats without a closing brace; and no letter or brace right behind a name.
abbrev pub IsPrintable : List Token → Type 0
IsPrintable [] = Unit
IsPrintable (text t ∷ ts) = (t ≢ []) × All NoPercent t × NotText ts × IsPrintable ts
IsPrintable (directive name fmt ∷ ts) =
    (name ≢ []) × All Letter name × All NoClose fmt × (fmt ≡ [] → Ends (print ts)) × IsPrintable ts

parse_text :
    (t s : Bytes) (nstr : Bytes) (fuel : ℕ)
    → All NoPercent t
    → length (t ++ s) ≤ fuel
    → (g : ℕ) × (length s ≤ g) × (parse fuel nstr (t ++ s) ≡ parse g (nstr ++ t) s)
unfolding parse
parse_text [] s nstr fuel p l = (fuel, l, rw (append-nil nstr) refl)
parse_text (c ∷ t) s nstr zero p l = ground arith
parse_text (c ∷ t) s nstr (suc fuel) p l =
    let r = parse_text t s (nstr ++ (c ∷ [])) fuel p.1 (omega (arith, l)) in
    (r.0, r.1, rw p.0 (r.2 ∙ ap (λ n. parse r.0 n s) (append_assoc nstr (c ∷ []) t)))

Letter-goes_on :
    (c : ℕ) → Letter c → ((c == b'{') ≡ false) × ((is_alpha c || c == b'}') ≡ true) × NoPercent c
Letter-goes_on c h = ground arith

scan_letters :
    (name read s : Bytes)
    → All Letter name
    → scan_name read (name ++ s) ≡ scan_name (read ++ name) s
unfolding scan_name
scan_letters [] read s p = rw (append-nil read) refl
scan_letters (c ∷ name) read s p =
    let g = Letter-goes_on c p.0 in
    rw (g.0, g.1)
      (scan_letters name (read ++ (c ∷ [])) s p.1
        ∙ ap (λ n. scan_name n s) (append_assoc read (c ∷ []) name))

scan_to_close :
    (fmt read name s : Bytes)
    → All NoClose fmt
    → scan_format name read (fmt ++ (b'}' ∷ s)) ≡ found name (read ++ fmt) s
unfolding scan_format
scan_to_close [] read name s p = rw (append-nil read) refl
scan_to_close (c ∷ fmt) read name s p = rw p.0 (
    scan_to_close fmt (read ++ (c ∷ [])) name s p.1
    ∙ ap (λ f. found name f s) (append_assoc read (c ∷ []) fmt))

scan-Ends : (name s : Bytes) → Ends s → scan_name name s ≡ found name [] s
unfolding scan_name
scan-Ends name [] e = refl
scan-Ends name (c ∷ s) e = rw (e.0, e.1) refl

scan_printed :
    (name fmt s : Bytes)
    → All Letter name
    → All NoClose fmt
    → (fmt ≡ [] → Ends s)
    → scan_name [] (name ++ (print_format fmt ++ s)) ≡ found name fmt s
unfolding scan_name
scan_printed name [] s p q e = scan_letters name [] s p ∙ scan-Ends name s (e refl)
scan_printed name (c ∷ fmt) s p q e =
    scan_letters name [] (print_format (c ∷ fmt) ++ s) p
    ∙ ap (λ f. scan_format name [] (c ∷ f)) (append_assoc fmt (b'}' ∷ []) s)
    ∙ scan_to_close (c ∷ fmt) [] name s q

not_percent : (name s : Bytes) → name ≢ [] → All Letter name → starts_percent (name ++ s) ≡ false
not_percent [] s n p = absurd (n refl)
not_percent (c ∷ name) s n p = (Letter-goes_on c p.0).2

flush-text : (t : Bytes) (ts : List Token) → t ≢ [] → flush t ts ≡ text t ∷ ts
flush-text [] ts n = absurd (n refl)
flush-text (c ∷ t) ts n = refl

pub parse_end : (fuel : ℕ) (nstr : Bytes) → parse fuel nstr [] ≡ some (flush nstr [])
unfolding parse
parse_end zero nstr = refl
parse_end (suc fuel) nstr = refl

parse_directive :
    (fuel : ℕ) (nstr cs name fmt rest : Bytes)
    → starts_percent cs ≡ false
    → scan_name [] cs ≡ found name fmt rest
    → parse (suc fuel) nstr (b'%' ∷ cs)
      ≡ prepend (λ ts. flush nstr (directive name fmt ∷ ts)) (parse fuel [] rest)
unfolding parse
parse_directive fuel nstr cs name fmt rest n e = rw (n, e) refl

flush_empty : (nstr : Bytes) (ts : List Token) → nstr ≡ [] → flush nstr ts ≡ ts
flush_empty nstr ts e = rw e refl

parse_printed :
    (ts : List Token) (nstr : Bytes) (fuel : ℕ)
    → IsPrintable ts
    → (nstr ≡ []) ⊎ NotText ts
    → length (print ts) ≤ fuel
    → parse fuel nstr (print ts) ≡ some (flush nstr ts)
parse_printed [] nstr fuel p b l = parse_end fuel nstr
parse_printed (text t ∷ ts) nstr fuel p (inr b) l = absurd b
parse_printed (text t ∷ ts) nstr fuel p (inl b) l =
    let r = parse_text t (print ts) nstr fuel p.1 l in
    r.2
    ∙ ap (λ n. parse r.0 (n ++ t) (print ts)) b
    ∙ parse_printed ts t r.0 p.3 (inr p.2) r.1
    ∙ ap some (flush-text t ts p.0 ∙ sym (flush_empty nstr (text t ∷ ts) b))
parse_printed (directive name fmt ∷ ts) nstr zero p b l = ground arith
parse_printed (directive name fmt ∷ ts) nstr (suc fuel) p b l =
    let rest = print_format fmt ++ print ts in
    let m : length (print ts) ≤ fuel =
      omega (arith, length-append name rest, length-append (print_format fmt) (print ts)) in
    parse_directive fuel nstr (name ++ rest) name fmt (print ts) (not_percent name rest p.0 p.1)
      (scan_printed name fmt (print ts) p.1 p.2 p.3)
    ∙ rw (parse_printed ts [] fuel p.4 (inl refl) m) refl

-- The pattern that a list of tokens is printed to is parsed to these tokens, provided that they can
-- be written: texts without percent signs, not empty and not next to each other; names of letters,
-- formats without a closing brace; and no letter or brace right behind a name.
pub tokens-print : (ts : List Token) → IsPrintable ts → tokens (print ts) ≡ some ts
unfolding tokens
tokens-print ts p = parse_printed ts [] (length (print ts)) p (inl refl) (omega arith)

pair_parsed :
    (fuel : ℕ) (nstr : Bytes)
    → 2 ≤ fuel
    → parse fuel nstr (b'%' ∷ b'%' ∷ []) ≡ some (flush (nstr ++ (b'%' ∷ [])) (directive [] [] ∷ []))
unfolding parse scan_name
pair_parsed zero nstr l = ground arith
pair_parsed (suc zero) nstr l = ground arith
pair_parsed (suc (suc fuel)) nstr l =
    let read = nstr ++ (b'%' ∷ []) in
    parse_directive fuel read [] [] [] [] refl refl
    ∙ ap (prepend (λ ts. flush read (directive [] [] ∷ ts))) (parse_end fuel [])

not_empty : (t : Bytes) (c : ℕ) → t ++ (c ∷ []) ≢ []
not_empty [] c e = ground arith
not_empty (x ∷ t) c e = ground arith

-- Two percent signs at the end of a pattern do not stand for one: the second begins a directive
-- without a name, which is printed as an error behind the percent sign that was meant.
pub percent_twice :
    (t : Bytes)
    → All NoPercent t
    → init (t ++ (b'%' ∷ b'%' ∷ []))
      ≡ some (string_item (t ++ (b'%' ∷ [])) ∷ string_item (error_format []) ∷ [])
unfolding init tokens item_of find_item
percent_twice t p =
    let pair = b'%' ∷ b'%' ∷ [] in
    let whole : ℕ = length (t ++ pair) in
    let r = parse_text t pair [] whole p (omega arith) in
    let f = flush-text (t ++ (b'%' ∷ [])) (directive [] [] ∷ []) (not_empty t b'%') in
    rw (r.2, pair_parsed r.0 t r.1, f) refl
