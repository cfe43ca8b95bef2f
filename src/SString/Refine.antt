-- ===== src/SString/Refine.antt =====
-- Strings as what they promise: a list of bytes. Any sequence of edits on the blocks of
-- src/base/SString.cc does what the same edits do to the list.
use siempre.Base.{
  ℕ, ◌+◌, ◌^◌, ◌≡◌, ◌<◌, ◌≤◌, inl, inr, refl, List, [], ◌∷◌, ◌++◌, Option, none, some, leb, leb→le,
  leb→gt, arith, if◌then◌else◌, length, take, drop, All, Bool-cases, sym,
}
use siempre.SString.{
  Result, ok, throws, ◌>>=◌, SString, own, outside, from_string, assign, add_assign, append,
  replace, resize, clear,
}
use siempre.SString.Bytes.{Holds, Gives, take-all}
use siempre.SString.Grow.{
  from_string_lem, assign_lem, add_assign_lem, append_lem, resize_lem, clear_lem,
}
use siempre.SString.Insert.{insert, insert_lem}
use siempre.SString.Edit.{replace_lem}

pub data Edit : Type 0 where
  become : List ℕ → Edit
  extend : List ℕ → Edit
  double : Edit
  push : List ℕ → Edit
  put : ℕ → List ℕ → Edit
  over : ℕ → List ℕ → Edit
  keep : ℕ → Edit
  empty : Edit

-- The methods that are called.
abbrev pub edit_string : SString → Edit → Result SString
edit_string s (become bs) = do u ← from_string bs; assign s u
edit_string s (extend bs) = add_assign s (outside bs) (length bs)
edit_string s double = add_assign s own s.size
edit_string s (push bs) = append s (outside bs) (length bs)
edit_string s (put pos bs) = insert s pos bs
edit_string s (over pos bs) = replace s pos bs
edit_string s (keep n) = resize s n
edit_string s empty = clear s

-- What they promise, with `none` for an exception.
abbrev pub edit_list : List ℕ → Edit → Option (List ℕ)
edit_list t (become bs) = some bs
edit_list t (extend bs) = some (t ++ bs)
edit_list t double = some (t ++ t)
edit_list t (push bs) = some (t ++ bs)
edit_list t (put pos bs) =
    if leb pos (length t) then some (take pos t ++ (bs ++ drop pos t)) else none
edit_list t (over pos bs) =
    if leb (pos + length bs) (length t)
    then some (take pos t ++ (bs ++ drop (pos + length bs) t))
    else none
edit_list t (keep n) = some (take n t)
edit_list t empty = some []

-- The end of what an edit overwrites, which the code adds up in 64 bits.
abbrev pub last_of : Edit → ℕ
last_of (become bs) = 0
last_of (extend bs) = 0
last_of double = 0
last_of (push bs) = 0
last_of (put pos bs) = 0
last_of (over pos bs) = pos + length bs
last_of (keep n) = 0
last_of empty = 0

abbrev pub edits_string : SString → List Edit → Result SString
edits_string s [] = ok s
edits_string s (e ∷ es) = do s' ← edit_string s e; edits_string s' es

abbrev bind_list : Option (List ℕ) → (List ℕ → Option (List ℕ)) → Option (List ℕ)
bind_list none f = none
bind_list (some t) f = f t

abbrev pub edits_list : List ℕ → List Edit → Option (List ℕ)
edits_list t [] = some t
edits_list t (e ∷ es) = bind_list (edit_list t e) (λ u. edits_list u es)

-- A result does what the list says: it holds the text, or both throw.
abbrev pub Refines : Option (List ℕ) → Result SString → Type 0
Refines none r = r ≡ throws
Refines (some t) r = Gives r t

-- An insertion keeps to what the `int` variables of the code hold: the text is not longer than
-- 2 ^ 30 bytes after it. The other edits that ask for a capacity keep to the sizes for which
-- `calculate_capacity` is the code's.
abbrev pub Fits : List ℕ → Edit → Type 0
Fits t (put pos bs) = length t + length bs ≤ 2 ^ 30
Fits t (become bs) = length bs ≤ 2 ^ 45
Fits t (extend bs) = length t + length bs ≤ 2 ^ 45
Fits t double = length t + length t ≤ 2 ^ 45
Fits t (push bs) = length t + length bs ≤ 2 ^ 45
Fits t (over pos bs) = Unit
Fits t (keep n) = Unit
Fits t empty = Unit

abbrev pub IfSome : Option (List ℕ) → (List ℕ → Type 0) → Type 0
IfSome none f = Unit
IfSome (some t) f = f t

-- Each of the edits does, on the text that it finds.
abbrev pub AllFit : List ℕ → List Edit → Type 0
AllFit t [] = Unit
AllFit t (e ∷ es) = Fits t e × IfSome (edit_list t e) (λ u. AllFit u es)

edit-Refines :
    (s : SString) (t : List ℕ) (e : Edit)
    → Holds s t
    → last_of e < 2 ^ 64
    → Fits t e
    → Refines (edit_list t e) (edit_string s e)
edit-Refines s t (become bs) h l fit =
    let u = from_string_lem bs in let r = assign_lem s u.0 t bs h u.2 in (r.0, rw u.1 r.1, r.2)
edit-Refines s t (extend bs) h l fit =
    add_assign_lem s t (outside bs) (length bs) bs h (omega arith, sym (take-all bs))
edit-Refines s t double h l fit =
    let z : s.size ≡ length t = omega (arith, h.3) in add_assign_lem s t own s.size t h (z, refl)
edit-Refines s t (push bs) h l fit =
    (append_lem s t (outside bs) (length bs) bs h (omega arith, sym (take-all bs))).1 bs refl
edit-Refines s t (put pos bs) h l fit = elim (Bool-cases (leb pos (length t))) [
  | inl d ↦ rw d ((insert_lem s t pos bs h).0 fit (leb→le pos (length t) d))
  | inr d ↦ rw d ((insert_lem s t pos bs h).1 (leb→gt pos (length t) d))
]
edit-Refines s t (over pos bs) h l fit = elim (Bool-cases (leb (pos + length bs) (length t))) [
  | inl d ↦ rw d ((replace_lem s t pos bs h l).0 (leb→le (pos + length bs) (length t) d))
  | inr d ↦ rw d ((replace_lem s t pos bs h l).1 (leb→gt (pos + length bs) (length t) d))
]
edit-Refines s t (keep n) h l fit = let r = resize_lem s t n h in (r.0, r.1, r.2)
edit-Refines s t empty h l fit = clear_lem s t h

bind-Refines :
    (o : Option (List ℕ)) (r : Result SString) (f : List ℕ → Option (List ℕ))
    (g : SString → Result SString) (P : List ℕ → Type 0)
    → Refines o r
    → IfSome o P
    → ((u : List ℕ) (s : SString) → Holds s u → P u → Refines (f u) (g s))
    → Refines (bind_list o f) (r >>= g)
bind-Refines none r f g P e p k = rw e refl
bind-Refines (some u) r f g P e p k = rw e.1 (k u e.0 e.2 p)

-- A string that holds a text does, under any sequence of the edits, exactly what the list of its
-- bytes does: it ends holding the text that the list ends as, or throws where the list has no
-- result, and never has a fault. The bytes of an edit lie outside the string, but for += of the string
-- itself; no position given to `replace` wraps; and no text is longer than 2 ^ 30 bytes behind an
-- `insert`, or than 2 ^ 45 bytes behind another edit that lengthens or assigns it.
pub edits_refine :
    (s : SString) (t : List ℕ) (es : List Edit)
    → Holds s t
    → All (λ e. last_of e < 2 ^ 64) es
    → AllFit t es
    → Refines (edits_list t es) (edits_string s es)
edits_refine s t [] h l fit = (s, refl, h)
edits_refine s t (e ∷ es) h l fit =
    bind-Refines (edit_list t e) (edit_string s e) (λ u. edits_list u es) (λ s'. edits_string s' es)
      (λ u. AllFit u es) (edit-Refines s t e h l.0 fit.0) fit.1
      (λ u s' k p. edits_refine s' u es k l.1 p)
