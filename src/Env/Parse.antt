-- ===== src/Env/Parse.antt =====
-- What the command line gives: printing options and parsing them is the identity.
use siempre.Base.{
  ◌≡◌, refl, Bool, true, false, List, [], ◌∷◌, Option, none, some, if◌then◌else◌, All, arith, ap,
  is_some, ◌∙◌, Bool-cases, inl, inr, sym,
}
use siempre.Base.{same, same_eq, same_refl}
use siempre.Env.{Word, Args, add, find_arg, has, is_key, parse, init, started, helped}

-- An option: a key, and the value behind it if there is one. A value is no key.
abbrev pub IsPrintable : Word × Option Word → Type 0
IsPrintable (k, none) = Unit
IsPrintable (k, some v) = is_key v ≡ false

abbrev pub print : List (Word × Option Word) → List Word
print [] = []
print ((k, none) ∷ os) = (45 ∷ k) ∷ print os
print ((k, some v) ∷ os) = (45 ∷ k) ∷ v ∷ print os

abbrev pub value_or_empty : Option Word → Word
value_or_empty none = []
value_or_empty (some v) = v

abbrev pub add_all : Args → List (Word × Option Word) → Args
add_all m [] = m
add_all m ((k, v) ∷ os) = add_all (add m k (value_or_empty v)) os

parse_all :
    (os : List (Word × Option Word)) (key : Word) (m : Args)
    → All IsPrintable os
    → parse (print os) false key m ≡ add_all m os
unfolding parse
parse_all [] key m p = refl
parse_all ((k, some v) ∷ os) key m p = rw p.0 (parse_all os k (add m k v) p.1)
parse_all ((k, none) ∷ []) key m p = refl
parse_all ((k, none) ∷ (k', none) ∷ os) key m p = parse_all ((k', none) ∷ os) key (add m k []) p.1
parse_all ((k, none) ∷ (k', some v) ∷ os) key m p =
    parse_all ((k', some v) ∷ os) key (add m k []) p.1

covered :
    (b : Bool) (v u : Word) (o : Option Word)
    → (if b then some v else o) ≡ (if b then some v else if b then some u else o)
covered true v u o = refl
covered false v u o = refl

apart : (k a j : Word) → same a k ≡ false → same a j ≡ true → same k j ≡ false
apart k a j e f = elim (Bool-cases (same k j)) [
  | inl g ↦
      let h : a ≡ k = same_eq a j f ∙ sym (same_eq k j g) in
      absurd (differ (sym e ∙ ap (λ x. same x k) h ∙ same_refl k))
  | inr g ↦ g
]
  where
    differ : false ≡ true → ⊥
    differ h = ground arith

-- A key that was added has its value, and every other key the value that it had.
pub find_arg-add :
    (m : Args) (k v j : Word) → find_arg (add m k v) j ≡ (if same k j then some v else find_arg m j)
unfolding find_arg add
find_arg-add [] k v j = refl
find_arg-add (a ∷ m) k v j = elim (Bool-cases (same a.0 k)) [
  | inl e ↦ let q : a.0 ≡ k = same_eq a.0 k e in rw (e, q) (covered (same k j) v a.1 (find_arg m j))
  | inr e ↦ elim (Bool-cases (same a.0 j)) [
    | inl f ↦ let n : same k j ≡ false = apart k a.0 j e f in rw (e, f, n) refl
    | inr f ↦ rw (e, f) (find_arg-add m k v j)
  ]
]

abbrev pub or_else : Option Word → Option Word → Option Word
or_else none o = o
or_else (some v) o = some v

-- The value of the last option with a key, if there is one.
abbrev pub last_value : List (Word × Option Word) → Word → Option Word
last_value [] j = none
last_value ((k, v) ∷ os) j =
    or_else (last_value os j) (if same k j then some (value_or_empty v) else none)

or_else_assoc : (a b c : Option Word) → or_else (or_else a b) c ≡ or_else a (or_else b c)
or_else_assoc none b c = refl
or_else_assoc (some v) b c = refl

or_else_if :
    (d : Bool) (v : Word) (o : Option Word)
    → (if d then some v else o) ≡ or_else (if d then some v else none) o
or_else_if true v o = refl
or_else_if false v o = refl

or_else-none : (a : Option Word) → or_else a none ≡ a
or_else-none none = refl
or_else-none (some v) = refl

find_arg-add_all :
    (m : Args) (os : List (Word × Option Word)) (j : Word)
    → find_arg (add_all m os) j ≡ or_else (last_value os j) (find_arg m j)
find_arg-add_all m [] j = refl
find_arg-add_all m ((k, v) ∷ os) j =
    find_arg-add_all (add m k (value_or_empty v)) os j
    ∙ ap (λ o. or_else (last_value os j) o)
        (find_arg-add m k (value_or_empty v) j
          ∙ or_else_if (same k j) (value_or_empty v) (find_arg m j))
    ∙ sym (or_else_assoc (last_value os j) _ (find_arg m j))

-- The command line that a list of options is printed to gives each key the value of the last option
-- with that key, the empty one if that option has none, and no other key a value. With the key `h`
-- among them `init` prints the help and exits, without it it returns with these arguments.
pub init-print :
    (os : List (Word × Option Word))
    → All IsPrintable os
    → (m : Args) × ((j : Word) → find_arg m j ≡ last_value os j)
      × (init (print os) ≡ (if is_some (last_value os (b'h' ∷ [])) then helped else started m))
unfolding init has
init-print os p =
    let values : (j : Word) → find_arg (add_all [] os) j ≡ last_value os j =
      λ j. find_arg-add_all [] os j ∙ or_else-none (last_value os j) in
    (add_all [] os, values, rw (parse_all os [] [] p, values (b'h' ∷ [])) refl)
