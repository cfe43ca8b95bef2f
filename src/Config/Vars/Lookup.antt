-- ===== src/Config/Vars/Lookup.antt =====
-- Looking variables up, and listeners.
use siempre.Base.{
  ℕ, ◌≡◌, ◌≢◌, refl, true, false, [], ◌∷◌, ◌++◌, Option, none, some, if◌then◌else◌, ◌==◌, Bytes,
  codes, same, same_refl, arith, Bool-cases, inl, inr, ◌∙◌, ap, sym, same_eq, same_sym,
}
use siempre.Config.Vars.{
  ConfigVar, Datas, look_up_base, is_valid_name, var, null, invalid, new_var, lookup, from_string,
  set_value, assign, Conversion, converted, refused, escapes,
}

look_up-new :
    (m : Datas) (name : Bytes) (v : ConfigVar)
    → look_up_base m name ≡ none
    → look_up_base (m ++ ((name, v) ∷ [])) name ≡ some v
unfolding look_up_base
look_up-new [] name v e = rw (same_refl name) refl
look_up-new (x ∷ m) name v e = elim (Bool-cases (same x.0 name)) [
  | inl d ↦ ground arith
  | inr d ↦ rw d (look_up-new m name v (ground arith))
]

look_up-other :
    (m : Datas) (name n : Bytes) (v : ConfigVar)
    → same name n ≡ false
    → look_up_base (m ++ ((name, v) ∷ [])) n ≡ look_up_base m n
unfolding look_up_base
look_up-other [] name n v e = rw e refl
look_up-other (x ∷ m) name n v e = elim (Bool-cases (same x.0 n)) [
  | inl d ↦ rw d refl
  | inr d ↦ rw d (look_up-other m name n v e)
]

look_up-lookup_other :
    (m : Datas) (name n : Bytes) (t x : ℕ) (d : Bytes)
    → same name n ≡ false
    → look_up_base (lookup m name t x d).0 n ≡ look_up_base m n
unfolding lookup
look_up-lookup_other m name n t x d e = go (look_up_base m name) refl
  where
    go :
        (o : Option ConfigVar)
        → look_up_base m name ≡ o
        → look_up_base (lookup m name t x d).0 n ≡ look_up_base m n
    go (some v) f = elim (Bool-cases (v.type == t)) [
      | inl b ↦ rw (f, b) refl
      | inr b ↦ rw (f, b) refl
    ]
    go none f = elim (Bool-cases (is_valid_name name)) [
      | inl b ↦ rw (f, b) (look_up-other m name n (new_var name t x d) e)
      | inr b ↦ rw (f, b) refl
    ]

var_inj : (u v : ConfigVar) → var u ≡ var v → u ≡ v
var_inj u v e = cc

null_var : (v : ConfigVar) → null ≢ var v
null_var v e = cc

invalid_var : (v : ConfigVar) → invalid ≢ var v
invalid_var v e = cc

lookup-var :
    (m : Datas) (name : Bytes) (t x : ℕ) (d : Bytes) (v : ConfigVar)
    → (lookup m name t x d).1 ≡ var v
    → (look_up_base (lookup m name t x d).0 name ≡ some v) × (v.type ≡ t)
unfolding lookup
lookup-var m name t x d v h = go (look_up_base m name) refl
  where
    go :
        (o : Option ConfigVar)
        → look_up_base m name ≡ o
        → (look_up_base (lookup m name t x d).0 name ≡ some v) × (v.type ≡ t)
    go (some u) f = elim (Bool-cases (u.type == t)) [
      | inl b ↦
          let e : (lookup m name t x d).1 ≡ var u = rw (f, b) refl in
          let q : u ≡ v = var_inj u v (sym e ∙ h) in
          let k : u.type ≡ t = ground arith in
          rw (f, b) (f ∙ ap some q, ap (λ w. w.type) (sym q) ∙ k)
      | inr b ↦
          let e : (lookup m name t x d).1 ≡ null = rw (f, b) refl in absurd (null_var v (sym e ∙ h))
    ]
    go none f = elim (Bool-cases (is_valid_name name)) [
      | inl b ↦
          let e : (lookup m name t x d).1 ≡ var (new_var name t x d) = rw (f, b) refl in
          let q : new_var name t x d ≡ v = var_inj (new_var name t x d) v (sym e ∙ h) in
          rw (f, b)
            (look_up-new m name (new_var name t x d) f ∙ ap some q, ap (λ w. w.type) (sym q))
      | inr b ↦
          let e : (lookup m name t x d).1 ≡ invalid = rw (f, b) refl in
          absurd (invalid_var v (sym e ∙ h))
    ]

found_again :
    (m : Datas) (name : Bytes) (t x : ℕ) (d : Bytes) (v : ConfigVar)
    → look_up_base m name ≡ some v
    → lookup m name t x d ≡ (m, if v.type == t then var v else null)
unfolding lookup
found_again m name t x d v e = elim (Bool-cases (v.type == t)) [
  | inl b ↦ rw (e, b) refl
  | inr b ↦ rw (e, b) refl
]

-- A lookup that gives a variable decides: a later one with the same name and type gives the same
-- variable, whatever value it brings; one with another type gives a null pointer; neither changes
-- anything. No lookup changes the variables of other names.
pub lookup_again :
    (m : Datas) (name : Bytes) (t x : ℕ) (d : Bytes) (v : ConfigVar)
    → (lookup m name t x d).1 ≡ var v
    → let m' = (lookup m name t x d).0 in
      ((x' : ℕ) (d' : Bytes) → lookup m' name t x' d' ≡ (m', var v))
      × ((t' x' : ℕ) (d' : Bytes) → t' ≢ t → lookup m' name t' x' d' ≡ (m', null))
      × ((n : Bytes) → same name n ≡ false → look_up_base m' n ≡ look_up_base m n)
lookup_again m name t x d v h =
    let m' = (lookup m name t x d).0 in
    let k = lookup-var m name t x d v h in
    (
      (λ x' d'.
          let b : (v.type == t) ≡ true = ground arith in
          found_again m' name t x' d' v k.0 ∙ rw b refl),
      (λ t' x' d' n.
          let b : (v.type == t') ≡ false = ground arith in
          found_again m' name t' x' d' v k.0 ∙ rw b refl),
      λ n e. look_up-lookup_other m name n t x d e,
    )

abbrev pub map_some : (ConfigVar → ConfigVar) → Option ConfigVar → Option ConfigVar
map_some f none = none
map_some f (some v) = some (f v)

keys_meet : (a k n : Bytes) → same a k ≡ true → same a n ≡ same n k
keys_meet a k n e = rw (same_eq a k e) (same_sym k n)

apart_keys : (a k n : Bytes) → same a k ≡ false → same a n ≡ true → same n k ≡ false
apart_keys a k n e f = rw (sym (same_eq a n f)) e

abbrev pub or_kept : Conversion → ℕ → ℕ
or_kept (converted z) x = z
or_kept refused x = x
or_kept escapes x = x

-- A variable with the value that a text converts to, and its own where the text does not convert.
abbrev pub with_read : (ℕ → Bytes → Conversion) → Bytes → ConfigVar → ConfigVar
with_read from_str str v = record v { value = or_kept (from_str v.type str) v.value }

module _ (from_str : ℕ → Bytes → Conversion)
    (tame : (t : ℕ) (str : Bytes) → from_str t str ≢ escapes) where
  -- Reading a text changes nothing but the value, and that only where the text converts.
  from_string_lem :
      (v : ConfigVar) (str : Bytes)
      → from_string from_str v str ≡ some (with_read from_str str v, false)
  unfolding from_string set_value
  from_string_lem v str = go (from_str v.type str) refl
    where
      go :
          (o : Conversion)
          → from_str v.type str ≡ o
          → from_string from_str v str ≡ some (with_read from_str str v, false)
      go (converted z) e = rw e refl
      go refused e = rw e refl
      go escapes e = absurd (tame v.type str e)

  unread :
      (key str name : Bytes) (o : Option ConfigVar)
      → same name key ≡ false
      → map_some (λ v. if same name key then with_read from_str str v else v) o ≡ o
  unread key str name none f = refl
  unread key str name (some v) f = rw f refl

  -- Assigning a text reads it into the variable of that name only.
  pub assign_lem :
      (m : Datas) (key str : Bytes)
      → (m' : Datas) × (assign from_str m key str ≡ some m')
        × ((name : Bytes)
            → look_up_base m' name
              ≡ map_some
                  (λ v. if same name key then with_read from_str str v else v)
                  (look_up_base m name))
  unfolding assign look_up_base
  assign_lem [] key str = ([], refl, λ name. refl)
  assign_lem (x ∷ m) key str = elim (Bool-cases (same x.0 key)) [
    | inl e ↦ (
      (x.0, with_read from_str str x.1) ∷ m,
      rw (e, from_string_lem x.1 str) refl,
      λ name. elim (Bool-cases (same x.0 name)) [
        | inl f ↦ rw (f, sym (keys_meet x.0 key name e) ∙ f) refl
        | inr f ↦
            rw f
              (sym (unread key str name (look_up_base m name) (sym (keys_meet x.0 key name e) ∙ f)))
      ],
    )
    | inr e ↦
        let l = assign_lem m key str in
        (
          x ∷ l.0,
          rw (e, l.1) refl,
          λ name. elim (Bool-cases (same x.0 name)) [
            | inl f ↦ rw (f, apart_keys x.0 key name e f) refl
            | inr f ↦ rw f (l.2 name)
          ],
        )
  ]

-- A new variable with a valid name is given back.
pub new_given : (lookup [] (codes "a.b") 1 5 []).1 ≡ var (new_var (codes "a.b") 1 5 [])
unfolding lookup look_up_base
new_given = refl
