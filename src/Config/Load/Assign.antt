-- ===== src/Config/Load/Assign.antt =====
-- What loading a document does to one variable.
use siempre.Base.{
  ℕ, ◌≡◌, ◌≢◌, refl, true, false, [], ◌∷◌, Option, none, some, if◌then◌else◌, Bytes, same, is_empty,
  arith, Bool-cases, ap, ◌∙◌, sym, inl, inr,
}
use siempre.Config.Cast.{Yaml}
use siempre.Config.Vars.{ConfigVar, Datas, look_up_base, Conversion, escapes}
use siempre.Config.Vars.Lookup.{map_some, assign_lem, or_kept, with_read}
use siempre.Config.Load.{list_all_member, done, load_members, load_from_yaml, text_of, Members}

module _ (y : Yaml) (from_str : ℕ → Bytes → Conversion) where
  -- The texts of the members with the name of the variable, each read in turn.
  abbrev read_all : Bytes → Members y → ConfigVar → ConfigVar
  read_all name [] v = v
  read_all name (x ∷ xs) v =
      if same name x.0
      then read_all name xs (with_read from_str (text_of y x.1) v)
      else read_all name xs v

  -- The member without a name is the whole document, and no variable's.
  skipped : (x : Bytes) (name : Bytes) → name ≢ [] → is_empty x ≡ true → same name x ≡ false
  skipped [] [] n e = absurd (n refl)
  skipped [] (c ∷ name) n e = refl
  skipped (d ∷ x) name n e = ground arith

  map_map :
      (f g : ConfigVar → ConfigVar) (o : Option ConfigVar)
      → map_some f (map_some g o) ≡ map_some (λ v. f (g v)) o
  map_map f g none = refl
  map_map f g (some v) = refl

  map_id :
      (f : ConfigVar → ConfigVar) (o : Option ConfigVar)
      → ((v : ConfigVar) → f v ≡ v)
      → map_some f o ≡ o
  map_id f none e = refl
  map_id f (some v) e = ap some (e v)

  map_ext :
      (f g : ConfigVar → ConfigVar) (o : Option ConfigVar)
      → ((v : ConfigVar) → f v ≡ g v)
      → map_some f o ≡ map_some g o
  map_ext f g none e = refl
  map_ext f g (some v) e = ap some (e v)

  abbrev read_one : Bytes → Bytes × y.Node → ConfigVar → ConfigVar
  read_one name x v = if same name x.0 then with_read from_str (text_of y x.1) v else v

  read_next :
      (name : Bytes) (x : Bytes × y.Node) (ms : Members y) (v : ConfigVar)
      → read_all name ms (read_one name x v) ≡ read_all name (x ∷ ms) v
  read_next name x ms v = elim (Bool-cases (same name x.0)) [
    | inl d ↦ rw d refl
    | inr d ↦ rw d refl
  ]

  load_members_lem :
      ((t : ℕ) (str : Bytes) → from_str t str ≢ escapes)
      → (m : Datas) (ms : Members y)
      → (m' : Datas) × (load_members y from_str m ms ≡ some m')
        × ((name : Bytes)
            → name ≢ []
            → look_up_base m' name ≡ map_some (read_all name ms) (look_up_base m name))
  unfolding load_members
  load_members_lem tame m [] =
      (m, refl, λ name n. sym (map_id (read_all name []) (look_up_base m name) (λ v. refl)))
  load_members_lem tame m (x ∷ ms) = elim (Bool-cases (is_empty x.0)) [
    | inl e ↦
        let (m', l, q) = load_members_lem tame m ms in
        (
          m',
          rw e l,
          λ name n.
              q name n
              ∙ map_ext (read_all name ms) (read_all name (x ∷ ms)) (look_up_base m name)
                  (λ v. rw (skipped x.0 name n e) refl),
        )
    | inr e ↦
        let (m1, a, r) = assign_lem from_str tame m x.0 (text_of y x.1) in
        let (m', l, q) = load_members_lem tame m1 ms in
        (
          m',
          rw (e, a) l,
          λ name n.
              q name n
              ∙ ap (map_some (read_all name ms)) (r name)
              ∙ map_map (read_all name ms) (read_one name x) (look_up_base m name)
              ∙ map_ext (λ v. read_all name ms (read_one name x v)) (read_all name (x ∷ ms))
                  (look_up_base m name) (λ v. read_next name x ms v),
        )
  ]

  -- The value that the last of the variable's members whose text converts to its type gives, and the
  -- old one if there is none.
  abbrev pub last_converted : ℕ → Bytes → Members y → ℕ → ℕ
  last_converted t name [] x = x
  last_converted t name (e ∷ es) x =
      last_converted t name es (if same name e.0 then or_kept (from_str t (text_of y e.1)) x else x)

  read_all_lem :
      (name : Bytes) (ms : Members y) (v : ConfigVar)
      → read_all name ms v ≡ record v { value = last_converted v.type name ms v.value }
  read_all_lem name [] v = refl
  read_all_lem name (x ∷ xs) v = elim (Bool-cases (same name x.0)) [
    | inl d ↦ rw d (read_all_lem name xs (with_read from_str (text_of y x.1) v))
    | inr d ↦ rw d (read_all_lem name xs v)
  ]

  -- If no conversion throws anything but a std::exception, a document that is listed leaves each
  -- variable as it was but for its value, which becomes that of the last of its members whose text
  -- converts: a text for which the conversion throws is passed over.
  pub load_from_yaml_lem :
      (fuel : ℕ) (m : Datas) (root : y.Node) (ms : Members y) (name : Bytes)
      → ((t : ℕ) (str : Bytes) → from_str t str ≢ escapes)
      → list_all_member y fuel [] root ≡ done ms
      → name ≢ []
      → (m' : Datas) × (load_from_yaml y from_str fuel m root ≡ done (some m'))
        × (look_up_base m' name
            ≡ map_some
                (λ v. record v { value = last_converted v.type name ms v.value })
                (look_up_base m name))
  unfolding load_from_yaml
  load_from_yaml_lem fuel m root ms name tame e n =
      let (m', l, q) = load_members_lem tame m ms in
      (
        m',
        rw (e, l) refl,
        q name n
            ∙ map_ext (read_all name ms)
                (λ v. record v { value = last_converted v.type name ms v.value })
                (look_up_base m name) (read_all_lem name ms),
      )
