-- ===== src/Config/Cast/RoundTrip.antt =====
-- Containers that are turned into texts are read back.
use siempre.Base.{
  Bool, true, false, List, [], ◌∷◌, ◌++◌, Option, some, Bytes, same, ◌≡◌, All, refl, ap, ◌∙◌, sym,
  append_assoc, append-nil, All-append,
}
use siempre.Config.Cast.{
  Yaml, each, to_list, nodes_of, from_list, insert_set, insert_all, to_set, insert_entry,
  entries_of, to_map, put_all, from_map,
}

-- What yaml-cpp documents: a node that is emitted is loaded again; a sequence has the nodes that were
-- pushed; and a map, begun on an empty sequence, has the entries that were assigned if their keys
-- differ.
pub record IsYaml (y : Yaml) : Type 0 where
  pub load-emit : (n : y.Node) → y.load (y.emit n) ≡ some n
  pub elements-sequence : (ns : List y.Node) → y.elements (y.sequence ns) ≡ ns

module _ (y : Yaml) {A : Type 0} (to : Bytes → Option A) (from : A → Option Bytes) where
  -- A value survives being written as a text, loaded as a node, emitted and read.
  abbrev pub Survives : A → Type 0
  Survives a =
      (s : Bytes) × (n : y.Node) × (from a ≡ some s)
      × (y.load s ≡ some n)
      × (to (y.emit n) ≡ some a)

  pub nodes-each :
      (xs : List A)
      → All Survives xs
      → (ns : List y.Node) × (nodes_of y from xs ≡ some ns) × (each y to ns ≡ some xs)
  nodes-each [] p = ([], refl, refl)
  nodes-each (a ∷ xs) ((s, n, f, l, t), p) =
      let r = nodes-each xs p in (n ∷ r.0, rw (f, l, r.1) refl, rw (t, r.2) refl)

  -- A vector or list whose elements survive is itself read back from its text, and survives as an
  -- element of another one.
  pub list-Survives :
      (law : IsYaml y) (xs : List A)
      → All Survives xs
      → (s : Bytes) × (n : y.Node) × (from_list y from xs ≡ some s)
        × (y.load s ≡ some n)
        × (to_list y to s ≡ some xs)
        × (to_list y to (y.emit n) ≡ some xs)
  unfolding to_list from_list
  list-Survives law xs p =
      let r = nodes-each xs p in
      let n = y.sequence r.0 in
      let l = law.load-emit n in
      let e : to_list y to (y.emit n) ≡ some xs = rw (l, law.elements-sequence r.0) r.2 in
      (y.emit n, n, rw r.1 refl, l, e, e)

module _ {A : Type 0} (R : A → A → Type 0) where
  abbrev pub Pairwise : List A → Type 0
  Pairwise [] = Unit
  Pairwise (a ∷ xs) = All (λ x. R a x) xs × Pairwise xs

  -- Everything read so far is related to everything still to be read.
  abbrev pub Apart : List A → List A → Type 0
  Apart read xs = All (λ a. All (λ x. R x a) read) xs

  pub Apart-start : (xs : List A) → Apart [] xs
  Apart-start [] = tt
  Apart-start (a ∷ xs) = (tt, Apart-start xs)

  pub Apart-next :
      (read : List A) (a : A) (xs : List A)
      → Apart read xs
      → All (λ x. R a x) xs
      → Apart (read ++ (a ∷ [])) xs
  Apart-next read a [] p q = tt
  Apart-next read a (x ∷ xs) p q =
      (All-append (λ z. R z x) read (a ∷ []) p.0 (q.0, tt), Apart-next read a xs p.1 q.1)

module _ {A : Type 0} (lt : A → A → Bool) where
  abbrev pub Before : A → A → Type 0
  Before x a = (lt x a ≡ true) × (lt a x ≡ false)

  insert_at_end :
      (a : A) (read : List A) → All (λ x. Before x a) read → insert_set lt a read ≡ read ++ (a ∷ [])
  insert_at_end a [] p = refl
  insert_at_end a (x ∷ read) p = rw (p.0.1, p.0.0, insert_at_end a read p.1) refl

  insert_all-append :
      (read xs : List A)
      → Apart Before read xs
      → Pairwise Before xs
      → insert_all lt read xs ≡ read ++ xs
  insert_all-append read [] p q = sym (append-nil read)
  insert_all-append read (a ∷ xs) p q = rw (insert_at_end a read p.0) (
      insert_all-append (read ++ (a ∷ [])) xs (Apart-next Before read a xs p.1 q.0) q.1
      ∙ append_assoc read (a ∷ []) xs)

abbrev pub put_nodes : (y : Yaml) → y.Node → List (Bytes × y.Node) → y.Node
put_nodes y node [] = node
put_nodes y node (m ∷ ms) = put_nodes y (y.put node m.0 m.1) ms

abbrev pub OtherKey {ℓ} : {A : Type ℓ} → Bytes × A → Bytes × A → Type 0
OtherKey x a = same x.0 a.0 ≡ false

-- What yaml-cpp documents of maps that are begun on an empty sequence.
pub record IsYamlMap (y : Yaml) : Type 0 where
  pub load-emit : (n : y.Node) → y.load (y.emit n) ≡ some n
  pub members-put :
      (ms : List (Bytes × y.Node))
      → Pairwise OtherKey ms
      → y.members (put_nodes y (y.sequence []) ms) ≡ ms

module _ (y : Yaml) {A : Type 0} (to : Bytes → Option A) (from : A → Option Bytes) where
  insert_new :
      (read : List (Bytes × A)) (k : Bytes) (a : A)
      → All (λ x. OtherKey x (k, a)) read
      → insert_entry read k a ≡ read ++ ((k, a) ∷ [])
  insert_new [] k a p = refl
  insert_new (x ∷ read) k a p = rw (p.0, insert_new read k a p.1) refl

  -- A set whose elements survive is read back from its text, if the order tells them apart.
  pub set-Survives :
      (lt : A → A → Bool) (xs : List A)
      → IsYaml y
      → All (Survives y to from) xs
      → Pairwise (Before lt) xs
      → (s : Bytes) × (from_list y from xs ≡ some s) × (to_set y lt to s ≡ some xs)
  unfolding to_set from_list
  set-Survives lt xs law p q =
      let r = nodes-each y to from xs p in
      let n = y.sequence r.0 in
      let d : insert_all lt [] xs ≡ xs =
        insert_all-append lt [] xs (Apart-start (Before lt) xs) q in
      (y.emit n, rw r.1 refl, rw (law.load-emit n, law.elements-sequence r.0, r.2) (ap some d))

  pub put_all-nodes :
      (node : y.Node) (ms : List (Bytes × A))
      → All (λ m. Survives y to from m.1) ms
      → (ns : List (Bytes × y.Node)) × (put_all y from node ms ≡ some (put_nodes y node ns))
        × ((read : List (Bytes × A))
            → Apart OtherKey read ms
            → Pairwise OtherKey ms
            → entries_of y to read ns ≡ some (read ++ ms))
        × (Pairwise OtherKey ms → Pairwise OtherKey ns)
        × ((j : Bytes) → All (λ m. same j m.0 ≡ false) ms → All (λ m. same j m.0 ≡ false) ns)
  put_all-nodes node [] p =
      ([], refl, (λ read a q. ap some (sym (append-nil read))), (λ q. tt), λ j q. tt)
  put_all-nodes node ((k, a) ∷ ms) ((s, n, f, l, t), p) =
      let r = put_all-nodes (y.put node k n) ms p in
      (
        (k, n) ∷ r.0,
        rw (f, l) r.1,
        (λ read b q.
            rw (t, insert_new read k a b.0)
              (r.2 (read ++ ((k, a) ∷ [])) (Apart-next OtherKey read (k, a) ms b.1 q.0) q.1
                ∙ ap some (append_assoc read ((k, a) ∷ []) ms))),
        (λ q. (r.4 k q.0, r.3 q.1)),
        λ j q. (q.0, r.4 j q.1),
      )

  -- A map whose values survive and whose keys differ is read back from its text.
  pub map-Survives :
      (ms : List (Bytes × A))
      → IsYamlMap y
      → All (λ m. Survives y to from m.1) ms
      → Pairwise OtherKey ms
      → (s : Bytes) × (from_map y from ms ≡ some s) × (to_map y to s ≡ some ms)
  unfolding from_map to_map
  map-Survives ms law p q =
      let r = put_all-nodes (y.sequence []) ms p in
      let n = put_nodes y (y.sequence []) r.0 in
      (
        y.emit n,
        rw r.1 refl,
        rw (law.load-emit n, law.members-put r.0 (r.3 q)) (r.2 [] (Apart-start OtherKey ms) q),
      )
