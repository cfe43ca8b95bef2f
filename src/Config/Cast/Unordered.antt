-- ===== src/Config/Cast/Unordered.antt =====
-- `TypeCast` between texts and std::unordered_set and std::unordered_map: include/Configurator/
-- Configurator.h. A container is the list of its elements, the latest last; its contents forget the
-- order. The order of an iteration is that of the hash table: the parameter `arrange` gives it.
use mathlib.Core.List.{Permᴰ}
use mathlib.Core.List.Permᴰ.{nil, cons, swap, trans}
use mathlib.Core.Quot
use mathlib.Core.Quot.{Quot}
use siempre.Base.{
  Bool, false, List, [], ◌∷◌, ◌++◌, Option, some, Bytes, same, ◌≡◌, All, refl, sym, ap, ◌∙◌, subst,
  append_assoc, append-nil, ◌>>=◌, ◌||◌, if◌then◌else◌,
}
use siempre.Config.Cast.{Yaml, each, nodes_of, entries_of, put_all}
use siempre.Config.Cast.RoundTrip.{
  IsYaml, IsYamlMap, Survives, Pairwise, OtherKey, put_nodes, Apart, Apart-start, Apart-next,
  nodes-each, put_all-nodes,
}

module _ {A : Type 0} where
  abbrev holds : (A → A → Bool) → A → List A → Bool
  holds eq a [] = false
  holds eq a (x ∷ xs) = eq x a || holds eq a xs

  -- `unordered_set::insert`
  pub insert_once : (A → A → Bool) → A → List A → List A
  insert_once eq a xs = if holds eq a xs then xs else xs ++ (a ∷ [])

  insert_each : (A → A → Bool) → List A → List A → List A
  unfolding insert_once
  insert_each eq set [] = set
  insert_each eq set (a ∷ xs) = insert_each eq (insert_once eq a set) xs

module _ (y : Yaml) {A : Type 0} where
  pub to_unordered_set : (A → A → Bool) → (Bytes → Option A) → Bytes → Option (List A)
  unfolding insert_each
  to_unordered_set eq cast str = do
    node ← y.load str
    xs ← each y cast (y.elements node)
    some (insert_each eq [] xs)

  pub from_unordered_set : (A → Option Bytes) → (List A → List A) → List A → Option Bytes
  from_unordered_set cast arrange set = do
    nodes ← nodes_of y cast (arrange set)
    some (y.emit (y.sequence nodes))

  pub to_unordered_map : (Bytes → Option A) → Bytes → Option (List (Bytes × A))
  to_unordered_map cast str = do node ← y.load str; entries_of y cast [] (y.members node)

  pub from_unordered_map :
      (A → Option Bytes) → (List (Bytes × A) → List (Bytes × A)) → List (Bytes × A) → Option Bytes
  from_unordered_map cast arrange ms = do
    node ← put_all y cast (y.sequence []) (arrange ms)
    some (y.emit node)

-- The contents of a container: its elements without their order.
abbrev pub Contents : Type 0 → Type 0
Contents A = Quot (Permᴰ {A = A})

abbrev pub contents : {A : Type 0} → List A → Contents A
contents xs = Quot.mk xs

module _ {A : Type 0} where
  All-Permᴰ : (P : A → Type 0) {xs ys : List A} → Permᴰ xs ys → All P xs → All P ys
  All-Permᴰ P nil h = tt
  All-Permᴰ P (cons e p) h = (subst P e h.0, All-Permᴰ P p h.1)
  All-Permᴰ P (swap e f) h = (subst P f h.1.0, (subst P e h.0, h.1.1))
  All-Permᴰ P (trans p q) h = All-Permᴰ P q (All-Permᴰ P p h)

  -- The elements differ, by a test that is read both ways.
  abbrev pub Differ : (A → A → Bool) → A → A → Type 0
  Differ eq x a = (eq x a ≡ false) × (eq a x ≡ false)

  All-map : (P Q : A → Type 0) (xs : List A) → ((x : A) → P x → Q x) → All P xs → All Q xs
  All-map P Q [] f h = tt
  All-map P Q (x ∷ xs) f h = (f x h.0, All-map P Q xs f h.1)

  Pairwise-map :
      (R S : A → A → Type 0) (xs : List A)
      → ((x a : A) → R x a → S x a)
      → Pairwise R xs
      → Pairwise S xs
  Pairwise-map R S [] f h = tt
  Pairwise-map R S (x ∷ xs) f h = (All-map (R x) (S x) xs (f x) h.0, Pairwise-map R S xs f h.1)

  Pairwise-Permᴰ :
      (eq : A → A → Bool) {xs ys : List A}
      → Permᴰ xs ys
      → Pairwise (Differ eq) xs
      → Pairwise (Differ eq) ys
  Pairwise-Permᴰ eq nil h = tt
  Pairwise-Permᴰ eq (cons {b = b} {l₁ = before} e p) h = (
    All-Permᴰ (Differ eq b) p (subst (λ z. All (Differ eq z) before) e h.0),
    Pairwise-Permᴰ eq p h.1,
  )
  Pairwise-Permᴰ eq (swap {a} {b} {a'} {b'} {l} e f) h =
      let ab : Differ eq a b = h.0.0 in
      let ba : Differ eq b a = (ab.1, ab.0) in
      let flipped : Pairwise (Differ eq) (b ∷ a ∷ l) = ((ba, h.1.0), (h.0.1, h.1.1)) in
      subst (λ z. Pairwise (Differ eq) (z ∷ b' ∷ l)) f
        (subst (λ z. Pairwise (Differ eq) (b ∷ z ∷ l)) e flipped)
  Pairwise-Permᴰ eq (trans p q) h = Pairwise-Permᴰ eq q (Pairwise-Permᴰ eq p h)

  -- Elements that differ are all kept, in the order in which they come.
  holds_not :
      (eq : A → A → Bool) (a : A) (read : List A)
      → All (λ x. Differ eq x a) read
      → holds eq a read ≡ false
  holds_not eq a [] h = refl
  holds_not eq a (x ∷ read) h = rw (h.0.0, holds_not eq a read h.1) refl

  insert_each-append :
      (eq : A → A → Bool) (read xs : List A)
      → Apart (Differ eq) read xs
      → Pairwise (Differ eq) xs
      → insert_each eq read xs ≡ read ++ xs
  unfolding insert_each
  insert_each-append eq read [] p q = sym (append-nil read)
  insert_each-append eq read (a ∷ xs) p q = rw (holds_not eq a read p.0) (
      insert_each-append eq (read ++ (a ∷ [])) xs (Apart-next (Differ eq) read a xs p.1 q.0) q.1
      ∙ append_assoc read (a ∷ []) xs)

module _ (y : Yaml) {A : Type 0} (to : Bytes → Option A) (from : A → Option Bytes) where
  -- An unordered set whose elements survive and differ is read back from its text with the same
  -- contents, whatever the order in which the table iterates.
  pub unordered_set-Survives :
      (eq : A → A → Bool) (arrange : List A → List A) (xs : List A)
      → IsYaml y
      → Permᴰ xs (arrange xs)
      → All (Survives y to from) xs
      → Pairwise (Differ eq) xs
      → (s : Bytes) × (ys : List A) × (from_unordered_set y from arrange xs ≡ some s)
        × (to_unordered_set y eq to s ≡ some ys)
        × (contents ys ≡ contents xs)
  unfolding from_unordered_set to_unordered_set
  unordered_set-Survives eq arrange xs law p h d =
      let r = nodes-each y to from (arrange xs) (All-Permᴰ (Survives y to from) p h) in
      let n = y.sequence r.0 in
      let e : insert_each eq [] (arrange xs) ≡ arrange xs =
        insert_each-append eq [] (arrange xs) (Apart-start (Differ eq) (arrange xs))
          (Pairwise-Permᴰ eq p d) in
      (
        y.emit n,
        arrange xs,
        rw r.1 refl,
        rw (law.load-emit n, law.elements-sequence r.0, r.2) (ap some e),
        sym (Quot.sound p),
      )

  abbrev pub same_key : Bytes × A → Bytes × A → Bool
  same_key x a = same x.0 a.0

  -- So is an unordered map whose values survive and whose keys differ.
  pub unordered_map-Survives :
      (arrange : List (Bytes × A) → List (Bytes × A)) (ms : List (Bytes × A))
      → IsYamlMap y
      → Permᴰ ms (arrange ms)
      → All (λ m. Survives y to from m.1) ms
      → Pairwise (Differ same_key) ms
      → (s : Bytes) × (read : List (Bytes × A)) × (from_unordered_map y from arrange ms ≡ some s)
        × (to_unordered_map y to s ≡ some read)
        × (contents read ≡ contents ms)
  unfolding from_unordered_map to_unordered_map
  unordered_map-Survives arrange ms law p h d =
      let sorted = arrange ms in
      let other : Pairwise OtherKey sorted =
        Pairwise-map (Differ same_key) OtherKey sorted (λ x a k. k.0)
          (Pairwise-Permᴰ same_key p d) in
      let r =
        put_all-nodes y to from (y.sequence []) sorted
          (All-Permᴰ (λ m. Survives y to from m.1) p h) in
      let n = put_nodes y (y.sequence []) r.0 in
      (
        y.emit n,
        sorted,
        rw r.1 refl,
        rw (law.load-emit n, law.members-put r.0 (r.3 other))
            (r.2 [] (Apart-start OtherKey sorted) other),
        sym (Quot.sound p),
      )
