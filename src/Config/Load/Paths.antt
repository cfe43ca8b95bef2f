-- ===== src/Config/Load/Paths.antt =====
-- `listAllMember` lists exactly the paths of a node.
use siempre.Base.{
  ℕ, zero, suc, ◌≡◌, ◌<◌, ◌⊎◌, inl, inr, refl, List, [], ◌∷◌, ◌++◌, if◌then◌else◌, Bytes, arith,
  Bool-cases, ◌∙◌, sym, subst,
}
use siempre.Config.Cast.{Yaml}
use siempre.Config.Vars.{is_valid_name}
use siempre.Config.Load.{
  Listing, done, bad_prefix, no_fuel, ◌>>=◌, join, list_below, list_all_member, Members,
}

abbrev pub Elem : {A : Type 0} → A → List A → Type 0
Elem a [] = ⊥
Elem a (x ∷ xs) = (x ≡ a) ⊎ Elem a xs

module _ {A : Type 0} where
  Elem-left : (a : A) (xs ys : List A) → Elem a xs → Elem a (xs ++ ys)
  Elem-left a [] ys h = elim h [ ]
  Elem-left a (x ∷ xs) ys (inl e) = inl e
  Elem-left a (x ∷ xs) ys (inr h) = inr (Elem-left a xs ys h)

  Elem-right : (a : A) (xs ys : List A) → Elem a ys → Elem a (xs ++ ys)
  Elem-right a [] ys h = h
  Elem-right a (x ∷ xs) ys h = inr (Elem-right a xs ys h)

  Elem-append : (a : A) (xs ys : List A) → Elem a (xs ++ ys) → Elem a xs ⊎ Elem a ys
  Elem-append a [] ys h = inr h
  Elem-append a (x ∷ xs) ys (inl e) = inl (inl e)
  Elem-append a (x ∷ xs) ys (inr h) = elim (Elem-append a xs ys h) [
    | inl k ↦ inl (inr k)
    | inr k ↦ inr k
  ]

bind-done :
    {A B : Type 0} (m : Listing A) (f : A → Listing B) {b : B}
    → (m >>= f) ≡ done b
    → (a : A) × (m ≡ done a) × (f a ≡ done b)
bind-done (done a) f h = (a, refl, h)
bind-done bad_prefix f h = cc
bind-done no_fuel f h = cc

done_inj : {A : Type 0} {a b : A} → ◌≡◌ {A = Listing A} (done a) (done b) → a ≡ b
done_inj e = cc

module _ (y : Yaml) where
  -- The entries that the loop runs over.
  abbrev pub below : y.Node → List (Bytes × y.Node)
  below n = if y.is_map n then y.members n else []

  -- From a node with its prefix, the keys of maps lead to a node with its path.
  pub data Reaches : Bytes → y.Node → Bytes × y.Node → Type 0 where
    here : {prefix : Bytes} {n : y.Node} → Reaches prefix n (prefix, n)
    through :
        {prefix : Bytes} {n : y.Node} {x : Bytes × y.Node} (m : Bytes × y.Node)
        → Elem m (below n)
        → Reaches (join prefix m.0) m.1 x
        → Reaches prefix n x

  -- A listing holds exactly the pairs of a predicate.
  abbrev Lists : (Bytes × y.Node → Type 0) → Listing (Members y) → Type 0
  Lists P o =
      (ms : Members y)
      → o ≡ done ms
      → ((x : Bytes × y.Node) → (Elem x ms → P x) × (P x → Elem x ms))

  abbrev Under : Bytes → List (Bytes × y.Node) → Bytes × y.Node → Type 0
  Under prefix ms x = (m : Bytes × y.Node) × Elem m ms × Reaches (join prefix m.0) m.1 x

  list_below-Lists :
      (go : Bytes → y.Node → Listing (Members y)) (prefix : Bytes) (ms : List (Bytes × y.Node))
      → ((p : Bytes) (n : y.Node) → Lists (Reaches p n) (go p n))
      → Lists (Under prefix ms) (list_below y go prefix ms)
  list_below-Lists go prefix [] g l e x =
      (λ h. absurd (subst (Elem x) (sym (done_inj e)) h), λ u. absurd u.1)
  list_below-Lists go prefix (m ∷ ms) g l e x =
      let a = bind-done (go (join prefix m.0) m.1) _ e in
      let b = bind-done (list_below y go prefix ms) _ a.2 in
      let q : a.0 ++ b.0 ≡ l = done_inj b.2 in
      let first = g (join prefix m.0) m.1 a.0 a.1 x in
      let rest = list_below-Lists go prefix ms g b.0 b.1 x in
      (
        (λ h. elim (Elem-append x a.0 b.0 (subst (Elem x) (sym q) h)) [
          | inl k ↦ (m, inl refl, first.0 k)
          | inr k ↦ (let u = rest.0 k in (u.0, inr u.1, u.2))
        ]),
        λ u. subst (Elem x) q (under a.0 b.0 u first rest),
      )
    where
      under :
          (p q : List (Bytes × y.Node))
          → Under prefix (m ∷ ms) x
          → (Elem x p → Reaches (join prefix m.0) m.1 x)
            × (Reaches (join prefix m.0) m.1 x → Elem x p)
          → (Elem x q → Under prefix ms x) × (Under prefix ms x → Elem x q)
          → Elem x (p ++ q)
      under p q (k, inl e, r) first rest =
          Elem-left x p q (first.1 (subst (λ z. Reaches (join prefix z.0) z.1 x) (sym e) r))
      under p q (k, inr h, r) first rest = Elem-right x p q (rest.1 (k, h, r))

  reached :
      {prefix : Bytes} {n : y.Node} {x : Bytes × y.Node} (ms : List (Bytes × y.Node))
      → Reaches prefix n x
      → (Under prefix (below n) x → Elem x ms)
      → Elem x ((prefix, n) ∷ ms)
  reached ms here u = inl refl
  reached ms (through m h r) u = inr (u (m, h, r))

  listed :
      (fuel : ℕ) (prefix : Bytes) (n : y.Node)
      → Lists (Reaches prefix n) (list_all_member y fuel prefix n)
  unfolding list_all_member
  listed zero prefix n l e x = ground arith
  listed (suc fuel) prefix n l e x = elim (Bool-cases (is_valid_name prefix)) [
    | inr v ↦ absurd (bad_done (sym (rw v refl) ∙ e))
    | inl v ↦
        let a =
          bind-done (list_below y (λ p k. list_all_member y fuel p k) prefix (below n))
            (λ ms. done ((prefix, n) ∷ ms)) (sym (rw v refl) ∙ e) in
        let q : (prefix, n) ∷ a.0 ≡ l = done_inj a.2 in
        let u =
          list_below-Lists (λ p k. list_all_member y fuel p k) prefix (below n)
            (λ p k. listed fuel p k) a.0 a.1 x in
        ((λ h. found a.0 (subst (Elem x) (sym q) h) u), λ r. subst (Elem x) q (reached a.0 r u.1))
  ]
    where
      bad_done : {A : Type 0} {a : A} → bad_prefix ≡ done a → ⊥
      bad_done h = cc

      found :
          (ms : List (Bytes × y.Node))
          → Elem x ((prefix, n) ∷ ms)
          → (Elem x ms → Under prefix (below n) x) × (Under prefix (below n) x → Elem x ms)
          → Reaches prefix n x
      found ms (inl e) u = subst (Reaches prefix n) e here
      found ms (inr h) u = (let w = u.0 h in through w.0 w.1 w.2)

  abbrev Ends : Listing (Members y) → Type 0
  Ends (done ms) = Unit
  Ends bad_prefix = Unit
  Ends no_fuel = ⊥

  bind-Ends :
      (o : Listing (Members y)) (f : Members y → Listing (Members y))
      → Ends o
      → ((ms : Members y) → Ends (f ms))
      → Ends (o >>= f)
  bind-Ends (done ms) f e g = g ms
  bind-Ends bad_prefix f e g = tt
  bind-Ends no_fuel f e g = e

  list_below-Ends :
      (go : Bytes → y.Node → Listing (Members y)) (prefix : Bytes) (ms : List (Bytes × y.Node))
      → ((m : Bytes × y.Node) → Elem m ms → (p : Bytes) → Ends (go p m.1))
      → Ends (list_below y go prefix ms)
  list_below-Ends go prefix [] g = tt
  list_below-Ends go prefix (m ∷ ms) g =
      bind-Ends (go (join prefix m.0) m.1)
        (λ first. list_below y go prefix ms >>= λ rest. done (first ++ rest))
        (g m (inl refl) (join prefix m.0))
        (λ first.
          bind-Ends (list_below y go prefix ms) (λ rest. done (first ++ rest))
            (list_below-Ends go prefix ms (λ k h p. g k (inr h) p)) (λ rest. tt))

  enough :
      (depth : y.Node → ℕ) (fuel : ℕ) (prefix : Bytes) (n : y.Node)
      → ((k : y.Node) (m : Bytes × y.Node) → Elem m (below k) → depth m.1 < depth k)
      → depth n < fuel
      → Ends (list_all_member y fuel prefix n)
  unfolding list_all_member
  enough depth zero prefix n d l = ground arith
  enough depth (suc fuel) prefix n d l = elim (Bool-cases (is_valid_name prefix)) [
    | inl v ↦ rw v (
        bind-Ends (list_below y (λ p k. list_all_member y fuel p k) prefix (below n))
          (λ ms. done ((prefix, n) ∷ ms))
          (list_below-Ends (λ p k. list_all_member y fuel p k) prefix (below n)
            (λ m h p. enough depth fuel p m.1 d (omega (arith, d n m h, l))))
          (λ ms. tt))
    | inr v ↦ rw v tt
  ]

  -- If the entries of maps nest less deep than the map, and the fuel is more than the depth of the
  -- document, the listing ends: in an exception, or in a list of exactly those nodes that the keys of
  -- maps lead to, with their paths.
  pub list_all_member_lem :
      (depth : y.Node → ℕ) (fuel : ℕ) (n : y.Node)
      → ((k : y.Node) (m : Bytes × y.Node) → Elem m (below k) → depth m.1 < depth k)
      → depth n < fuel
      → (list_all_member y fuel [] n ≡ bad_prefix)
        ⊎ ((ms : Members y) × (list_all_member y fuel [] n ≡ done ms)
            × ((x : Bytes × y.Node) → (Elem x ms → Reaches [] n x) × (Reaches [] n x → Elem x ms)))
  list_all_member_lem depth fuel n d l =
      go (list_all_member y fuel [] n) refl (enough depth fuel [] n d l)
    where
      go :
          (o : Listing (Members y))
          → list_all_member y fuel [] n ≡ o
          → Ends o
          → (list_all_member y fuel [] n ≡ bad_prefix)
            ⊎ ((ms : Members y) × (list_all_member y fuel [] n ≡ done ms)
                × ((x : Bytes × y.Node)
                    → (Elem x ms → Reaches [] n x) × (Reaches [] n x → Elem x ms)))
      go bad_prefix e h = inl e
      go no_fuel e h = absurd h
      go (done ms) e h = inr (ms, e, λ x. listed fuel [] n ms e x)
