-- ===== src/Config/Load.antt =====
-- `Config::loadFromYaml` and `listAllMember`: src/Configurator/Configurator.cc.
-- The recursion over the nodes of yaml-cpp takes fuel; how deep a node nests is a parameter of the
-- theorem that it is enough. `none` of loading is an exception that `from_string` did not catch.
pub mod Paths
pub mod Assign
mod Tests
use siempre.Base.{
  ℕ, zero, suc, Bool, true, false, List, [], ◌∷◌, ◌++◌, Option, none, some, if◌then◌else◌, Bytes,
  is_empty,
}
use siempre.Config.Cast.{Yaml}
use siempre.Config.Vars.{ConfigVar, Datas, look_up_base, is_valid_name, assign, Conversion}

-- What a listing gives: the pairs, an invalid prefix (an exception), or no more fuel.
pub data Listing {ℓ} (A : Type ℓ) : Type ℓ where
  done : A → Listing A
  bad_prefix : Listing A
  no_fuel : Listing A

infixl 5 ◌>>=◌
abbrev pub ◌>>=◌ {ℓ κ} : {A : Type ℓ} {B : Type κ} → Listing A → (A → Listing B) → Listing B
done a >>= f = f a
bad_prefix >>= f = bad_prefix
no_fuel >>= f = no_fuel

abbrev pub join : Bytes → Bytes → Bytes
join prefix key = if is_empty prefix then key else prefix ++ (b'.' ∷ key)

module _ (y : Yaml) where
  abbrev pub Members : Type 0
  Members = List (Bytes × y.Node)

  -- The loop over the entries of a map; `go` is the recursive call.
  abbrev pub list_below : (Bytes → y.Node → Listing Members) → Bytes → Members → Listing Members
  list_below go prefix [] = done []
  list_below go prefix (m ∷ ms) = do
    first ← go (join prefix m.0) m.1
    rest ← list_below go prefix ms
    done (first ++ rest)

  pub list_all_member : ℕ → Bytes → y.Node → Listing Members
  list_all_member zero prefix node = no_fuel
  list_all_member (suc fuel) prefix node =
      let below =
        list_below (λ p n. list_all_member fuel p n) prefix
          (if y.is_map node then y.members node else []) in
      if is_valid_name prefix then (below >>= λ ms. done ((prefix, node) ∷ ms)) else bad_prefix

  abbrev pub text_of : y.Node → Bytes
  text_of n = if y.is_scalar n then y.scalar n else y.emit n

  abbrev on_some : Option Datas → (Datas → Option Datas) → Option Datas
  on_some none f = none
  on_some (some m) f = f m

  module _ (from_str : ℕ → Bytes → Conversion) where
    pub load_members : Datas → Members → Option Datas
    load_members m [] = some m
    load_members m (x ∷ xs) =
        on_some (if is_empty x.0 then some m else assign from_str m x.0 (text_of x.1))
          (λ m'. load_members m' xs)

    pub load_from_yaml : ℕ → Datas → y.Node → Listing (Option Datas)
    unfolding load_members list_all_member
    load_from_yaml fuel m root = list_all_member fuel [] root >>= λ ms. done (load_members m ms)
