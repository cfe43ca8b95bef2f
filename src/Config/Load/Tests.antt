-- ===== src/Config/Load/Tests.antt =====
-- Runs of loading, over a small stand-in for yaml-cpp.
use siempre.Base.{
  ℕ, zero, suc, ◌≡◌, ◌<◌, ◌⊎◌, refl, inl, inr, List, [], ◌∷◌, none, some, Bytes, codes, arith, ltb,
  ◌==◌, if◌then◌else◌,
}
use siempre.Config.Cast.{Yaml}
use siempre.Config.Vars.{Datas, look_up_base, new_var, Conversion, converted}
use siempre.Config.Vars.Lookup.{map_some}
use siempre.Config.Load.{list_all_member, done, load_from_yaml, Members, bad_prefix}
use siempre.Config.Load.Paths.{list_all_member_lem, Elem, below, Reaches}
use siempre.Config.Load.Assign.{load_from_yaml_lem, last_converted}

-- A document of one map with two scalars: the node 2 has the members 1 and 0.
abbrev two : ℕ → List (Bytes × ℕ)
two n = if n == 2 then (codes "a", 1) ∷ (codes "b", 0) ∷ [] else []

abbrev numbers : Yaml
numbers = record {
  Node = ℕ;
  load = λ s. none;
  emit = λ n. n ∷ [];
  sequence = λ ns. 0;
  elements = λ n. [];
  put = λ n k v. n;
  members = two;
  is_map = λ n. n == 2;
  is_scalar = λ n. ltb n 2;
  scalar = λ n. n ∷ [];
}

nested : (k : ℕ) (m : Bytes × ℕ) → Elem m (below numbers k) → m.1 < k
nested zero m h = elim h [ ]
nested (suc zero) m h = elim h [ ]
nested (suc (suc zero)) m (inl e) = ground arith
nested (suc (suc zero)) m (inr (inl e)) = ground arith
nested (suc (suc zero)) m (inr (inr h)) = elim h [ ]
nested (suc (suc (suc k))) m h = ground arith

abbrev all_members : Members numbers
all_members = ([], 2) ∷ (codes "a", 1) ∷ (codes "b", 0) ∷ []

listed_run : list_all_member numbers 3 [] 2 ≡ done all_members
unfolding list_all_member
listed_run = refl

list_all_member_lem_example :
    (list_all_member numbers 3 [] 2 ≡ bad_prefix)
    ⊎ ((ms : Members numbers) × (list_all_member numbers 3 [] 2 ≡ done ms)
        × ((x : Bytes × ℕ)
            → (Elem x ms → Reaches numbers [] 2 x) × (Reaches numbers [] 2 x → Elem x ms)))
list_all_member_lem_example = list_all_member_lem numbers (λ n. n) 3 2 nested (omega arith)

abbrev one_variable : Datas
one_variable = (codes "a", new_var (codes "a") 0 7 []) ∷ []

abbrev length_of : ℕ → Bytes → Conversion
length_of t s = converted 1

load_from_yaml_lem_example :
    (m' : Datas) × (load_from_yaml numbers length_of 3 one_variable 2 ≡ done (some m'))
    × (look_up_base m' (codes "a")
        ≡ map_some
            (λ v. record v {
              value = last_converted numbers length_of v.type (codes "a") all_members v.value;
            })
            (look_up_base one_variable (codes "a")))
load_from_yaml_lem_example =
    load_from_yaml_lem numbers length_of 3 one_variable 2 all_members (codes "a") (λ t str e. cc)
      listed_run (ground arith)
