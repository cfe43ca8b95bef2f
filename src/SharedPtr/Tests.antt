-- ===== src/SharedPtr/Tests.antt =====
-- Runs of shared and weak pointers.
use siempre.Base.{
  ℕ, ◌≡◌, is_some, true, ap, inl, inr, refl, [], ◌∷◌, none, some, arith, ◌==◌, if◌then◌else◌,
  Bool-cases,
}
use siempre.SharedPtr.{World, assign, weak_destruct, weak_assign, weak_assign_weak, step, get}
use siempre.SharedPtr.Valid.{IsValid}
use siempre.SharedPtr.Steps.{step_lem, self_assign, null_weak}

abbrev empty : World
empty = record { heap = record { wrap = λ x. none; deleted = [] }; shared = []; weak = [] }

-- The value at 7 has two owners and an observer.
abbrev two_owners : World
two_owners = record {
  heap = record {
    wrap =
        λ x. if x == 1 then some (record { val = some 7; use_count = 2; ref_count = 3 }) else none;
    deleted = [];
  };
  shared = 1 ∷ 1 ∷ [];
  weak = 1 ∷ [];
}

-- One owner, and a weak pointer that is null.
abbrev one_owner : World
one_owner = record {
  heap = record {
    wrap =
        λ x. if x == 1 then some (record { val = some 7; use_count = 1; ref_count = 1 }) else none;
    deleted = [];
  };
  shared = 1 ∷ [];
  weak = 0 ∷ [];
}

two_owners-IsValid : IsValid two_owners
two_owners-IsValid = record {
  null = refl;
  held = λ w m. elim (Bool-cases (w == 1)) [
    | inl e ↦ rw e (refl, refl, ground arith, λ z. ground arith)
    | inr e ↦ rw e refl
  ];
  shared_null = refl;
}

one_owner-IsValid : IsValid one_owner
one_owner-IsValid = record {
  null = refl;
  held = λ w m. elim (Bool-cases (w == 1)) [
    | inl e ↦ rw e (refl, ground arith, ground arith, λ z. ground arith)
    | inr e ↦ rw e (ground arith)
  ];
  shared_null = refl;
}

get_run : get two_owners 0 ≡ some 7
unfolding get
get_run = refl

step_lem_example : is_some (step two_owners (assign 0 1)) ≡ true
step_lem_example =
    ap is_some
      (step_lem two_owners (assign 0 1) two_owners-IsValid ((1, refl), (1, refl), ground arith)).1

self_assign_example : step one_owner (assign 0 0) ≡ none
self_assign_example = self_assign one_owner 0 1 one_owner-IsValid refl refl refl

null_weak_example :
    (step one_owner (weak_destruct 0) ≡ none)
    × ((j : ℕ) → step one_owner (weak_assign 0 j) ≡ none)
    × ((j : ℕ) → step one_owner (weak_assign_weak 0 j) ≡ none)
null_weak_example = null_weak one_owner 0 one_owner-IsValid refl
