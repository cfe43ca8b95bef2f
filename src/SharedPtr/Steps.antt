-- ===== src/SharedPtr/Steps.antt =====
-- The calls on shared and weak pointers, one by one and all together.
use siempre.Base.{
  ℕ, ◌+◌, ◌≡◌, ◌≢◌, ◌≤◌, inl, inr, refl, List, ◌∷◌, Option, none, some, arith, ◌==◌, Bool-cases,
  ◌>>=◌, get_elem?, set, remove, count, count-remove, count-set, count_pos, count-remove_other,
  count-exchange, subst, ◌∙◌,
}
use siempre.SharedPtr.{
  Heap, World, Op, make, copy, assign, reset, reset_to, swap, destruct, weak_make, weak_copy,
  weak_null, weak_destruct, weak_assign, weak_assign_weak, weak_swap, step, store, new_wrapper,
  enter, unwatch, rebind, weak_rebind, exchange,
}
use siempre.SharedPtr.Counts.{
  Counted, one, value, leave-Counted, unwatch-Counted, enter-Counted, watch-Counted, fresh-Counted,
  Counted-none, unwatch_null,
}
use siempre.SharedPtr.Valid.{owners, watchers, IsValid, Permitted, Runs}

nonnull : (s : World) (i p : ℕ) → IsValid s → get_elem? s.shared i ≡ some p → p ≢ 0
nonnull s i p v h e = ground (arith, v.shared_null, count_pos p s.shared i h)

recount :
    (h : Heap) (n n' k k' : ℕ → ℕ)
    → Counted h n k
    → ((x : ℕ) → n' x ≡ n x)
    → ((x : ℕ) → x ≢ 0 → k' x ≡ k x)
    → Counted h n' k'
recount h n n' k k' v en ek = record {
  null = v.null;
  held = λ w m. rw (en w, ek w m) (v.held w m);
  shared_null = en 0 ∙ v.shared_null;
}

one_more : (p : ℕ) (xs : List ℕ) (x : ℕ) → count x (p ∷ xs) ≡ count x xs + one p x
one_more p xs x = omega arith

still_held :
    (p q x : ℕ) (xs : List ℕ) (i : ℕ)
    → get_elem? xs i ≡ some p
    → 1 ≤ count q (remove xs i)
    → 1 ≤ count x (set xs i q)
    → 1 ≤ count x (remove xs i)
still_held p q x xs i h l b = elim (Bool-cases (x == q)) [
  | inl e ↦ (let w : q ≡ x = ground arith in subst (λ y. 1 ≤ count y (remove xs i)) w l)
  | inr e ↦ ground (arith, count-set x p q xs i h)
]

rebind_runs :
    (s : World) (i j p q : ℕ)
    → IsValid s
    → get_elem? s.shared i ≡ some p
    → get_elem? s.shared j ≡ some q
    → i ≢ j
    → (s' : World) × (rebind s i p q ≡ some s')
      × IsValid s'
      × ((x : ℕ) → 1 ≤ owners s x → 1 ≤ owners s' x → value s'.heap x ≡ value s.heap x)
rebind_runs s i j p q v hi hj n =
    let kept : ℕ → ℕ = λ x. count x (remove s.shared i) in
    let l =
      leave-Counted s.heap p (owners s) kept (watchers s) v (nonnull s i p v hi)
        (λ x. count-remove x p s.shared i hi) in
    let stays : 1 ≤ kept q = count-remove_other p q s.shared i j hi hj n in
    let e =
      enter-Counted l.0 q kept (λ x. count x (set s.shared i q)) (watchers s) l.2
        (nonnull s j q v hj) (omega (arith, stays)) (λ x. count-set x p q s.shared i hi) in
    let still : (x : ℕ) → 1 ≤ count x (set s.shared i q) → 1 ≤ kept x =
      λ x b. still_held p q x s.shared i hi stays b in
    (
      record s { heap = e.0; shared = set s.shared i q },
      rw (l.1, e.1) refl,
      e.2,
      λ x a b. e.3 x (still x b) ∙ l.3 x (still x b),
    )

weak_rebind_runs :
    (s : World) (k p q : ℕ)
    → IsValid s
    → get_elem? s.weak k ≡ some p
    → p ≢ 0
    → q ≢ 0
    → 1 ≤ owners s q + count q (remove s.weak k)
    → (s' : World) × (weak_rebind s k p q ≡ some s')
      × IsValid s'
      × ((x : ℕ) → 1 ≤ owners s x → 1 ≤ owners s' x → value s'.heap x ≡ value s.heap x)
weak_rebind_runs s k p q v hk zp zq l =
    let kept : ℕ → ℕ = λ x. count x (remove s.weak k) in
    let u =
      unwatch-Counted s.heap p (owners s) (watchers s) kept v zp
        (λ x. count-remove x p s.weak k hk) in
    let w =
      watch-Counted u.0 q (owners s) kept (λ x. count x (set s.weak k q)) u.2 zq l
        (λ x. count-set x p q s.weak k hk) in
    (
      record s { heap = w.0; weak = set s.weak k q },
      rw (u.1, w.1) refl,
      w.2,
      λ x a b. w.3 x a ∙ u.3 x a,
    )

-- A call that may be made reads no wrapper that was deleted and no null pointer. After it the
-- counters of every wrapper are again the numbers of pointers to it, a wrapper without a pointer is
-- gone, and every value that had a shared owner and still has one is the same.
pub step_lem : (s : World) (op : Op) → IsValid s → Permitted s op → Runs s op
unfolding step
step_lem s (make v a) h p =
    let f =
      fresh-Counted s.heap a v (owners s) (λ x. count x (a ∷ s.shared)) (watchers s) h p.0 p.1
        (one_more a s.shared) in
    (
      record s { heap = store s.heap a (some (new_wrapper v)); shared = a ∷ s.shared },
      refl,
      f.0,
      λ x d b c. f.1 x b,
    )
step_lem s (copy i) h p =
    let e =
      enter-Counted s.heap p.0 (owners s) (λ x. count x (p.0 ∷ s.shared)) (watchers s) h
        (nonnull s i p.0 h p.1) (omega (arith, count_pos p.0 s.shared i p.1))
        (one_more p.0 s.shared) in
    (record s { heap = e.0; shared = p.0 ∷ s.shared }, rw (p.1, e.1) refl, e.2, λ x d a b. e.3 x a)
step_lem s (assign i j) h p =
    let r = rebind_runs s i j p.0.0 p.1.0 h p.0.1 p.1.1 p.2 in
    (r.0, rw (p.0.1, p.1.1) r.1, r.2, λ x d. r.3 x)
step_lem s (reset i v a) h p =
    let q = p.0.0 in
    let kept : ℕ → ℕ = λ x. count x (remove s.shared i) in
    let l =
      leave-Counted s.heap q (owners s) kept (watchers s) h (nonnull s i q h p.0.1)
        (λ x. count-remove x q s.shared i p.0.1) in
    let f =
      fresh-Counted l.0 a v kept (λ x. count x (set s.shared i a)) (watchers s) l.2 p.1
        (p.2 q l.0 p.0.1 l.1) (λ x. count-set x q a s.shared i p.0.1) in
    (
      record s { heap = store l.0 a (some (new_wrapper v)); shared = set s.shared i a },
      rw (p.0.1, l.1) refl,
      f.0,
      λ x d b c.
          let m : 1 ≤ kept x = ground (arith, count-set x q a s.shared i p.0.1) in
          f.1 x m ∙ l.3 x m,
    )
step_lem s (reset_to i j) h p =
    let r = rebind_runs s i j p.0.0 p.1.0 h p.0.1 p.1.1 p.2 in
    (r.0, rw (p.0.1, p.1.1) r.1, r.2, λ x d. r.3 x)
step_lem s (swap i j) h ((p, hi), (q, hj)) = (
  record s { shared = exchange s.shared i j p q },
  rw (hi, hj) refl,
  recount s.heap (owners s) (λ x. count x (exchange s.shared i j p q)) (watchers s) (watchers s) h
      (λ x. count-exchange x p q s.shared i j hi hj) (λ x d. refl),
  λ x d a b. refl,
)
step_lem s (destruct i) h p =
    let l =
      leave-Counted s.heap p.0 (owners s) (λ x. count x (remove s.shared i)) (watchers s) h
        (nonnull s i p.0 h p.1) (λ x. count-remove x p.0 s.shared i p.1) in
    (
      record s { heap = l.0; shared = remove s.shared i },
      rw (p.1, l.1) refl,
      l.2,
      λ x d a b. l.3 x b,
    )
step_lem s (weak_make i) h p =
    let e =
      watch-Counted s.heap p.0 (owners s) (watchers s) (λ x. count x (p.0 ∷ s.weak)) h
        (nonnull s i p.0 h p.1) (omega (arith, count_pos p.0 s.shared i p.1))
        (one_more p.0 s.weak) in
    (record s { heap = e.0; weak = p.0 ∷ s.weak }, rw (p.1, e.1) refl, e.2, λ x d a b. e.3 x a)
step_lem s (weak_copy k) h (p, hk, z) =
    let e =
      watch-Counted s.heap p (owners s) (watchers s) (λ x. count x (p ∷ s.weak)) h z
        (omega (arith, count_pos p s.weak k hk)) (one_more p s.weak) in
    (record s { heap = e.0; weak = p ∷ s.weak }, rw (hk, e.1) refl, e.2, λ x d a b. e.3 x a)
step_lem s weak_null h p = (
  record s { weak = 0 ∷ s.weak },
  refl,
  recount s.heap (owners s) (owners s) (watchers s) (λ x. count x (0 ∷ s.weak)) h (λ x. refl)
      (λ x d. ground arith),
  λ x d a b. refl,
)
step_lem s (weak_destruct k) h (p, hk, z) =
    let l =
      unwatch-Counted s.heap p (owners s) (watchers s) (λ x. count x (remove s.weak k)) h z
        (λ x. count-remove x p s.weak k hk) in
    (record s { heap = l.0; weak = remove s.weak k }, rw (hk, l.1) refl, l.2, λ x d a b. l.3 x a)
step_lem s (weak_assign k i) h ((p, hk, z), (q, hi)) =
    let r =
      weak_rebind_runs s k p q h hk z (nonnull s i q h hi)
        (omega (arith, count_pos q s.shared i hi)) in
    (r.0, rw (hk, hi) r.1, r.2, λ x d. r.3 x)
step_lem s (weak_assign_weak k l) h ((p, hk, z), (q, hl, zq), n) =
    let r =
      weak_rebind_runs s k p q h hk z zq
        (omega (arith, count-remove_other p q s.weak k l hk hl n)) in
    (r.0, rw (hk, hl) r.1, r.2, λ x d. r.3 x)
step_lem s (weak_swap k l) h ((p, hk), (q, hl)) = (
  record s { weak = exchange s.weak k l p q },
  rw (hk, hl) refl,
  recount s.heap (owners s) (owners s) (watchers s) (λ x. count x (exchange s.weak k l p q)) h
      (λ x. refl) (λ x d. count-exchange x p q s.weak k l hk hl),
  λ x d a b. refl,
)

absent : (h : Heap) (p : ℕ) → h.wrap p ≡ none → enter h p ≡ none
unfolding enter
absent h p e = ground arith

no_rebind :
    (s : World) (k : ℕ) (o : Option ℕ)
    → unwatch s.heap 0 ≡ none
    → (o >>= λ q. weak_rebind s k 0 q) ≡ none
no_rebind s k none d = refl
no_rebind s k (some q) d = rw d refl

-- A call that the code does not guard. The assignment of a shared pointer to itself, where it is the
-- only pointer to its wrapper, goes on to use the wrapper that it has just deleted.
pub self_assign :
    (s : World) (i p : ℕ)
    → IsValid s
    → get_elem? s.shared i ≡ some p
    → owners s p ≡ 1
    → watchers s p ≡ 0
    → step s (assign i i) ≡ none
unfolding step
self_assign s i p v hi o w =
    let kept : ℕ → ℕ = λ x. count x (remove s.shared i) in
    let l =
      leave-Counted s.heap p (owners s) kept (watchers s) v (nonnull s i p v hi)
        (λ x. count-remove x p s.shared i hi) in
    let gone : l.0.wrap p ≡ none =
      Counted-none l.0 kept (watchers s) p l.2 (nonnull s i p v hi)
        (ground (arith, count-remove p p s.shared i hi)) w in
    rw (hi, l.1, absent l.0 p gone) refl

-- A weak pointer made by the default constructor can be neither destroyed nor assigned, from a shared
-- pointer or from a weak one: the code reads its null pointer.
pub null_weak :
    (s : World) (k : ℕ)
    → IsValid s
    → get_elem? s.weak k ≡ some 0
    → (step s (weak_destruct k) ≡ none)
      × ((j : ℕ) → step s (weak_assign k j) ≡ none)
      × ((j : ℕ) → step s (weak_assign_weak k j) ≡ none)
unfolding step
null_weak s k v hk =
    let dead : unwatch s.heap 0 ≡ none = unwatch_null s.heap v.null in
    (
      rw (hk, dead) refl,
      (λ j. rw hk (no_rebind s k (get_elem? s.shared j) dead)),
      (λ j. rw hk (no_rebind s k (get_elem? s.weak j) dead)),
    )
