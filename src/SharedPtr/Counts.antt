-- ===== src/SharedPtr/Counts.antt =====
-- One wrapper at a time: what the counters must say, and what the parts of the methods do to them.
use siempre.Base.{
  ℕ, zero, suc, ◌+◌, ◌≡◌, ◌≢◌, ◌≤◌, inl, inr, refl, Option, none, some, arith, ◌==◌, if◌then◌else◌,
  Bool-cases, sym, ap, ◌∙◌, subst,
}
use siempre.SharedPtr.{
  Wrapper, Heap, store, new_wrapper, add_ref, add_use, delete_value, destroy, delete_wrapper, leave,
  enter, watch, unwatch, value_of,
}

-- The wrapper at an address that `n` shared and `k` weak pointers hold.
abbrev pub Agrees : ℕ → ℕ → Option Wrapper → Type 0
Agrees n k none = n + k ≡ 0
Agrees n k (some r) =
    (r.use_count ≡ n) × (r.ref_count ≡ n + k) × (1 ≤ n + k) × (n ≡ 0 → r.val ≡ none)

abbrev pub one : ℕ → ℕ → ℕ
one p x = if x == p then 1 else 0

-- Every wrapper agrees with the numbers of pointers that hold it, and null is never a wrapper.
pub record Counted (h : Heap) (n k : ℕ → ℕ) : Type 0 where
  pub null : h.wrap 0 ≡ none
  pub held : (w : ℕ) → w ≢ 0 → Agrees (n w) (k w) (h.wrap w)
  pub shared_null : n 0 ≡ 0

abbrev pub value : Heap → ℕ → Option ℕ
value h p = value_of (h.wrap p)

abbrev left_wrapper : ℕ → ℕ → Wrapper → Option Wrapper
left_wrapper zero zero r = none
left_wrapper zero (suc k) r = some (record { val = none; use_count = 0; ref_count = suc k })
left_wrapper (suc n) k r = some (record r { use_count = suc n; ref_count = suc n + k })

-- A shared pointer leaves a wrapper that `n` other shared and `k` weak pointers hold.
leave_cell :
    (h : Heap) (p n k : ℕ) (r : Wrapper)
    → h.wrap p ≡ some r
    → r.use_count ≡ suc n
    → r.ref_count ≡ suc n + k
    → (h' : Heap) × (leave h p ≡ some h')
      × (h'.wrap p ≡ left_wrapper n k r)
      × ((x : ℕ) → x ≢ p → h'.wrap x ≡ h.wrap x)
      × (h'.deleted ≡ (if n == 0 then delete_value r.val h.deleted else h.deleted))
unfolding leave
leave_cell h p zero zero r e u c = (
  delete_wrapper (destroy h p (record r { use_count = 0; ref_count = 0 })) p
      (record r { val = none; use_count = 0; ref_count = 0 }),
  ground arith,
  ground arith,
  λ x n. ground arith,
  ground arith,
)
leave_cell h p zero (suc k) r e u c = (
  destroy h p (record r { use_count = 0; ref_count = suc k }),
  ground arith,
  ground arith,
  λ x n. ground arith,
  ground arith,
)
leave_cell h p (suc n) k r e u c = (
  store h p (some (record r { use_count = suc n; ref_count = suc n + k })),
  ground arith,
  ground arith,
  λ x n. ground arith,
  ground arith,
)

-- A weak pointer leaves.
unwatch_cell :
    (h : Heap) (p n k : ℕ) (r : Wrapper)
    → h.wrap p ≡ some r
    → r.use_count ≡ n
    → r.ref_count ≡ suc (n + k)
    → (n ≡ 0 → r.val ≡ none)
    → (h' : Heap) × (unwatch h p ≡ some h')
      × (h'.wrap p ≡ (if n + k == 0 then none else some (record r { ref_count = n + k })))
      × ((x : ℕ) → x ≢ p → h'.wrap x ≡ h.wrap x)
      × (h'.deleted ≡ h.deleted)
unfolding unwatch
unwatch_cell h p zero zero r e u c d = (
  delete_wrapper (store h p (some (record r { ref_count = 0 }))) p (record r { ref_count = 0 }),
  ground (arith, d refl),
  ground arith,
  λ x n. ground arith,
  ground (arith, d refl),
)
unwatch_cell h p zero (suc k) r e u c d = (
  store h p (some (record r { ref_count = suc k })),
  ground arith,
  ground arith,
  λ x n. ground arith,
  ground arith,
)
unwatch_cell h p (suc n) k r e u c d = (
  store h p (some (record r { ref_count = suc n + k })),
  ground arith,
  ground arith,
  λ x n. ground arith,
  ground arith,
)

-- The wrapper of an address that some pointer holds.
wrapper_of :
    (n k : ℕ) (o : Option Wrapper)
    → Agrees n k o
    → 1 ≤ n + k
    → (r : Wrapper) × (o ≡ some r)
      × (r.use_count ≡ n)
      × (r.ref_count ≡ n + k)
      × (n ≡ 0 → r.val ≡ none)
wrapper_of n k none a l = ground arith
wrapper_of n k (some r) a l = (r, refl, a.0, a.1, a.3)

-- What a step leaves alone: the values of the addresses that a shared pointer holds before and after.
abbrev pub Keeps : Heap → Heap → (ℕ → ℕ) → Type 0
Keeps h h' n = (x : ℕ) → 1 ≤ n x → value h' x ≡ value h x

left_wrapper-Agrees : (n k : ℕ) (r : Wrapper) → Agrees n k (left_wrapper n k r)
left_wrapper-Agrees zero zero r = ground arith
left_wrapper-Agrees zero (suc k) r = ground arith
left_wrapper-Agrees (suc n) k r = ground arith

-- A step that changes one wrapper, and the pointers to it only.
changed-Counted :
    (h h' : Heap) (p : ℕ) (n n' k k' : ℕ → ℕ)
    → Counted h n k
    → p ≢ 0
    → Agrees (n' p) (k' p) (h'.wrap p)
    → ((x : ℕ) → x ≢ p → h'.wrap x ≡ h.wrap x)
    → ((x : ℕ) → x ≢ p → n' x ≡ n x)
    → ((x : ℕ) → x ≢ p → k' x ≡ k x)
    → Counted h' n' k'
changed-Counted h h' p n n' k k' v z a o en ek = record {
  null = o 0 (λ q. z (sym q)) ∙ v.null;
  held = λ x m. elim (Bool-cases (x == p)) [
    | inl e ↦ subst (λ y. Agrees (n' y) (k' y) (h'.wrap y)) (ground arith) a
    | inr e ↦ let d : x ≢ p = ground arith in rw (o x d, en x d, ek x d) (v.held x m)
  ];
  shared_null = en 0 (λ q. z (sym q)) ∙ v.shared_null;
}

changed-Keeps :
    (h h' : Heap) (p : ℕ) (n : ℕ → ℕ)
    → ((x : ℕ) → x ≢ p → h'.wrap x ≡ h.wrap x)
    → (1 ≤ n p → value h' p ≡ value h p)
    → Keeps h h' n
changed-Keeps h h' p n o a x l = elim (Bool-cases (x == p)) [
  | inl e ↦ let q : p ≡ x = ground arith in subst (λ y. 1 ≤ n y → value h' y ≡ value h y) q a l
  | inr e ↦ ap value_of (o x (ground arith))
]

left_wrapper_keeps :
    (n k : ℕ) (r : Wrapper)
    → 1 ≤ r.use_count
    → 1 ≤ n
    → value_of (left_wrapper n k r) ≡ value_of (some r)
left_wrapper_keeps zero k r u l = ground arith
left_wrapper_keeps (suc n) k r u l = ground arith

in_use : (r : Wrapper) → 1 ≤ r.use_count → value_of (some r) ≡ r.val
in_use r l = ground arith

-- A shared pointer at `p` goes: the code reads nothing that was deleted, and the counters agree with
-- the pointers that stay. The value is deleted exactly when this was the last shared pointer.
pub leave-Counted :
    (h : Heap) (p : ℕ) (n n' k : ℕ → ℕ)
    → Counted h n k
    → p ≢ 0
    → ((x : ℕ) → n x ≡ n' x + one p x)
    → (h' : Heap) × (leave h p ≡ some h')
      × Counted h' n' k
      × Keeps h h' n'
      × (h'.deleted ≡ (if n' p == 0 then delete_value (value h p) h.deleted else h.deleted))
leave-Counted h p n n' k v z e =
    let i : n p ≡ suc (n' p) = ground (arith, e p) in
    let w = wrapper_of (n p) (k p) (h.wrap p) (v.held p z) (ground arith) in
    let c = leave_cell h p (n' p) (k p) w.0 w.1 (ground arith) (ground arith) in
    let g : value h p ≡ w.0.val = ap value_of w.1 ∙ in_use w.0 (ground arith) in
    (
      c.0,
      c.1,
      changed-Counted h c.0 p n n' k k v z (rw c.2 (left_wrapper-Agrees (n' p) (k p) w.0)) c.3
          (λ x d. ground (arith, e x)) (λ x d. refl),
      changed-Keeps h c.0 p n' c.3 (λ l.
          ap value_of c.2
          ∙ left_wrapper_keeps (n' p) (k p) w.0 (ground arith) l
          ∙ sym (ap value_of w.1)),
      rw g c.4,
    )

-- A weak pointer at `p` goes.
pub unwatch-Counted :
    (h : Heap) (p : ℕ) (n k k' : ℕ → ℕ)
    → Counted h n k
    → p ≢ 0
    → ((x : ℕ) → k x ≡ k' x + one p x)
    → (h' : Heap) × (unwatch h p ≡ some h')
      × Counted h' n k'
      × Keeps h h' n
      × (h'.deleted ≡ h.deleted)
unwatch-Counted h p n k k' v z e =
    let i : k p ≡ suc (k' p) = ground (arith, e p) in
    let w = wrapper_of (n p) (k p) (h.wrap p) (v.held p z) (ground arith) in
    let c = unwatch_cell h p (n p) (k' p) w.0 w.1 w.2 (ground arith) w.4 in
    (
      c.0,
      c.1,
      changed-Counted h c.0 p n n k k' v z (rw c.2 ground (arith, e p)) c.3 (λ x d. refl)
          (λ x d. ground (arith, e x)),
      changed-Keeps h c.0 p n c.3 (λ l. ground (arith, e p)),
      c.4,
    )

-- A shared pointer comes to a wrapper that some pointer holds.
pub enter-Counted :
    (h : Heap) (p : ℕ) (n n' k : ℕ → ℕ)
    → Counted h n k
    → p ≢ 0
    → 1 ≤ n p + k p
    → ((x : ℕ) → n' x ≡ n x + one p x)
    → (h' : Heap) × (enter h p ≡ some h')
      × Counted h' n' k
      × Keeps h h' n
      × (h'.deleted ≡ h.deleted)
unfolding enter
enter-Counted h p n n' k v z l e =
    let w = wrapper_of (n p) (k p) (h.wrap p) (v.held p z) l in
    let h' = store h p (some (add_use w.0)) in
    (
      h',
      ground (arith, w.1),
      changed-Counted h h' p n n' k k v z ground (arith, e p) (λ x d. ground arith)
          (λ x d. ground (arith, e x)) (λ x d. refl),
      changed-Keeps h h' p n (λ x d. ground arith) (λ l. ground (arith, e p)),
      refl,
    )

-- A weak pointer comes to a wrapper that some pointer holds.
pub watch-Counted :
    (h : Heap) (p : ℕ) (n k k' : ℕ → ℕ)
    → Counted h n k
    → p ≢ 0
    → 1 ≤ n p + k p
    → ((x : ℕ) → k' x ≡ k x + one p x)
    → (h' : Heap) × (watch h p ≡ some h')
      × Counted h' n k'
      × Keeps h h' n
      × (h'.deleted ≡ h.deleted)
unfolding watch
watch-Counted h p n k k' v z l e =
    let w = wrapper_of (n p) (k p) (h.wrap p) (v.held p z) l in
    let h' = store h p (some (add_ref w.0)) in
    (
      h',
      ground (arith, w.1),
      changed-Counted h h' p n n k k' v z ground (arith, e p) (λ x d. ground arith) (λ x d. refl)
          (λ x d. ground (arith, e x)),
      changed-Keeps h h' p n (λ x d. ground arith) (λ l. ground (arith, e p)),
      refl,
    )

-- A new wrapper with its first shared pointer.
pub fresh-Counted :
    (h : Heap) (p : ℕ) (v : Option ℕ) (n n' k : ℕ → ℕ)
    → Counted h n k
    → p ≢ 0
    → h.wrap p ≡ none
    → ((x : ℕ) → n' x ≡ n x + one p x)
    → Counted (store h p (some (new_wrapper v))) n' k × Keeps h (store h p (some (new_wrapper v))) n
fresh-Counted h p v n n' k c z f e =
    let h' = store h p (some (new_wrapper v)) in
    let a : Agrees (n p) (k p) none = subst (Agrees (n p) (k p)) f (c.held p z) in
    let u : n p + k p ≡ 0 = a in
    (
      changed-Counted h h' p n n' k k c z ground (arith, e p) (λ x d. ground arith)
          (λ x d. ground (arith, e x)) (λ x d. refl),
      changed-Keeps h h' p n (λ x d. ground arith) (λ l. ground arith),
    )

no_holder : (n k : ℕ) (o : Option Wrapper) → Agrees n k o → n ≡ 0 → k ≡ 0 → o ≡ none
no_holder n k none a u w = refl
no_holder n k (some r) a u w = absurd (ground arith)

-- The wrapper of an address without pointers is gone.
pub Counted-none :
    (h : Heap) (n k : ℕ → ℕ) (p : ℕ) → Counted h n k → p ≢ 0 → n p ≡ 0 → k p ≡ 0 → h.wrap p ≡ none
Counted-none h n k p v z a b = no_holder (n p) (k p) (h.wrap p) (v.held p z) a b

pub unwatch_null : (h : Heap) → h.wrap 0 ≡ none → unwatch h 0 ≡ none
unfolding unwatch
unwatch_null h e = ground arith
