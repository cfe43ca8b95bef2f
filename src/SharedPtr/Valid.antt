-- ===== src/SharedPtr/Valid.antt =====
-- Which worlds of shared and weak pointers are valid, and which calls may be made in them.
use siempre.Base.{ℕ, ◌≡◌, ◌≢◌, ◌≤◌, none, some, get_elem?, count}
use siempre.SharedPtr.{
  Heap, World, Op, make, copy, assign, reset, reset_to, swap, destruct, weak_make, weak_copy,
  weak_null, weak_destruct, weak_assign, weak_assign_weak, weak_swap, step, leave,
}
use siempre.SharedPtr.Counts.{Counted, value}

abbrev pub owners : World → ℕ → ℕ
owners s x = count x s.shared

abbrev pub watchers : World → ℕ → ℕ
watchers s x = count x s.weak

-- The counters of every wrapper are the numbers of pointers to it, no wrapper without a pointer is
-- left, and no shared pointer is null.
abbrev pub IsValid : World → Type 0
IsValid s = Counted s.heap (owners s) (watchers s)

abbrev pub Shared : World → ℕ → Type 0
Shared s i = (p : ℕ) × (get_elem? s.shared i ≡ some p)

abbrev pub Weak : World → ℕ → Type 0
Weak s k = (p : ℕ) × (get_elem? s.weak k ≡ some p)

abbrev pub WeakSet : World → ℕ → Type 0
WeakSet s k = (p : ℕ) × (get_elem? s.weak k ≡ some p) × (p ≢ 0)

-- When a call may be made: the pointers exist, `new` answers an address that is free, no pointer is
-- assigned to itself, and a weak pointer that is read, assigned or destroyed is not null.
abbrev pub Permitted : World → Op → Type 0
Permitted s (make v a) = (a ≢ 0) × (s.heap.wrap a ≡ none)
Permitted s (copy i) = Shared s i
Permitted s (assign i j) = Shared s i × Shared s j × (i ≢ j)
Permitted s (reset i v a) =
    Shared s i
    × (a ≢ 0)
    × ((p : ℕ) (h : Heap)
        → get_elem? s.shared i ≡ some p
        → leave s.heap p ≡ some h
        → h.wrap a ≡ none)
Permitted s (reset_to i j) = Shared s i × Shared s j × (i ≢ j)
Permitted s (swap i j) = Shared s i × Shared s j
Permitted s (destruct i) = Shared s i
Permitted s (weak_make i) = Shared s i
Permitted s (weak_copy k) = WeakSet s k
Permitted s weak_null = Unit
Permitted s (weak_destruct k) = WeakSet s k
Permitted s (weak_assign k i) = WeakSet s k × Shared s i
Permitted s (weak_assign_weak k l) = WeakSet s k × WeakSet s l × (k ≢ l)
Permitted s (weak_swap k l) = Weak s k × Weak s l

abbrev pub new_address : Op → ℕ
new_address (make v a) = a
new_address (reset i v a) = a
new_address _ = 0

-- A call that may be made runs without a fault, the result is valid, and every value with a shared
-- owner before and after is still the same.
abbrev pub Runs : World → Op → Type 0
Runs s op =
    (s' : World) × (step s op ≡ some s')
    × IsValid s'
    × ((x : ℕ)
        → x ≢ new_address op
        → 1 ≤ owners s x
        → 1 ≤ owners s' x
        → value s'.heap x ≡ value s.heap x)
