-- ===== src/SharedPtr.antt =====
-- Shared and weak pointers: include/template/shared_ptr.hpp.
-- The heap holds the wrappers by address; `wrap a` is `none` where there is none, or where it was
-- deleted, and address 0 is the null pointer. `deleted` lists the values given to `delete`. A step is
-- `none` where the code reads a wrapper that is not there (undefined behaviour), or where a counter
-- would go below 0. The addresses of new wrappers are arguments; the counters are unbounded.
mod Counts
mod Valid
mod Steps
mod Tests
use siempre.Base.{
  ℕ, zero, suc, ◌+◌, Bool, true, false, not, ◌&&◌, List, ◌∷◌, Option, none, some, ◌==◌,
  if◌then◌else◌, ◌>>=◌, at_put, get_elem?, set, remove, is_some,
}

pub record Wrapper : Type 0 where
  pub val : Option ℕ
  pub use_count : ℕ
  pub ref_count : ℕ

pub record Heap : Type 0 where
  pub wrap : ℕ → Option Wrapper
  pub deleted : List ℕ

abbrev pub store : Heap → ℕ → Option Wrapper → Heap
store h p r = record h { wrap = at_put h.wrap p r }

abbrev pub below : ℕ → Option ℕ
below zero = none
below (suc n) = some n

abbrev pub new_wrapper : Option ℕ → Wrapper
new_wrapper v = record { val = v; use_count = 1; ref_count = 1 }

abbrev pub add_ref : Wrapper → Wrapper
add_ref r = record r { ref_count = r.ref_count + 1 }

abbrev pub add_use : Wrapper → Wrapper
add_use r = add_ref (record r { use_count = r.use_count + 1 })

abbrev pub del_ref : Wrapper → Option Wrapper
del_ref r = do n ← below r.ref_count; some (record r { ref_count = n })

abbrev pub del_use : Wrapper → Option Wrapper
del_use r = do r' ← del_ref r; n ← below r'.use_count; some (record r' { use_count = n })

abbrev pub delete_value : Option ℕ → List ℕ → List ℕ
delete_value none d = d
delete_value (some v) d = v ∷ d

-- `destroy` deletes the value and keeps the wrapper; the destructor runs when the wrapper goes.
abbrev pub destroy : Heap → ℕ → Wrapper → Heap
destroy h p r = record {
  wrap = at_put h.wrap p (some (record r { val = none; use_count = 0 }));
  deleted = delete_value r.val h.deleted;
}

abbrev pub delete_wrapper : Heap → ℕ → Wrapper → Heap
delete_wrapper h p r = record {
  wrap = at_put h.wrap p none;
  deleted = delete_value r.val h.deleted;
}

-- What `operator=`, both forms of `reset` and `~shared_ptr` do first.
abbrev pub drop_use : Heap → ℕ → Wrapper → Option Heap
drop_use h p r = if r.use_count == 0 then some h else (do
  r' ← del_use r
  some (if r'.use_count == 0 then destroy h p r' else store h p (some r')))

abbrev pub delete_unused : Heap → ℕ → Option Heap
delete_unused h p = do r ← h.wrap p; some (if r.ref_count == 0 then delete_wrapper h p r else h)

pub leave : Heap → ℕ → Option Heap
leave h p = do r ← h.wrap p; h' ← drop_use h p r; delete_unused h' p

pub enter : Heap → ℕ → Option Heap
enter h p = do r ← h.wrap p; some (store h p (some (add_use r)))

pub watch : Heap → ℕ → Option Heap
watch h p = do r ← h.wrap p; some (store h p (some (add_ref r)))

-- What `~weak_ptr` and both assignments to a weak pointer do first.
pub unwatch : Heap → ℕ → Option Heap
unwatch h p = do r ← h.wrap p; r' ← del_ref r; delete_unused (store h p (some r')) p

-- The pointers that exist, as the addresses in their `m_wrap`, the newest first.
pub record World : Type 0 where
  pub heap : Heap
  pub shared : List ℕ
  pub weak : List ℕ

-- The calls: `make v a` constructs from a raw pointer with the wrapper at `a`; a number names a
-- pointer by its place.
pub data Op : Type 0 where
  make : Option ℕ → ℕ → Op
  copy : ℕ → Op
  assign : ℕ → ℕ → Op
  reset : ℕ → Option ℕ → ℕ → Op
  reset_to : ℕ → ℕ → Op
  swap : ℕ → ℕ → Op
  destruct : ℕ → Op
  weak_make : ℕ → Op
  weak_copy : ℕ → Op
  weak_null : Op
  weak_destruct : ℕ → Op
  weak_assign : ℕ → ℕ → Op
  weak_assign_weak : ℕ → ℕ → Op
  weak_swap : ℕ → ℕ → Op

abbrev pub rebind : World → ℕ → ℕ → ℕ → Option World
rebind s i p q = do
  h ← leave s.heap p
  h' ← enter h q
  some (record s { heap = h'; shared = set s.shared i q })

abbrev pub weak_rebind : World → ℕ → ℕ → ℕ → Option World
weak_rebind s k p q = do
  h ← unwatch s.heap p
  h' ← watch h q
  some (record s { heap = h'; weak = set s.weak k q })

abbrev pub exchange : List ℕ → ℕ → ℕ → ℕ → ℕ → List ℕ
exchange xs i j p q = set (set xs j p) i q

pub step : World → Op → Option World
step s (make v a) =
    some (record s { heap = store s.heap a (some (new_wrapper v)); shared = a ∷ s.shared })
step s (copy i) = do
  p ← get_elem? s.shared i
  h ← enter s.heap p
  some (record s { heap = h; shared = p ∷ s.shared })
step s (assign i j) = do p ← get_elem? s.shared i; q ← get_elem? s.shared j; rebind s i p q
step s (reset i v a) = do
  p ← get_elem? s.shared i
  h ← leave s.heap p
  some (record s { heap = store h a (some (new_wrapper v)); shared = set s.shared i a })
step s (reset_to i j) = do p ← get_elem? s.shared i; q ← get_elem? s.shared j; rebind s i p q
step s (swap i j) = do
  p ← get_elem? s.shared i
  q ← get_elem? s.shared j
  some (record s { shared = exchange s.shared i j p q })
step s (destruct i) = do
  p ← get_elem? s.shared i
  h ← leave s.heap p
  some (record s { heap = h; shared = remove s.shared i })
step s (weak_make i) = do
  p ← get_elem? s.shared i
  h ← watch s.heap p
  some (record s { heap = h; weak = p ∷ s.weak })
step s (weak_copy k) = do
  p ← get_elem? s.weak k
  h ← watch s.heap p
  some (record s { heap = h; weak = p ∷ s.weak })
step s weak_null = some (record s { weak = 0 ∷ s.weak })
step s (weak_destruct k) = do
  p ← get_elem? s.weak k
  h ← unwatch s.heap p
  some (record s { heap = h; weak = remove s.weak k })
step s (weak_assign k i) = do p ← get_elem? s.weak k; q ← get_elem? s.shared i; weak_rebind s k p q
step s (weak_assign_weak k l) = do
  p ← get_elem? s.weak k
  q ← get_elem? s.weak l
  weak_rebind s k p q
step s (weak_swap k l) = do
  p ← get_elem? s.weak k
  q ← get_elem? s.weak l
  some (record s { weak = exchange s.weak k l p q })

-- What a pointer shows: `operator bool`, and `get`, which throws (`none`) where that is false.
abbrev pub value_of : Option Wrapper → Option ℕ
value_of none = none
value_of (some r) = if r.use_count == 0 then none else r.val

pub get : World → ℕ → Option ℕ
get s i = do p ← get_elem? s.shared i; value_of (s.heap.wrap p)
