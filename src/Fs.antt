-- ===== src/Fs.antt =====
-- Questions about files: src/fs/fs.cc and include/fs/fs.h.
-- What the operating system answers is a parameter. `stat` is `none` where the call fails; it then
-- leaves the caller's struct as it was found, with a mode that is `left_over`. A directory is read as
-- the list of the names of its entries; `opendir` is `none` where it answers a null pointer, and
-- readdir of a null pointer ends the process, which is the `none` of `list_dir`.
pub mod Kinds
pub mod Listing
mod Tests
use Prim.Native.Nat.{bit_and}
use siempre.Base.{
  ℕ, Bool, true, false, not, ◌||◌, List, [], ◌∷◌, ◌++◌, Option, none, some, ◌==◌, if◌then◌else◌,
  Bytes, codes, same,
}

-- The types of a file that the macros S_ISDIR to S_ISBLK tell apart.
pub data Kind : Type 0 where
  directory regular link char_device block_device other : Kind

pub record System : Type 0 where
  pub access : Bytes → Bool
  pub stat : Bytes → Option Kind
  pub left_over : Kind
  pub opendir : Bytes → Option (List Bytes)

abbrev pub is_directory : Kind → Bool
is_directory directory = true
is_directory _ = false

abbrev pub is_regular : Kind → Bool
is_regular regular = true
is_regular _ = false

abbrev pub is_a_link : Kind → Bool
is_a_link link = true
is_a_link _ = false

abbrev pub is_char : Kind → Bool
is_char char_device = true
is_char _ = false

abbrev pub is_block : Kind → Bool
is_block block_device = true
is_block _ = false

pub exist : System → Bytes → Bool
exist sys path = sys.access path

-- The mode that the caller's struct holds behind the call of `stat`.
abbrev pub mode : System → Bytes → Kind
mode sys path = elim (sys.stat path) [ none ↦ sys.left_over | some k ↦ k ]

pub is_dir : System → Bytes → Bool
unfolding exist
is_dir sys path = if not (exist sys path) then false else is_directory (mode sys path)

pub is_file : System → Bytes → Bool
unfolding exist
is_file sys path = if not (exist sys path) then false else is_regular (mode sys path)

pub is_link : System → Bytes → Bool
unfolding exist
is_link sys path = if not (exist sys path) then false else is_a_link (mode sys path)

pub is_char_device : System → Bytes → Bool
unfolding exist
is_char_device sys path = if not (exist sys path) then false else is_char (mode sys path)

pub is_block_device : System → Bytes → Bool
unfolding exist
is_block_device sys path = if not (exist sys path) then false else is_block (mode sys path)

abbrev pub is_dots : Bytes → Bool
is_dots name = same name (codes ".") || same name (codes "..")

-- The loop of `listDir` over the entries, with the vector so far.
pub list_entries : Bytes → List Bytes → List Bytes → List Bytes
list_entries path ret [] = ret
list_entries path ret (name ∷ names) =
    list_entries path (if is_dots name then ret else ret ++ ((path ++ codes "/" ++ name) ∷ []))
      names

read_dir : Bytes → Option (List Bytes) → Option (List Bytes)
unfolding list_entries
read_dir path none = none
read_dir path (some names) = some (list_entries path [] names)

pub list_dir : System → Bytes → Option (List Bytes)
unfolding read_dir
list_dir sys path =
    if not (exist sys path)
    then some []
    else if not (is_dir sys path)
    then some []
    else read_dir path (sys.opendir path)

-- PermissionType
pub data PermissionType : Type 0 where
  none_set readable writable executable : PermissionType

-- A field that was never written is `none`.
pub record Permission : Type 0 where
  pub read_permission : Option PermissionType
  pub write_permission : Option PermissionType
  pub exec_permission : Option PermissionType

-- The constructor, whose three branches write the same field.
pub permission : ℕ → Permission
permission bits = record {
  read_permission =
      let start : Option PermissionType = none in
      let first = if not (bit_and bits 4 == 0) then some readable else start in
      let second = if not (bit_and bits 2 == 0) then some writable else first in
      if not (bit_and bits 1 == 0) then some executable else second;
  write_permission = none;
  exec_permission = none;
}

-- `Path::join`
pub join : Bytes → Bytes → Bytes
join path file = path ++ file
