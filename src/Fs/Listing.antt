-- ===== src/Fs/Listing.antt =====
-- What listDir answers.
use siempre.Base.{
  ◌≡◌, refl, sym, ◌∙◌, ap, true, false, not, List, [], ◌∷◌, ◌++◌, map, none, some, keep, arith,
  Bytes, codes, Bool-cases, inl, inr, append_assoc, append-nil,
}
use siempre.Fs.{System, exist, is_dir, is_dots, list_entries, read_dir, list_dir}

abbrev pub below : Bytes → Bytes → Bytes
below path name = path ++ codes "/" ++ name

pub list_entries_lem :
    (path : Bytes) (ret names : List Bytes)
    → list_entries path ret names
      ≡ ret ++ map (below path) (keep (λ name. not (is_dots name)) names)
unfolding list_entries
list_entries_lem path ret [] = sym (append-nil ret)
list_entries_lem path ret (name ∷ names) = elim (Bool-cases (is_dots name)) [
  | inl h ↦ rw h (list_entries_lem path ret names)
  | inr h ↦ rw h (
      list_entries_lem path (ret ++ (below path name ∷ [])) names
      ∙ append_assoc ret (below path name ∷ [])
          (map (below path) (keep (λ n. not (is_dots n)) names)))
]

is_dir-exist : (sys : System) (path : Bytes) → is_dir sys path ≡ true → exist sys path ≡ true
unfolding is_dir
is_dir-exist sys path h = ground arith

-- `listDir` answers nothing for a path that is missing or no directory; for a directory that can be
-- opened it answers the paths of its entries but for "." and "..", in the order in which they are
-- read; a directory that cannot be opened ends the process.
pub list_dir_lem :
    (sys : System) (path : Bytes)
    → (exist sys path ≡ false → list_dir sys path ≡ some [])
      × (is_dir sys path ≡ false → list_dir sys path ≡ some [])
      × ((names : List Bytes)
          → is_dir sys path ≡ true
          → sys.opendir path ≡ some names
          → list_dir sys path ≡ some (map (below path) (keep (λ name. not (is_dots name)) names)))
      × (is_dir sys path ≡ true → sys.opendir path ≡ none → list_dir sys path ≡ none)
unfolding list_dir read_dir
list_dir_lem sys path = (
  λ h. rw h refl,
  λ h. ground arith,
  λ names h o. rw (is_dir-exist sys path h, h, o) (ap some (list_entries_lem path [] names)),
  λ h o. rw (is_dir-exist sys path h, h, o) refl,
)
