-- ===== src/Fs/Kinds.antt =====
-- The answers of isDir, isFile, isLink, isCharDevice and isBlockDevice about one path.
use siempre.Base.{
  ℕ, ◌+◌, ◌≡◌, ◌≢◌, refl, Bool, true, false, Option, none, some, if◌then◌else◌, is_some, arith,
  Bytes,
}
use siempre.Fs.{
  Kind, directory, regular, link, char_device, block_device, other, System, exist, mode, is_dir,
  is_file, is_link, is_char_device, is_block_device,
}

-- What access and stat promise: both follow symbolic links, so stat never answers that a file is one,
-- and stat succeeds for a path that access finds.
pub record FollowsLinks (sys : System) : Type 0 where
  pub never_link : (path : Bytes) → sys.stat path ≢ some link
  pub found : (path : Bytes) → sys.access path ≡ true → is_some (sys.stat path) ≡ true

abbrev one_if : Bool → ℕ
one_if b = if b then 1 else 0

-- How many of the five questions are answered with true.
abbrev pub answers : System → Bytes → ℕ
answers sys path =
    one_if (is_dir sys path)
    + one_if (is_file sys path)
    + one_if (is_link sys path)
    + one_if (is_char_device sys path)
    + one_if (is_block_device sys path)

abbrev pub is_other : Kind → Bool
is_other other = true
is_other _ = false

-- Of a path that does not exist every question is answered with false; of one that exists exactly one
-- is answered with true, unless the file is a pipe or a socket, for which none is. `isLink` answers
-- false of every path, symbolic links included.
pub kinds_lem :
    (sys : System) (path : Bytes)
    → FollowsLinks sys
    → (is_link sys path ≡ false)
      × (exist sys path ≡ false → answers sys path ≡ 0)
      × (exist sys path ≡ true → answers sys path + one_if (is_other (mode sys path)) ≡ 1)
unfolding is_dir is_file is_link is_char_device is_block_device exist
kinds_lem sys path f = go (sys.stat path) refl
  where
    go :
        (o : Option Kind)
        → sys.stat path ≡ o
        → (is_link sys path ≡ false)
          × (exist sys path ≡ false → answers sys path ≡ 0)
          × (exist sys path ≡ true → answers sys path + one_if (is_other (mode sys path)) ≡ 1)
    go none e = (
      ground (arith, e, f.found path),
      λ h. ground (arith, h),
      λ h. absurd (ground (arith, e, f.found path, h)),
    )
    go (some directory) e = (ground (arith, e), λ h. ground (arith, h), λ h. ground (arith, e, h))
    go (some regular) e = (ground (arith, e), λ h. ground (arith, h), λ h. ground (arith, e, h))
    go (some link) e = absurd (f.never_link path e)
    go (some char_device) e = (ground (arith, e), λ h. ground (arith, h), λ h. ground (arith, e, h))
    go (some block_device) e =
        (ground (arith, e), λ h. ground (arith, h), λ h. ground (arith, e, h))
    go (some other) e = (ground (arith, e), λ h. ground (arith, h), λ h. ground (arith, e, h))
