-- ===== src/Fs/Tests.antt =====
-- A small tree of files: a directory "d", a file "d/f" and a link to it, "l".
use siempre.Base.{
  ◌+◌, ◌≡◌, ◌≢◌, refl, true, false, ◌||◌, [], ◌∷◌, Option, none, some, if◌then◌else◌, is_some,
  Bytes, codes, same, arith,
}
use siempre.Fs.{
  Kind, directory, regular, link, other, System, exist, is_link, is_dir, permission, executable,
}
use siempre.Fs.Kinds.{FollowsLinks, answers, kinds_lem}

abbrev small_stat : Bytes → Option Kind
small_stat path =
    if same path (codes "d")
    then some directory
    else if same path (codes "d/f") || same path (codes "l")
    then some regular
    else none

abbrev small : System
small = record {
  access = λ path. is_some (small_stat path);
  stat = small_stat;
  left_over = other;
  opendir = λ path.
      if same path (codes "d") then some (codes "." ∷ codes ".." ∷ codes "f" ∷ []) else none;
}

never_regular : regular ≢ link
never_regular e = ground arith

small-FollowsLinks : FollowsLinks small
small-FollowsLinks = record { never_link = λ path e. ground arith; found = λ path h. h }

kinds_lem_example :
    (is_link small (codes "l") ≡ false)
    × (exist small (codes "l") ≡ false → answers small (codes "l") ≡ 0)
    × (exist small (codes "l") ≡ true → answers small (codes "l") + 0 ≡ 1)
kinds_lem_example = kinds_lem small (codes "l") small-FollowsLinks

d_is_dir : is_dir small (codes "d") ≡ true
unfolding is_dir
d_is_dir = refl

permission-all : (permission 7).read_permission ≡ some executable
unfolding permission
permission-all = refl
