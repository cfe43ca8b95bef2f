-- ===== src/Logger/Format/Levels.antt =====
-- Levels and their texts.
use siempre.Base.{
  ◌≡◌, ◌⊎◌, inl, inr, refl, if◌then◌else◌, Bytes, codes, same, same_eq, Bool-cases, ◌∙◌,
}
use siempre.Logger.Format.{
  Level, unknow, debug, info, warn, error, fatal, get_string_by_level, get_level_by_string,
}

back : (l : Level) → get_level_by_string (get_string_by_level l) ≡ l
unfolding get_string_by_level get_level_by_string
back unknow = refl
back debug = refl
back info = refl
back warn = refl
back error = refl
back fatal = refl

abbrev Known : Bytes → Level → Type 0
Known str l = (l ≡ unknow) ⊎ (get_string_by_level l ≡ str)

choose :
    (t str : Bytes) (l rest : Level)
    → get_string_by_level l ≡ t
    → Known str rest
    → Known str (if same t str then l else rest)
choose t str l rest e k = elim (Bool-cases (same t str)) [
  | inl f ↦ rw f (inr (e ∙ same_eq t str f))
  | inr f ↦ rw f k
]

-- A level is read back from its text, and a text that is no level's is read as the unknown one.
pub level-text :
    ((l : Level) → get_level_by_string (get_string_by_level l) ≡ l)
    × ((str : Bytes)
        → (get_level_by_string str ≡ unknow)
          ⊎ (get_string_by_level (get_level_by_string str) ≡ str))
unfolding get_string_by_level get_level_by_string
level-text = (
  back,
  λ str. choose (codes "DEBUG") str debug _ refl (
      choose (codes "INFO") str info _ refl (
        choose (codes "WARN") str warn _ refl (
          choose (codes "ERROR") str error _ refl
            (choose (codes "FATAL") str fatal unknow refl (inl refl))))),
)
