-- ===== src/Env/Helps.antt =====
-- The help texts.
use siempre.Base.{◌≡◌, refl, true, false, [], ◌∷◌, ◌++◌, none, some, All}
use siempre.Base.{same}
use siempre.Env.{Word, Helps, drop_help, add_help}

-- A key that has one entry: `addHelp` moves it to the end with the new text, unless it is the last
-- entry already, in which case the iterator of the loop runs past the end of the vector.
abbrev pub Without : Word → Helps → Type 0
Without k hs = All (λ h. same h.0 k ≡ false) hs

drop_absent : (hs : Helps) (k : Word) → Without k hs → drop_help hs k ≡ some hs
unfolding drop_help
drop_absent [] k p = refl
drop_absent (h ∷ []) k p = rw p.0 refl
drop_absent (h ∷ g ∷ hs) k p = rw (p.0, drop_absent (g ∷ hs) k p.1) refl

drop_once :
    (before after : Helps) (h g : Word × Word) (k : Word)
    → Without k before
    → same h.0 k ≡ true
    → Without k after
    → drop_help (before ++ (h ∷ g ∷ after)) k ≡ some (before ++ (g ∷ after))
unfolding drop_help
drop_once [] after h g k p e q = rw (e, drop_absent after k q) refl
drop_once (b ∷ []) after h g k p e q = rw (p.0, drop_once [] after h g k p.1 e q) refl
drop_once (b ∷ c ∷ before) after h g k p e q =
    rw (p.0, drop_once (c ∷ before) after h g k p.1 e q) refl

drop_last :
    (before : Helps) (h : Word × Word) (k : Word)
    → Without k before
    → same h.0 k ≡ true
    → drop_help (before ++ (h ∷ [])) k ≡ none
unfolding drop_help
drop_last [] h k p e = rw e refl
drop_last (b ∷ []) h k p e = rw (p.0, e) refl
drop_last (b ∷ c ∷ before) h k p e = rw (p.0, drop_last (c ∷ before) h k p.1 e) refl

-- `addHelp` appends the entry of a new key. The one entry that a key has is taken out first if
-- another entry is behind it; if it is the last, the iterator runs past the end of the vector.
pub add_help_lem :
    (before after : Helps) (h g : Word × Word) (k text : Word)
    → Without k before
    → Without k after
    → (add_help before k text ≡ some (before ++ ((k, text) ∷ [])))
      × (same h.0 k ≡ true
          → (add_help (before ++ (h ∷ g ∷ after)) k text
              ≡ some ((before ++ (g ∷ after)) ++ ((k, text) ∷ [])))
            × (add_help (before ++ (h ∷ [])) k text ≡ none))
unfolding add_help
add_help_lem before after h g k text p q = (
  rw (drop_absent before k p) refl,
  λ e. (rw (drop_once before after h g k p e q) refl, rw (drop_last before h k p e) refl),
)
