-- ===== src/Env/Tests.antt =====
-- Runs of the command line and the help texts.
use siempre.Base.{◌≡◌, refl, List, [], ◌∷◌, Option, none, some}
use siempre.Env.{Word, Args, init, parse, add, find_arg, has, started}
use siempre.Env.Parse.{init-print, print, last_value}

abbrev words : List Word
words = (45 ∷ 99 ∷ []) ∷ (109 ∷ []) ∷ (45 ∷ 100 ∷ []) ∷ []

init_run : init words ≡ started ((99 ∷ [], 109 ∷ []) ∷ (100 ∷ [], []) ∷ [])
unfolding init parse add has find_arg
init_run = refl

-- A key twice, and one without a value.
abbrev options : List (Word × Option Word)
options = (99 ∷ [], some (109 ∷ [])) ∷ (100 ∷ [], none) ∷ (99 ∷ [], some (110 ∷ [])) ∷ []

init-print_example :
    (m : Args) × ((j : Word) → find_arg m j ≡ last_value options j)
    × (init (print options) ≡ started m)
init-print_example = init-print options (refl, (tt, (refl, tt)))
