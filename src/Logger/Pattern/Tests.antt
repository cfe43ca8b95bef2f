-- ===== src/Logger/Pattern/Tests.antt =====
-- Runs of patterns.
use siempre.Base.{◌≡◌, refl, true, [], ◌∷◌, some, is_some, ap, codes, arith}
use siempre.Logger.Pattern.{
  text, directive, tokens, init, string_item, error_format, parse, scan_name, scan_format, item_of,
  find_item, new_date_time, tab_item, date_time_item,
}
use siempre.Logger.Pattern.Print.{tokens-print}
use siempre.Logger.Pattern.Total.{tokens_total}

init_run :
    init (codes "x%d{%H}%T%q")
    ≡ some (
        string_item (codes "x")
        ∷ date_time_item (codes "%H")
        ∷ tab_item
        ∷ string_item (error_format (codes "q"))
        ∷ [])
unfolding init tokens parse scan_name scan_format item_of find_item new_date_time
init_run = refl

-- A format that is not closed: the error stands first, and the directive is read as text.
unclosed_run :
    tokens (codes "a%d{b") ≡ some (text (codes "<<pattern_error>>") ∷ text (codes "ad{b") ∷ [])
unfolding tokens parse scan_name scan_format
unclosed_run = refl

tokens-print_example :
    tokens (codes "a %d{%H}%T%m")
    ≡ some (
        text (codes "a ")
        ∷ directive (codes "d") (codes "%H")
        ∷ directive (codes "T") []
        ∷ directive (codes "m") []
        ∷ [])
tokens-print_example =
    tokens-print
      (text (codes "a ")
        ∷ directive (codes "d") (codes "%H")
        ∷ directive (codes "T") []
        ∷ directive (codes "m") []
        ∷ [])
      (
        ground arith,
        (refl, (refl, tt)),
        tt,
        (
          ground arith,
          (refl, tt),
          (refl, (refl, tt)),
          (λ e. ground arith),
          (
            ground arith,
            (refl, tt),
            tt,
            (λ e. (refl, refl)),
            (ground arith, (refl, tt), tt, (λ e. tt), tt),
          ),
        ),
      )

tokens_total_example : is_some (tokens (codes "%{%%")) ≡ true
tokens_total_example = ap is_some (tokens_total (codes "%{%%")).1
