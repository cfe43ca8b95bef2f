-- ===== src/Config/Appenders/Whole.antt =====
-- `TypeCast` between texts and whole loggers: include/Configurator/Configurator.h.
-- A type of appender that is neither Stdout nor File puts a null pointer in the list of the logger,
-- which its next event reads: `none` here.
use siempre.Base.{
  ◌≡◌, refl, Bool, List, [], ◌∷◌, ◌++◌, Option, none, some, Bytes, codes, ◌>>=◌, map, All, ap, ◌∙◌,
}
use siempre.Logger.Format.{Level, get_string_by_level, get_level_by_string}
use siempre.Logger.Format.Levels.{level-text}
use siempre.Logger.Loggers.{Target, Appender, Logger, Store, find, update, get_logger}
use siempre.Logger.Loggers.Managers.{find-update, map_some, get_logger_lem, first_logger}
use siempre.Config.Cast.{Yaml, to_list, from_list}
use siempre.Config.Cast.RoundTrip.{IsYaml, put_nodes, Pairwise, OtherKey, Survives, list-Survives}
use siempre.Config.Appenders.{YamlText, Wrapper, wrapper_from, wrapper_text, scalar_of, empty_node}
use siempre.Config.Appenders.Wrapped.{IsYamlText, IsUsable, made, type_of, wrapped-Survives}

abbrev pub wrap : Appender → Wrapper
wrap a = record { type = type_of a.target; appender = some a }

abbrev pub appenders_of : List Wrapper → Option (List Appender)
appenders_of [] = some []
appenders_of (w ∷ ws) = do a ← w.appender; rest ← appenders_of ws; some (a ∷ rest)

abbrev pub filled : List Appender → Level → Logger → Logger
filled added l lg = record lg { appenders = lg.appenders ++ added; level = l }

module _ (y : Yaml) (t : YamlText y) where
  pub logger_text : Logger → Option Bytes
  logger_text lg = do
    name ← y.load lg.name
    str ← from_list y (wrapper_text y t) (map wrap lg.appenders)
    appenders ← y.load str
    level ← y.load (get_string_by_level lg.level)
    some (
        y.emit (
          y.put (y.put (y.put (empty_node y t) (codes "name") name) (codes "appenders") appenders)
            (codes "level") level))

  module _ (opens : Bytes → Bool) where
    -- The loggers of the manager after it, and the name of the one that is returned.
    pub logger_from : Store → Bytes → Option (Store × Bytes)
    logger_from m str = do
      node ← y.load str
      n ← t.get node (codes "name")
      name ← t.as_text n
      listed ← t.get node (codes "appenders")
      ws ← to_list y (wrapper_from y t opens) (y.emit listed)
      added ← appenders_of ws
      level ← scalar_of y t node (codes "level")
      some (update (get_logger m name) name (filled added (get_level_by_string level)), name)

    abbrev pub Spec : Type 0
    Spec = Target × Level × Bytes

    abbrev pub made_of : Spec → Appender
    made_of s = made s.0 s.1 s.2

    wrapped_all :
        (specs : List Spec)
        → IsYamlText y t
        → All (λ s. IsUsable y t opens s.0) specs
        → All
            (Survives y (wrapper_from y t opens) (wrapper_text y t))
            (map wrap (map made_of specs))
    wrapped_all [] law u = tt
    wrapped_all (s ∷ specs) law u =
        (wrapped-Survives y t opens s.0 s.1 s.2 law u.0, wrapped_all specs law u.1)

    appenders-wrap : (xs : List Appender) → appenders_of (map wrap xs) ≡ some xs
    appenders-wrap [] = refl
    appenders-wrap (a ∷ xs) = rw (appenders-wrap xs) refl

    -- A logger with appenders that survive the casts, and a name and a level that YAML leaves as they
    -- are, is not read back from its text as it was: its appenders are added to those that the
    -- manager's logger of this name has already, and where there was none, to one of the console.
    pub logger_accumulates :
        (name : Bytes) (l : Level) (specs : List Spec) (m : Store) (nn ln : y.Node)
        → IsYaml y
        → IsYamlText y t
        → All (λ s. IsUsable y t opens s.0) specs
        → y.load name ≡ some nn
        → t.as_text nn ≡ some name
        → y.load (get_string_by_level l) ≡ some ln
        → y.scalar ln ≡ get_string_by_level l
        → let lg : Logger = record { name = name; appenders = map made_of specs; level = l } in
          (str : Bytes) × (m' : Store) × (logger_text lg ≡ some str)
          × (logger_from m str ≡ some (m', name))
          × ((old : Logger)
              → find m name ≡ some old
              → find m' name ≡ some (filled lg.appenders l old))
          × (find m name ≡ none → find m' name ≡ some (filled lg.appenders l (first_logger name)))
    unfolding logger_text logger_from
    logger_accumulates name l specs m nn ln yaml law u e a e' q =
        let xs = map made_of specs in
        let b =
          list-Survives y (wrapper_from y t opens) (wrapper_text y t) yaml (map wrap xs)
            (wrapped_all specs law u) in
        let ms : List (Bytes × y.Node) =
          (codes "name", nn) ∷ (codes "appenders", b.1) ∷ (codes "level", ln) ∷ [] in
        let three : Pairwise OtherKey ms = ((refl, (refl, tt)), ((refl, tt), (tt, tt))) in
        let n = put_nodes y (y.sequence []) ms in
        let gn = law.get-put ms (codes "name") nn three refl in
        let ga = law.get-put ms (codes "appenders") b.1 three refl in
        let gl = law.get-put ms (codes "level") ln three refl in
        let up = find-update (get_logger m name) name (filled xs l) in
        let g = get_logger_lem m name in
        (
          y.emit n,
          update (get_logger m name) name (filled xs l),
          rw (e, b.2, b.3, e') refl,
          rw (law.load-emit n, gn, a, ga, b.5, appenders-wrap xs, gl, q, level-text.0 l) refl,
          λ old f. up ∙ ap (map_some (filled xs l)) (ap (λ w. find w name) (g.0 old f) ∙ f),
          λ f. up ∙ ap (map_some (filled xs l)) (g.1 f),
        )
