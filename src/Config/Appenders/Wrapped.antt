-- ===== src/Config/Appenders/Wrapped.antt =====
-- Appenders survive being written to a document and read back.
use siempre.Base.{
  ◌≡◌, refl, Bool, true, List, [], ◌∷◌, Option, none, some, if◌then◌else◌, Bytes, codes, same, ◌∙◌,
}
use siempre.Logger.Format.{Level, get_string_by_level}
use siempre.Logger.Format.Levels.{level-text}
use siempre.Logger.Loggers.{Target, stdout, file, new_formatter, Appender}
use siempre.Logger.Loggers.Logs.{new_formatter_lem}
use siempre.Config.Cast.{Yaml}
use siempre.Config.Cast.RoundTrip.{put_nodes, Pairwise, OtherKey, Survives}
use siempre.Config.Appenders.{
  YamlText, Wrapper, stdout_from, stdout_text, file_from, file_text, wrapper_from, wrapper_text,
  typed, typed_appender,
}

abbrev pub entry : {A : Type 0} → List (Bytes × A) → Bytes → Option A
entry [] k = none
entry (m ∷ ms) k = let later = entry ms k in if same m.0 k then some m.1 else later

-- What yaml-cpp documents: a node that is emitted is loaded again, a text that is assigned to a node is
-- its scalar, and a map that is begun on an empty sequence has the entries that were assigned, if
-- their keys differ.
pub record IsYamlText (y : Yaml) (t : YamlText y) : Type 0 where
  pub load-emit : (n : y.Node) → y.load (y.emit n) ≡ some n
  pub scalar_text : (s : Bytes) → y.scalar (t.text_node s) ≡ s
  pub get-put :
      (ms : List (Bytes × y.Node)) (k : Bytes) (n : y.Node)
      → Pairwise OtherKey ms
      → entry ms k ≡ some n
      → t.get (put_nodes y (y.sequence []) ms) k ≡ some n

-- An appender whose formatter was made of a pattern, in its wrapper.
abbrev pub made : Target → Level → Bytes → Appender
made target l pattern = record { target = target; level = l; formatter = new_formatter pattern }

abbrev pub type_of : Target → Bytes
type_of stdout = codes "Stdout"
type_of (file path) = codes "File"

abbrev pub wrapped : Target → Level → Bytes → Wrapper
wrapped target l pattern = record { type = type_of target; appender = some (made target l pattern) }

module _ (y : Yaml) (t : YamlText y) (opens : Bytes → Bool) where
  -- A file that can be opened, and whose name is a text that YAML leaves as it is.
  abbrev pub IsUsable : Target → Type 0
  IsUsable stdout = Unit
  IsUsable (file path) =
      (opens path ≡ true) × (n : y.Node) × (y.load path ≡ some n) × (y.emit n ≡ path)

  stdout_back :
      (l : Level) (pattern : Bytes)
      → IsYamlText y t
      → (s : Bytes) × (n : y.Node) × (stdout_text y t (made stdout l pattern) ≡ some s)
        × (y.load s ≡ some n)
        × (stdout_from y t (y.emit n) ≡ some (made stdout l pattern))
  unfolding stdout_text stdout_from
  stdout_back l pattern law =
      let f = new_formatter_lem pattern in
      let ms : List (Bytes × y.Node) =
        (codes "level", t.text_node (get_string_by_level l))
        ∷ (codes "formatter", t.text_node pattern)
        ∷ [] in
      let two : Pairwise OtherKey ms = ((refl, tt), (tt, tt)) in
      let n = put_nodes y (y.sequence []) ms in
      let gl = law.get-put ms (codes "level") (t.text_node (get_string_by_level l)) two refl in
      let gf = law.get-put ms (codes "formatter") (t.text_node pattern) two refl in
      (
        y.emit n,
        n,
        rw f.1 refl,
        law.load-emit n,
        rw
            (
              law.load-emit n,
              gf,
              gl,
              law.scalar_text pattern,
              law.scalar_text (get_string_by_level l),
              f.1,
              level-text.0 l,
            )
            refl,
      )

  file_back :
      (path : Bytes) (l : Level) (pattern : Bytes)
      → IsYamlText y t
      → IsUsable (file path)
      → (s : Bytes) × (n : y.Node) × (file_text y t path (made (file path) l pattern) ≡ some s)
        × (y.load s ≡ some n)
        × (file_from y t opens (y.emit n) ≡ some (made (file path) l pattern))
  unfolding file_text file_from
  file_back path l pattern law (o, name, e, q) =
      let f = new_formatter_lem pattern in
      let ms : List (Bytes × y.Node) =
        (codes "filename", name)
        ∷ (codes "level", t.text_node (get_string_by_level l))
        ∷ (codes "formatter", t.text_node pattern)
        ∷ [] in
      let three : Pairwise OtherKey ms = ((refl, (refl, tt)), ((refl, tt), (tt, tt))) in
      let n = put_nodes y (y.sequence []) ms in
      let gn = law.get-put ms (codes "filename") name three refl in
      let gl = law.get-put ms (codes "level") (t.text_node (get_string_by_level l)) three refl in
      let gf = law.get-put ms (codes "formatter") (t.text_node pattern) three refl in
      (
        y.emit n,
        n,
        rw (e, f.1) refl,
        law.load-emit n,
        rw
            (
              law.load-emit n,
              gn,
              q,
              o,
              gf,
              gl,
              law.scalar_text pattern,
              law.scalar_text (get_string_by_level l),
              f.1,
              level-text.0 l,
            )
            refl,
      )

  -- The document of a type and the node of an appender.
  document_back :
      (type : Bytes) (node : y.Node)
      → IsYamlText y t
      → let n = y.put (typed y t type) (codes "appender") node in
        wrapper_from y t opens (y.emit n) ≡ typed_appender y t opens type (y.emit node)
  unfolding wrapper_from
  document_back type node law =
      let ms : List (Bytes × y.Node) =
        (codes "type", t.text_node type) ∷ (codes "appender", node) ∷ [] in
      let two : Pairwise OtherKey ms = ((refl, tt), (tt, tt)) in
      let n = put_nodes y (y.sequence []) ms in
      let gt = law.get-put ms (codes "type") (t.text_node type) two refl in
      let ga = law.get-put ms (codes "appender") node two refl in
      rw (law.load-emit n, gt, ga, law.scalar_text type) refl

  -- A wrapped appender, of the console or of a usable file, with a formatter made of any pattern, is
  -- read back from its text with its target, level and formatter, also as an element of a list;
  -- provided that yaml-cpp reads back the nodes it writes and finds what was assigned to them.
  pub wrapped-Survives :
      (target : Target) (l : Level) (pattern : Bytes)
      → IsYamlText y t
      → IsUsable target
      → Survives y (wrapper_from y t opens) (wrapper_text y t) (wrapped target l pattern)
  unfolding wrapper_text
  wrapped-Survives stdout l pattern law u =
      let b = stdout_back l pattern law in
      let n = y.put (typed y t (codes "Stdout")) (codes "appender") b.1 in
      (
        y.emit n,
        n,
        rw (b.2, b.3) refl,
        law.load-emit n,
        document_back (codes "Stdout") b.1 law ∙ rw b.4 refl,
      )
  wrapped-Survives (file path) l pattern law u =
      let b = file_back path l pattern law u in
      let n = y.put (typed y t (codes "File")) (codes "appender") b.1 in
      (
        y.emit n,
        n,
        rw (b.2, b.3) refl,
        law.load-emit n,
        document_back (codes "File") b.1 law ∙ rw b.4 refl,
      )
