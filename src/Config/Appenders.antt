-- ===== src/Config/Appenders.antt =====
-- `TypeCast` between texts and appenders: include/Configurator/Configurator.h.
-- What the casts call of yaml-cpp beyond `Yaml` is a second interface, and so is whether a file opens.
-- `none` is an exception or a null pointer that is read.
pub mod Wrapped
pub mod Whole
use siempre.Base.{
  ◌≡◌, Bool, true, false, List, [], ◌∷◌, Option, none, some, if◌then◌else◌, Bytes, codes, same,
  ◌>>=◌,
}
use siempre.Logger.Format.{Level, get_string_by_level, get_level_by_string}
use siempre.Logger.Loggers.{Target, stdout, file, LogFormatter, new_formatter, Appender}
use siempre.Config.Cast.{Yaml}

pub record YamlText (y : Yaml) : Type 0 where
  -- The node that a text is assigned to, and `node[key]`.
  pub text_node : Bytes → y.Node
  pub get : y.Node → Bytes → Option y.Node
  -- `node.as<std::string>()`
  pub as_text : y.Node → Option Bytes

-- `LogAppenderWrapper`, whose pointer may be null.
pub record Wrapper : Type 0 where
  pub type : Bytes
  pub appender : Option Appender

abbrev pub as_stdout : Option Appender → Option Appender
as_stdout none = none
as_stdout (some a) = stdout_only a.target
  where
    stdout_only : Target → Option Appender
    stdout_only stdout = some a
    stdout_only (file path) = none

-- The file of an appender that writes to one.
abbrev pub as_file : Option Appender → Option (Bytes × Appender)
as_file none = none
as_file (some a) = file_only a.target
  where
    file_only : Target → Option (Bytes × Appender)
    file_only stdout = none
    file_only (file path) = some (path, a)

module _ (y : Yaml) (t : YamlText y) where
  abbrev pub scalar_of : y.Node → Bytes → Option Bytes
  scalar_of node key = do n ← t.get node key; some (y.scalar n)

  abbrev pub empty_node : y.Node
  empty_node = y.sequence []

  pub stdout_from : Bytes → Option Appender
  stdout_from str = do
    node ← y.load str
    pattern ← scalar_of node (codes "formatter")
    fp ← new_formatter pattern
    level ← scalar_of node (codes "level")
    some (record { target = stdout; level = get_level_by_string level; formatter = some fp })

  pub stdout_text : Appender → Option Bytes
  stdout_text a = do
    fp ← a.formatter
    some (
        y.emit (
          y.put (y.put empty_node (codes "level") (t.text_node (get_string_by_level a.level)))
            (codes "formatter") (t.text_node fp.pattern)))

  pub file_text : Bytes → Appender → Option Bytes
  file_text path a = do
    name ← y.load path
    fp ← a.formatter
    some (
        y.emit (
          y.put
            (y.put (y.put empty_node (codes "filename") name) (codes "level")
              (t.text_node (get_string_by_level a.level)))
            (codes "formatter") (t.text_node fp.pattern)))

  abbrev pub typed : Bytes → y.Node
  typed type = y.put empty_node (codes "type") (t.text_node type)

  pub wrapper_text : Wrapper → Option Bytes
  unfolding stdout_text file_text
  wrapper_text w =
      if same w.type (codes "Stdout")
      then (do
        a ← as_stdout w.appender
        str ← stdout_text a
        node ← y.load str
        some (y.emit (y.put (typed w.type) (codes "appender") node)))
      else if same w.type (codes "File")
      then (do
        f ← as_file w.appender
        str ← file_text f.0 f.1
        node ← y.load str
        some (y.emit (y.put (typed w.type) (codes "appender") node)))
      else some (y.emit (typed w.type))

  module _ (opens : Bytes → Bool) where
    pub file_from : Bytes → Option Appender
    file_from str = do
      node ← y.load str
      name ← t.get node (codes "filename")
      path ← if opens (y.emit name) then some (y.emit name) else none
      pattern ← scalar_of node (codes "formatter")
      fp ← new_formatter pattern
      level ← scalar_of node (codes "level")
      some (record { target = file path; level = get_level_by_string level; formatter = some fp })

    -- By the type that the document names.
    abbrev pub typed_appender : Bytes → Bytes → Option Wrapper
    typed_appender type str =
        if same type (codes "Stdout")
        then (do a ← stdout_from str; some (record { type = type; appender = some a }))
        else if same type (codes "File")
        then (do a ← file_from str; some (record { type = type; appender = some a }))
        else some (record { type = type; appender = none })

    pub wrapper_from : Bytes → Option Wrapper
    wrapper_from str = do
      node ← y.load str
      type ← scalar_of node (codes "type")
      app ← t.get node (codes "appender")
      typed_appender type (y.emit app)
