-- ===== src/Logger/Loggers.antt =====
-- Loggers, their appenders and their manager: src/Logger/Logger.cc.
-- The manager keeps its loggers by name, the root among them under its name; shared pointers to one
-- logger are its name. A null formatter is `none`, and printing through it is a fault, `none`. What is
-- written is a list of lines with their targets; colours and the opening of files are left out.
pub mod Logs
pub mod Managers
pub mod Macros
mod Tests
use siempre.Base.{
  ℕ, ◌≡◌, refl, Bool, true, false, List, [], ◌∷◌, ◌++◌, Option, none, some, if◌then◌else◌, is_empty,
  Bytes, codes, same, map, ◌>>=◌, get_elem?, set, remove,
}
use siempre.Logger.Pattern.{Item, init}
use siempre.Logger.Format.{Level, debug, reaches, LogEvent, format}

pub data Target : Type 0 where
  stdout : Target
  file : Bytes → Target

-- A formatter with the pattern it was made of.
pub record LogFormatter : Type 0 where
  pub pattern : Bytes
  pub items : List Item

abbrev pub new_formatter : Bytes → Option LogFormatter
new_formatter str = do is ← init str; some (record { pattern = str; items = is })

pub record Appender : Type 0 where
  pub target : Target
  pub level : Level
  pub formatter : Option LogFormatter

pub record Logger : Type 0 where
  pub name : Bytes
  pub appenders : List Appender
  pub level : Level

abbrev pub Line : Type 0
Line = Target × Bytes

abbrev pub sysfmt : Bytes
sysfmt = codes "%d%T%c%T%p%T thread: %t%T fiber: %F%T%T%T%m"

abbrev pub new_logger : Bytes → Logger
new_logger n = record { name = n; appenders = []; level = debug }

abbrev pub new_appender : Target → Appender
new_appender t = record { target = t; level = debug; formatter = none }

pub add_appender : Logger → Appender → Logger
add_appender lg a = record lg { appenders = lg.appenders ++ (a ∷ []) }

-- `LogAppender::setFormatter`.
abbrev pub with_formatter : Option LogFormatter → Appender → Appender
with_formatter f a = record a { formatter = f }

pub set_formatter : Logger → Bytes → Logger
set_formatter lg fmt = record lg {
  appenders = map (with_formatter (new_formatter fmt)) lg.appenders;
}

abbrev pub Store : Type 0
Store = List (Bytes × Logger)

abbrev pub find : Store → Bytes → Option Logger
find [] n = none
find (x ∷ xs) n = let rest = find xs n in if same x.0 n then some x.1 else rest

abbrev pub update : Store → Bytes → (Logger → Logger) → Store
update [] n f = []
update (x ∷ xs) n f = let rest = update xs n f in if same x.0 n then (x.0, f x.1) ∷ xs else x ∷ rest

abbrev pub root : Bytes
root = codes "root"

-- The `setLevel` of the logger with a name.
pub set_level : Store → Bytes → Level → Store
set_level m n l = update m n (λ lg. record lg { level = l })

-- `setFormatter` of the logger with a name.
pub set_format_of : Store → Bytes → Bytes → Store
unfolding set_formatter
set_format_of m n fmt = update m n (λ lg. set_formatter lg fmt)

pub new_manager : Store
unfolding add_appender set_formatter
new_manager =
    (root, set_formatter (add_appender (new_logger root) (new_appender stdout)) sysfmt) ∷ []

pub get_logger : Store → Bytes → Store
unfolding add_appender set_formatter
get_logger m n = or_new (find m n)
  where
    or_new : Option Logger → Store
    or_new (some lg) = m
    or_new none =
        m ++ ((n, set_formatter (add_appender (new_logger n) (new_appender stdout)) sysfmt) ∷ [])

pub set_root_format : Store → Bytes → Store
unfolding set_formatter
set_root_format m fmt = update m root (λ lg. set_formatter lg fmt)

-- `opens` is whether the file can be opened; if not, the constructor of FileLogAppender throws, and
-- there is no result.
pub add_root_file_appender : Store → Bytes → Bool → Option Store
unfolding add_appender
add_root_file_appender m path opens =
    if is_empty path
    then some m
    else if opens
    then some (update m root (λ lg. add_appender lg (new_appender (file path))))
    else none

module _ (strftime : Bytes → ℕ → Bytes) where
  -- `StdoutLogAppender::Log` and `FileLogAppender::Log`.
  pub append_log : Appender → Level → LogEvent → Option (List Line)
  append_log a l e =
      if reaches l a.level
      then (do f ← a.formatter; some ((a.target, format strftime f.items l e) ∷ []))
      else some []

  pub log_all : List Appender → Level → LogEvent → Option (List Line)
  unfolding append_log
  log_all [] l e = some []
  log_all (a ∷ as') l e = do line ← append_log a l e; rest ← log_all as' l e; some (line ++ rest)

  -- `Logger::Log`.
  pub log : Logger → Level → LogEvent → Option (List Line)
  unfolding log_all
  log lg l e = if reaches l lg.level then log_all lg.appenders l e else some []
