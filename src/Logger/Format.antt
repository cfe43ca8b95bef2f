-- ===== src/Logger/Format.antt =====
-- Levels, events and what the items of a formatter print: src/Logger/Logger.cc and
-- include/Logger/Logger.h. `strftime` with the local time of the machine is a parameter: for a format
-- and a time, the text that stands in the buffer of 64 bytes after the call. For a longer text that is
-- whatever strftime left there, and nothing is claimed of it.
pub mod Levels
use siempre.Base.{
  ℕ, ◌≡◌, refl, Bool, true, false, List, [], ◌∷◌, ◌++◌, Option, none, some, if◌then◌else◌, leb,
  Bytes, codes, same, decimal,
}
use siempre.Logger.Pattern.{
  Item, string_item, message_item, level_item, elapse_item, name_item, thread_id_item,
  new_line_item, date_time_item, file_name_item, line_item, tab_item, fiber_id_item,
  thread_name_item,
}

pub data Level : Type 0 where
  unknow debug info warn error fatal : Level

-- The values of the enumeration, one higher, so that -1 is 0.
abbrev pub rank : Level → ℕ
rank unknow = 0
rank debug = 2
rank info = 3
rank warn = 4
rank error = 5
rank fatal = 6

-- `level >= other`.
abbrev pub reaches : Level → Level → Bool
reaches l m = leb (rank m) (rank l)

pub get_string_by_level : Level → Bytes
get_string_by_level debug = codes "DEBUG"
get_string_by_level info = codes "INFO"
get_string_by_level warn = codes "WARN"
get_string_by_level error = codes "ERROR"
get_string_by_level fatal = codes "FATAL"
get_string_by_level unknow = codes "UNKOWN"

pub get_level_by_string : Bytes → Level
get_level_by_string str =
    if same (codes "DEBUG") str
    then debug
    else if same (codes "INFO") str
    then info
    else if same (codes "WARN") str
    then warn
    else if same (codes "ERROR") str
    then error
    else if same (codes "FATAL") str
    then fatal
    else unknow

pub record LogEvent : Type 0 where
  pub event_name : Bytes
  pub filename : Bytes
  pub line : ℕ
  pub elapse : ℕ
  pub thread_id : ℕ
  pub thread_name : Bytes
  pub fiber_id : ℕ
  pub time : ℕ
  pub level : Level
  pub content : Bytes

abbrev pub quoted : Bytes → Bytes
quoted s = b'"' ∷ (s ++ (b'"' ∷ []))

module _ (strftime : Bytes → ℕ → Bytes) where
  pub format_item : Level → LogEvent → Item → Bytes
  unfolding get_string_by_level
  format_item l e (string_item str) = str
  format_item l e message_item = quoted e.content
  format_item l e level_item = get_string_by_level l
  format_item l e elapse_item = decimal e.elapse
  format_item l e name_item = e.event_name
  format_item l e thread_id_item = decimal e.thread_id
  format_item l e new_line_item = b'\r' ∷ b'\n' ∷ []
  format_item l e (date_time_item fmt) = strftime fmt e.time
  format_item l e file_name_item = quoted e.filename
  format_item l e line_item = decimal e.line
  format_item l e tab_item = b'\t' ∷ []
  format_item l e fiber_id_item = decimal e.fiber_id
  format_item l e thread_name_item = e.thread_name

  -- `LogFormatter::format`.
  pub format : List Item → Level → LogEvent → Bytes
  unfolding format_item
  format [] l e = []
  format (i ∷ is) l e = format_item l e i ++ format is l e
