-- ===== src/Logger/Loggers/Macros.antt =====
-- The macros LOG_LEVEL of include/Logger/Logger.h, with the LogEvent and the LogEventWrapper that they
-- make: src/Logger/Logger.cc. A use `LOG_LEVEL(logger, level) << text` is over when the wrapper is
-- destroyed, which is at its end.
use siempre.Base.{
  ℕ, ◌≡◌, refl, [], ◌++◌, List, Option, some, if◌then◌else◌, Bytes, Bool-cases, inl, inr,
}
use siempre.Logger.Format.{Level, LogEvent, reaches}
use siempre.Logger.Loggers.{Logger, Line, log}

-- Where and when a macro is used: the file and line, and what the thread answers.
pub record Site : Type 0 where
  pub filename : Bytes
  pub line : ℕ
  pub thread_id : ℕ
  pub thread_name : Bytes
  pub fiber_id : ℕ
  pub time : ℕ

pub new_event : Bytes → Site → ℕ → Level → LogEvent
new_event name at elapse level = record {
  event_name = name;
  filename = at.filename;
  line = at.line;
  elapse = elapse;
  thread_id = at.thread_id;
  thread_name = at.thread_name;
  fiber_id = at.fiber_id;
  time = at.time;
  level = level;
  content = [];
}

-- `getSS() << text`
abbrev pub put : LogEvent → Bytes → LogEvent
put e text = record e { content = e.content ++ text }

-- `setMessage`: the event, and the string that it was given by reference.
pub set_message : LogEvent → Bytes → LogEvent × Bytes
set_message e text = (put e [], [])

module _ (strftime : Bytes → ℕ → Bytes) where
  -- The destructor of LogEventWrapper; the logger of the event is `lg`.
  pub end_wrapper : Logger → LogEvent → Option (List Line)
  end_wrapper lg e = log strftime lg e.level e

  pub log_level : Logger → Level → Site → Bytes → Option (List Line)
  unfolding new_event end_wrapper
  log_level lg level at text =
      if reaches level lg.level
      then end_wrapper lg (put (new_event lg.name at 0 level) text)
      else some []

  -- The test of the macro only saves the making of an event: what a use prints is what `Log` prints of
  -- the event with that text at that level, whether or not the level reaches the logger's.
  pub log_level_lem :
      (lg : Logger) (level : Level) (at : Site) (text : Bytes)
      → log_level lg level at text ≡ log strftime lg level (put (new_event lg.name at 0 level) text)
  unfolding log_level log
  log_level_lem lg level at text = elim (Bool-cases (reaches level lg.level)) [
    | inl h ↦ rw h refl
    | inr h ↦ rw h refl
  ]
