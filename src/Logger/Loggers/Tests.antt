-- ===== src/Logger/Loggers/Tests.antt =====
-- Runs of loggers.
use siempre.Base.{◌≡◌, refl, true, [], some, is_some, ap, codes, arith}
use siempre.Logger.Format.{warn, LogEvent}
use siempre.Logger.Loggers.{
  root, find, set_formatter, add_appender, new_logger, new_appender, sysfmt, new_manager,
  add_root_file_appender, log, Logger, stdout,
}
use siempre.Logger.Loggers.Managers.{logs_after, root_file_faults, run}

abbrev event : LogEvent
event = record {
  event_name = codes "net";
  filename = codes "a.cc";
  line = 3;
  elapse = 0;
  thread_id = 1;
  thread_name = codes "main";
  fiber_id = 0;
  time = 0;
  level = warn;
  content = codes "hello";
}

root_file_faults_example :
    is_some (add_root_file_appender (run new_manager []) (codes "/tmp/log") true) ≡ true
root_file_faults_example =
    ap is_some (root_file_faults (λ f t. f) [] (codes "/tmp/log") (ground arith)).2

abbrev root_logger : Logger
root_logger = set_formatter (add_appender (new_logger root) (new_appender stdout)) sysfmt

root_found : find new_manager root ≡ some root_logger
unfolding new_manager
root_found = refl

logs_after_example : is_some (log (λ f t. f) root_logger warn event) ≡ true
logs_after_example = ap is_some (logs_after (λ f t. f) [] root root_logger warn event root_found)
