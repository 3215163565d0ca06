-- ===== src/Logger.antt =====
-- kernel/src/logger.rs: the log of the kernel. The macros `debug!` to `warn!` are `log` at a level.
pub mod Macros
pub mod Growth
use neur_os.Common.{Text, codes, List, [], ◌∷◌, ◌++◌}
use neur_os.Ansi.{blue, default, green, orange, purple, red, yellow}

pub data Level : Type 0 where
  fatal error warn info debug trace : Level

pub record Log : Type 0 where
  pub level : Level
  pub message : Text

pub record Logger : Type 0 where
  pub logs : List Log

-- The label that `Log::fmt` chooses.
unfoldable pub label : Level → Text
label debug = green ++ (codes "[DEBUG]" ++ default)
label error = red ++ (codes "[ERROR]" ++ default)
label fatal = orange ++ (codes "[FATAL]" ++ default)
label info = blue ++ (codes "[INFO]" ++ default)
label trace = purple ++ (codes "[TRACE]" ++ default)
label warn = yellow ++ (codes "[WARN]" ++ default)

-- `Log::fmt`
unfoldable pub fmt : Log → Text
unfolding label
fmt l = label l.level ++ (codes " " ++ l.message)

abbrev pub new : Logger
new = record { logs = [] }

-- `Logger::log`
unfoldable pub log : Level → Text → Logger → Logger
log level message l = record { logs = l.logs ++ (record { level = level; message = message } ∷ []) }

abbrev pub get_logs : Logger → List Log
get_logs l = l.logs
