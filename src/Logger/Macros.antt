-- ===== src/Logger/Macros.antt =====
-- kernel/src/logger.rs: the macros, each of which logs at a level the text that `format!` has made.
use neur_os.Common.{Text}
use neur_os.Logger.{Logger, Level, log}

abbrev pub debug : Text → Logger → Logger
debug message l = log Level.debug message l

abbrev pub error : Text → Logger → Logger
error message l = log Level.error message l

abbrev pub fatal : Text → Logger → Logger
fatal message l = log Level.fatal message l

abbrev pub info : Text → Logger → Logger
info message l = log Level.info message l

abbrev pub trace : Text → Logger → Logger
trace message l = log Level.trace message l

abbrev pub warn : Text → Logger → Logger
warn message l = log Level.warn message l
