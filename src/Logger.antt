-- ===== src/Logger.antt =====
-- internal/logger/logger.go: the default logger and what it prints. The handlers of log/slog write a
-- record when its level is at least theirs; a record is kept as level, message and the logger's
-- attributes, without its time and its own arguments.
pub mod Printing
use tunnel_agent.Base.{
  ℕ, Bool, true, false, List, [], ◌∷◌, ◌++◌, Option, none, some, Bytes, codes, bytes_eq, leb,
  if◌then◌else◌,
}
use tunnel_agent.Errors.{GoError, error_text}

pub data Level : Type 0 where
  level_debug level_info level_warn level_error : Level

-- The levels of slog are -4, 0, 4 and 8; here they are 4 more.
unfoldable pub severity : Level → ℕ
severity level_debug = 0
severity level_info = 4
severity level_warn = 8
severity level_error = 12

-- A *slog.Logger on the standard output.
pub record Logger : Type 0 where
  pub level : Level
  pub json : Bool
  pub attributes : List (Bytes × Bytes)

pub record Printed : Type 0 where
  pub level : Level
  pub json : Bool
  pub message : Bytes
  pub attributes : List (Bytes × Bytes)

-- The default logger, if there is one, and the records on the standard output.
pub record Logging : Type 0 where
  pub default_logger : Option Logger
  pub output : List Printed

-- The switch of InitLogger.
unfoldable pub level_of : Bytes → Level
level_of text =
    if bytes_eq text (codes "debug")
    then level_debug
    else if bytes_eq text (codes "info")
    then level_info
    else if bytes_eq text (codes "warn")
    then level_warn
    else if bytes_eq text (codes "error")
    then level_error
    else level_info

unfoldable pub init_logger : Bytes → Bool → Logging → Logging
unfolding level_of
init_logger level json g = record g {
  default_logger = some (record { level = level_of level; json = json; attributes = [] });
}

abbrev pub fallback : Logger
fallback = record { level = level_info; json = false; attributes = [] }

got : Option Logger → Logging → Logging × Logger
got none g = (record g { default_logger = some fallback }, fallback)
got (some l) g = (g, l)

-- The logger, and the state in which it is the default.
unfoldable pub get_logger : Logging → Logging × Logger
unfolding got
get_logger g = got g.default_logger g

-- A method of slog.Logger at a level.
unfoldable pub log_with : Level → Bytes → Logging × Logger → Logging
unfolding severity
log_with level message (g, l) =
    if leb (severity l.level) (severity level)
    then record g {
      output =
          g.output
          ++ record { level = level; json = l.json; message = message; attributes = l.attributes }
            ∷ [];
    }
    else g

unfoldable pub debug : Bytes → Logging → Logging
unfolding log_with get_logger
debug message g = log_with level_debug message (get_logger g)

unfoldable pub info : Bytes → Logging → Logging
unfolding log_with get_logger
info message g = log_with level_info message (get_logger g)

unfoldable pub warn : Bytes → Logging → Logging
unfolding log_with get_logger
warn message g = log_with level_warn message (get_logger g)

unfoldable pub error : Bytes → Logging → Logging
unfolding log_with get_logger
error message g = log_with level_error message (get_logger g)

-- A copy of the default logger with the error as an attribute; the default stays as it is.
unfoldable pub with_error : GoError → Logging → Logging × Logger
unfolding get_logger
with_error e g =
    let (g', l) = get_logger g in
    (g', record l { attributes = l.attributes ++ (codes "error", error_text e) ∷ [] })
