-- ===== src/Log.antt =====
-- The log of hbf/shell/log.c with its level, and what it has printed to stderr.
use hbf.Base.{ℕ, Option, none, some, [], ◌∷◌, ◌++◌, Bytes, codes, bytes_eq, ltb, if◌then◌else◌}

-- hbf_log_level_t
pub data LogLevel : Type 0 where
  log_debug : LogLevel
  log_info : LogLevel
  log_warn : LogLevel
  log_error : LogLevel

unfoldable pub hbf_log_parse_level : Option Bytes → LogLevel
hbf_log_parse_level none = log_info
hbf_log_parse_level (some level) =
    if bytes_eq level (codes "debug")
    then log_debug
    else if bytes_eq level (codes "info")
    then log_info
    else if bytes_eq level (codes "warn")
    then log_warn
    else if bytes_eq level (codes "error")
    then log_error
    else log_info

-- The values of the enumeration.
unfoldable pub level_number : LogLevel → ℕ
level_number log_debug = 0
level_number log_info = 1
level_number log_warn = 2
level_number log_error = 3

-- level_names
unfoldable pub level_name : LogLevel → Bytes
level_name log_debug = codes "DEBUG"
level_name log_info = codes "INFO"
level_name log_warn = codes "WARN"
level_name log_error = codes "ERROR"

-- The static `current_level`, and the bytes on stderr.
pub record LogState : Type 0 where
  pub current_level : LogLevel
  pub stderr : Bytes

unfoldable pub hbf_log_init : LogLevel → LogState → LogState
hbf_log_init level s = record s { current_level = level }

unfoldable pub hbf_log_set_level : LogLevel → LogState → LogState
hbf_log_set_level level s = record s { current_level = level }

unfoldable pub hbf_log_get_level : LogState → LogLevel
hbf_log_get_level s = s.current_level

-- "[%s] [%s] ", the message, and the end of the line.
unfoldable pub log_line : Bytes → LogLevel → Bytes → Bytes
unfolding level_name
log_line timestamp level message =
    codes "["
    ++ (timestamp ++ (codes "] [" ++ (level_name level ++ (codes "] " ++ (message ++ 10 ∷ [])))))

-- `hbf_log(level, "%s", message)` at the time that strftime gives as `timestamp`.
unfoldable pub hbf_log : Bytes → LogLevel → Bytes → LogState → LogState
unfolding level_number log_line
hbf_log timestamp level message s =
    if ltb (level_number level) (level_number s.current_level)
    then s
    else record s { stderr = s.stderr ++ log_line timestamp level message }
