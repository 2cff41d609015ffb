-- ===== src/Tests/Messages.antt =====
-- Messages of the console on a log that shows warnings and errors.
use hbf.Base.{
  Bytes, replicate, arith, none, ◌≡◌, refl, true, some, List, [], ◌∷◌, ◌++◌, codes, bytes_eq, c_str,
}
use hbf.Config.{flag_of, hbf_config_parse}
use hbf.Config.Parsed.{Accepts}
use hbf.Config.Levels.{level_in, last_level}
use hbf.Console.Configured.{console_calls-hbf_config_parse}
use hbf.Log.{log_info, LogState, level_number, log_line, hbf_log_parse_level, hbf_log_init}
use hbf.Console.{log, error, ConsoleCall, console_calls, concat_args}
use hbf.Console.Printed.{lines_from, level_of}

abbrev messages : List ConsoleCall
messages =
    record {
      function = log;
      args = record { first = some (codes "a"); second = some (codes "a") } ∷ [];
      malloc = true;
      timestamp = codes "T1";
    }
    ∷ record {
      function = error;
      args =
          record { first = some (codes "b"); second = some (codes "b") }
          ∷ record { first = none; second = none }
          ∷ [];
      malloc = true;
      timestamp = codes "T2";
    }
    ∷ []

abbrev empty_log : LogState
empty_log = record { current_level = log_info; stderr = [] }

error_only :
    lines_from (hbf_log_parse_level (some (codes "warn"))) messages
    ≡ codes "[T2] [ERROR] b [object]\n"
unfolding lines_from hbf_log_parse_level bytes_eq c_str level_number level_of log_line concat_args
error_only = refl

abbrev warn_command : List Bytes
warn_command = codes "--log-level" ∷ codes "debug" ∷ codes "--log-level" ∷ codes "warn" ∷ []

last_is_warn : last_level warn_command (codes "info") ≡ codes "warn"
unfolding last_level bytes_eq flag_of
last_is_warn = refl

console_calls-hbf_config_parse_example :
    Accepts
      (λ config.
        (console_calls messages (hbf_log_init (level_in config) empty_log)).stderr
        ≡ []
          ++ lines_from
              (hbf_log_parse_level (some (last_level warn_command (codes "info"))))
              messages)
      (hbf_config_parse warn_command (replicate 16 88))
console_calls-hbf_config_parse_example =
    console_calls-hbf_config_parse warn_command (replicate 16 88) messages empty_log (ground arith)
