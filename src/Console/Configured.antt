-- ===== src/Console/Configured.antt =====
-- From the command line to what the console prints: hbf/shell/config.c, hbf/shell/log.c and
-- hbf/qjs/console_module.c in the order in which hbf/shell/main.c uses them.
use hbf.Base.{◌≡◌, ◌∙◌, ap, some, List, ◌++◌, Bytes, All, IsText, codes}
use hbf.Config.{Config, Parse, hbf_config_parse}
use hbf.Config.Parsed.{Accepts, on_help, on_refused, on_parsed}
use hbf.Config.Levels.{level_in, last_level, hbf_config_parse-IsAtLevel}
use hbf.Log.{LogState, hbf_log_parse_level, hbf_log_init}
use hbf.Console.{ConsoleCall, console_calls}
use hbf.Console.Printed.{lines_from, console_calls-hbf_log_init}

Accepts-map :
    {P Q : Config → Type 0} (p : Parse)
    → ((config : Config) → P config → Q config)
    → Accepts P p
    → Accepts Q p
Accepts-map p f on_help = on_help
Accepts-map p f on_refused = on_refused
Accepts-map p f (on_parsed {config = config} h) = on_parsed (f config h)

-- Where the command line is accepted, the calls of the console print, in their order, one line for
-- each whose level is at least that of the last --log-level, or of "info" where there is none or
-- it names no level, whatever the array for the level and the log held before.
pub console_calls-hbf_config_parse :
    (args : List Bytes) (log_level : Bytes) (cs : List ConsoleCall) (s : LogState)
    → All IsText args
    → Accepts
        (λ config.
          (console_calls cs (hbf_log_init (level_in config) s)).stderr
          ≡ s.stderr ++ lines_from (hbf_log_parse_level (some (last_level args (codes "info")))) cs)
        (hbf_config_parse args log_level)
console_calls-hbf_config_parse args log_level cs s texts =
    Accepts-map (hbf_config_parse args log_level)
      (λ config e.
        (console_calls-hbf_log_init _ cs s).0 ∙ ap (λ level. s.stderr ++ lines_from level cs) e)
      (hbf_config_parse-IsAtLevel args log_level texts)
