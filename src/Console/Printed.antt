-- ===== src/Console/Printed.antt =====
-- Which messages of a program are printed, over the console of JavaScript (hbf/qjs/console_module.c).
use hbf.Base.{
  ◌≡◌, refl, ◌∙◌, ap, sym, Bool, true, false, Option, List, [], ◌∷◌, ◌++◌, Bytes, append_assoc,
  append-nil, ltb, if◌then◌else◌,
}
use hbf.Log.{
  LogLevel, log_debug, log_info, log_warn, log_error, level_number, hbf_log_parse_level, LogState,
  hbf_log_init, hbf_log_get_level, log_line, hbf_log,
}
use hbf.Console.{
  Argument, js_console_debug, js_console_error, js_console_warn, js_console_log, ConsoleFunction,
  log, warn, error, debug, ConsoleCall, console_call, console_calls, concat_args,
}

-- The level of each function.
unfoldable pub level_of : ConsoleFunction → LogLevel
level_of log = log_info
level_of warn = log_warn
level_of error = log_error
level_of debug = log_debug

-- The lines of the calls at a level or above, in order.
unfoldable pub lines_from : LogLevel → List ConsoleCall → Bytes
lines_from level [] = []
lines_from level (c ∷ cs) =
    let rest = lines_from level cs in
    if ltb (level_number (level_of c.function)) (level_number level)
    then rest
    else log_line c.timestamp (level_of c.function) (concat_args c.malloc c.args).text ++ rest

console_call-hbf_log :
    (f : ConsoleFunction) (args : List Argument) (malloc : Bool) (timestamp : Bytes) (s : LogState)
    → console_call (record { function = f; args = args; malloc = malloc; timestamp = timestamp }) s
      ≡ hbf_log timestamp (level_of f) (concat_args malloc args).text s
unfolding console_call level_of js_console_log js_console_warn js_console_error js_console_debug
console_call-hbf_log log args malloc timestamp s = refl
console_call-hbf_log warn args malloc timestamp s = refl
console_call-hbf_log error args malloc timestamp s = refl
console_call-hbf_log debug args malloc timestamp s = refl

-- What has been printed before, and the lines of further calls.
abbrev printing : List ConsoleCall → LogState → LogState
printing cs s = record s { stderr = s.stderr ++ lines_from s.current_level cs }

printing-if :
    (below : Bool) (line : Bytes) (cs : List ConsoleCall) (s : LogState)
    → printing cs (if below then s else record s { stderr = s.stderr ++ line }) ≡ record s {
      stderr =
          s.stderr
          ++ (if below
              then lines_from s.current_level cs
              else line ++ lines_from s.current_level cs);
    }
printing-if true line cs s = refl
printing-if false line cs s = ap (λ text. record s { stderr = text }) (append_assoc s.stderr line _)

printing-hbf_log :
    (c : ConsoleCall) (cs : List ConsoleCall) (s : LogState)
    → printing cs (hbf_log c.timestamp (level_of c.function) (concat_args c.malloc c.args).text s)
      ≡ printing (c ∷ cs) s
unfolding hbf_log lines_from
printing-hbf_log c cs s =
    printing-if (ltb (level_number (level_of c.function)) (level_number s.current_level)) _ cs s

console_calls_lem : (cs : List ConsoleCall) (s : LogState) → console_calls cs s ≡ printing cs s
unfolding console_calls lines_from
console_calls_lem [] s = ap (λ text. record s { stderr = text }) (sym (append-nil s.stderr))
console_calls_lem (c ∷ cs) s =
    ap (console_calls cs) (console_call-hbf_log c.function c.args c.malloc c.timestamp s)
    ∙ console_calls_lem cs
        (hbf_log c.timestamp (level_of c.function) (concat_args c.malloc c.args).text s)
    ∙ printing-hbf_log c cs s

-- The level that the configuration names decides what the calls of the console print, whatever was
-- set before: in their order, one line for each call whose level is at least this one, with its
-- time, its level's name and its message; the level stays.
pub console_calls-hbf_log_init :
    (name : Option Bytes) (cs : List ConsoleCall) (s : LogState)
    → (console_calls cs (hbf_log_init (hbf_log_parse_level name) s)).stderr
        ≡ s.stderr ++ lines_from (hbf_log_parse_level name) cs
      × (hbf_log_get_level (console_calls cs (hbf_log_init (hbf_log_parse_level name) s))
          ≡ hbf_log_parse_level name)
unfolding hbf_log_init hbf_log_get_level
console_calls-hbf_log_init name cs s = (
  ap (λ t. t.stderr) (console_calls_lem cs _),
  ap (λ t. t.current_level) (console_calls_lem cs _),
)
