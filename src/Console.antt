-- ===== src/Console.antt =====
-- console.log and its kind: hbf/qjs/console_module.c.
pub mod Joined
pub mod Printed
pub mod Configured
use hbf.Base.{
  ℕ, ◌+◌, Bool, true, false, not, Option, none, some, List, [], ◌∷◌, ◌++◌, Bytes, codes, c_str,
  length, if◌then◌else◌, map,
}
use hbf.Log.{log_debug, log_info, log_warn, log_error, LogState, hbf_log}

-- `js_value_to_string` of what JS_ToCString gives, where the copy is allocated; the function copies
-- up to the first NUL.
unfoldable pub js_value_to_string : Option Bytes → Bytes
js_value_to_string none = codes "[object]"
js_value_to_string (some str) = c_str str

-- An argument with the texts that its two conversions give: each is a call of JS_ToCString, which
-- may run the argument's own toString.
pub record Argument : Type 0 where
  pub first : Option Bytes
  pub second : Option Bytes

-- "Calculate total length needed"
unfoldable pub total_len : List Argument → ℕ
unfolding js_value_to_string
total_len [] = 0
total_len (a ∷ []) = length (js_value_to_string a.first)
total_len (a ∷ b ∷ rest) = length (js_value_to_string a.first) + 1 + total_len (b ∷ rest)

-- "Concatenate all arguments"
unfoldable pub join : List Argument → Bytes
unfolding js_value_to_string
join [] = []
join (a ∷ []) = js_value_to_string a.second
join (a ∷ b ∷ rest) = js_value_to_string a.second ++ 32 ∷ join (b ∷ rest)

-- The bytes of the allocation, and the text written to it, without its NUL.
pub record Message : Type 0 where
  pub room : ℕ
  pub text : Bytes

-- strdup
unfoldable pub strdup : Bytes → Message
strdup text = record { room = length text + 1; text = text }

-- `concat_args`, with whether the buffer is allocated.
unfoldable pub concat_args : Bool → List Argument → Message
unfolding strdup total_len join
concat_args malloc [] = strdup []
concat_args malloc (a ∷ rest) =
    if not malloc
    then strdup (codes "[OOM]")
    else (record { room = total_len (a ∷ rest) + 1; text = join (a ∷ rest) })

-- The four functions of the object `console`.
pub data ConsoleFunction : Type 0 where
  log : ConsoleFunction
  warn : ConsoleFunction
  error : ConsoleFunction
  debug : ConsoleFunction

-- A call of one of them, with the time of the log and whether the message's buffer is allocated.
pub record ConsoleCall : Type 0 where
  pub function : ConsoleFunction
  pub args : List Argument
  pub malloc : Bool
  pub timestamp : Bytes

unfoldable pub js_console_log : Bytes → Bool → List Argument → LogState → LogState
unfolding hbf_log concat_args
js_console_log timestamp malloc args s = hbf_log timestamp log_info (concat_args malloc args).text s

unfoldable pub js_console_warn : Bytes → Bool → List Argument → LogState → LogState
unfolding hbf_log concat_args
js_console_warn timestamp malloc args s =
    hbf_log timestamp log_warn (concat_args malloc args).text s

unfoldable pub js_console_error : Bytes → Bool → List Argument → LogState → LogState
unfolding hbf_log concat_args
js_console_error timestamp malloc args s =
    hbf_log timestamp log_error (concat_args malloc args).text s

unfoldable pub js_console_debug : Bytes → Bool → List Argument → LogState → LogState
unfolding hbf_log concat_args
js_console_debug timestamp malloc args s =
    hbf_log timestamp log_debug (concat_args malloc args).text s

-- console_funcs
unfoldable pub console_call : ConsoleCall → LogState → LogState
unfolding js_console_log js_console_warn js_console_error js_console_debug
console_call c s = elim c.function [
  | log ↦ js_console_log c.timestamp c.malloc c.args s
  | warn ↦ js_console_warn c.timestamp c.malloc c.args s
  | error ↦ js_console_error c.timestamp c.malloc c.args s
  | debug ↦ js_console_debug c.timestamp c.malloc c.args s
]

unfoldable pub console_calls : List ConsoleCall → LogState → LogState
unfolding console_call
console_calls [] s = s
console_calls (c ∷ cs) s = console_calls cs (console_call c s)
