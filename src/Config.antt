-- ===== src/Config.antt =====
-- The command line: hbf/shell/config.c.
pub mod Parsed
pub mod Levels
use hbf.Base.{
  ℕ, zero, suc, ◌+◌, ◌-◌, ◌*◌, Bool, true, false, not, ◌&&◌, ◌||◌, Option, none, some, List, [],
  ◌∷◌, ◌++◌, Bytes, codes, bytes_eq, c_str, replicate, length, take, drop, ltb, leb, ◌==◌,
  if◌then◌else◌,
}

-- hbf_config_t; `log_level` is the array of 16 characters.
pub record Config : Type 0 where
  pub port : ℕ
  pub log_level : Bytes
  pub inmem : Bool

-- `help` is the 1, `refused` the -1, `parsed` the 0.
pub data Parse : Type 0 where
  help : Parse
  refused : Parse
  parsed : Config → Parse

-- strncpy(level, name, 15): the name's first 15 characters, filled up with NULs; the last character
-- of the array stays.
unfoldable pub copy_level : Bytes → Bytes → Bytes
copy_level name level = take 15 (name ++ replicate 15 0) ++ drop 15 level

-- isspace, and strtol's optional sign and digits in base 10; `none` where there are no digits,
-- and otherwise the number without its sign, and what follows.
unfoldable pub is_space : ℕ → Bool
is_space c = c == 32 || (leb 9 c && leb c 13)

unfoldable pub skip_spaces : Bytes → Bytes
unfolding is_space
skip_spaces [] = []
skip_spaces (c ∷ cs) = let rest = skip_spaces cs in if is_space c then rest else c ∷ cs

unfoldable pub is_digit : ℕ → Bool
is_digit c = leb 48 c && leb c 57

unfoldable pub read_digits : ℕ → Bytes → ℕ × Bytes
unfolding is_digit
read_digits acc [] = (acc, [])
read_digits acc (c ∷ cs) =
    let rest = read_digits (acc * 10 + (c - 48)) cs in if is_digit c then rest else (acc, c ∷ cs)

unfoldable pub read_number : Bytes → Option (ℕ × Bytes)
unfolding is_digit read_digits
read_number [] = none
read_number (c ∷ cs) = if is_digit c then some (read_digits 0 (c ∷ cs)) else none

-- `strtol(text, &endptr, 10)`, as whether the number is negative, its size, and the text at
-- `endptr`. The size is not clamped to a `long`: what is clamped is no port either way.
unfoldable pub strtol : Bytes → Bool × ℕ × Bytes
unfolding skip_spaces read_number
strtol text = elim (skip_spaces text) [
  | [] ↦ (false, 0, text)
  | c ∷ cs ↦
      let signed = c == 45 || c == 43 in
      elim (read_number (if signed then cs else c ∷ cs)) [
        | none ↦ (false, 0, text)
        | some (n, rest) ↦ (c == 45, n, rest)
      ]
]

-- `*endptr != '\0' || port_val <= 0 || port_val > 65535` refuses.
unfoldable pub check_port : Bool → ℕ → Bytes → Option ℕ
check_port negative n rest =
    if not (bytes_eq rest [])
    then none
    else if negative || n == 0
    then none
    else if ltb 65535 n
    then none
    else some n

unfoldable pub parse_port : Bytes → Option ℕ
unfolding strtol check_port
parse_port text = let (negative, n, rest) = strtol text in check_port negative n rest

pub data Flag : Type 0 where
  help_flag : Flag
  port_flag : Flag
  level_flag : Flag
  inmem_flag : Flag
  unknown_flag : Flag

unfoldable pub flag_of : Bytes → Flag
flag_of arg =
    if bytes_eq arg (codes "--help") || bytes_eq arg (codes "-h")
    then help_flag
    else if bytes_eq arg (codes "--port")
    then port_flag
    else if bytes_eq arg (codes "--log-level")
    then level_flag
    else if bytes_eq arg (codes "--inmem")
    then inmem_flag
    else unknown_flag

-- The loop over the arguments.
unfoldable pub parse_args : List Bytes → Config → Parse
unfolding flag_of parse_port copy_level
parse_args [] config = parsed config
parse_args (arg ∷ []) config = elim (flag_of arg) [
  | help_flag ↦ help
  | port_flag ↦ refused
  | level_flag ↦ refused
  | inmem_flag ↦ parsed (record config { inmem = true })
  | unknown_flag ↦ refused
]
parse_args (arg ∷ next ∷ more) config = elim (flag_of arg) [
  | help_flag ↦ help
  | port_flag ↦ elim (parse_port next) [
    | none ↦ refused
    | some port ↦ parse_args more (record config { port = port })
  ]
  | level_flag ↦ parse_args more (record config { log_level = copy_level next config.log_level })
  | inmem_flag ↦ parse_args (next ∷ more) (record config { inmem = true })
  | unknown_flag ↦ refused
]

-- `hbf_config_parse(argc, argv, config)` with the arguments behind the program's name; the array of
-- the configuration that the caller declares holds anything before.
unfoldable pub hbf_config_parse : List Bytes → Bytes → Parse
unfolding parse_args
hbf_config_parse args log_level =
    parse_args args
      (record { port = 5309; log_level = copy_level (codes "info") log_level; inmem = false })
