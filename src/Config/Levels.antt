-- ===== src/Config/Levels.antt =====
-- The level of the log that a command line asks for, as `main` of hbf/shell/main.c reads it from the
-- configuration.
use hbf.Base.{
  ℕ, ◌≤◌, ◌≡◌, refl, ◌∙◌, ap, sym, true, false, Bool-cases, inl, inr, Option, none, some, List, [],
  ◌∷◌, ◌++◌, Bytes, All, IsText, codes, c_str, bytes_eq, eq_of_bytes_eq, replicate, length, take,
  drop, length-append, length-take, take-append_le, ltb, ltb→lt, ltb→ge, arith,
}
use hbf.Log.{LogLevel, log_info, hbf_log_parse_level}
use hbf.Config.{
  Config, Parse, help, refused, parsed, copy_level, parse_port, help_flag, port_flag, level_flag,
  inmem_flag, unknown_flag, flag_of, parse_args, hbf_config_parse,
}
use hbf.Config.Parsed.{Accepts, on_help, on_refused, on_parsed, copy_short, IsText-take}

-- The level that `main` gives to hbf_log_init; a text that runs to the end of the array is too long
-- to name a level, as is all that may follow.
abbrev pub level_in : Config → LogLevel
level_in config = hbf_log_parse_level (some (c_str config.log_level))

-- The value of the last --log-level of an accepted command line.
unfoldable pub last_level : List Bytes → Bytes → Bytes
last_level [] level = level
last_level (arg ∷ []) level = level
last_level (arg ∷ next ∷ more) level =
    let skip_one = last_level (next ∷ more) level in
    let skip_two = last_level more level in
    let taken = last_level more next in
    elim (flag_of arg) [
      | help_flag ↦ level
      | port_flag ↦ skip_two
      | level_flag ↦ taken
      | inmem_flag ↦ skip_one
      | unknown_flag ↦ level
    ]

length-not_eq : (s t : Bytes) → length t ≤ 14 → 15 ≤ length s → bytes_eq s t ≡ false
length-not_eq s t short long = elim (Bool-cases (bytes_eq s t)) [
  | inl e ↦ absurd (omega (arith, ap length (eq_of_bytes_eq s t e)))
  | inr e ↦ e
]

-- A long text names no level.
hbf_log_parse_level-long : (s : Bytes) → 15 ≤ length s → hbf_log_parse_level (some s) ≡ log_info
unfolding hbf_log_parse_level
hbf_log_parse_level-long s long =
    rw
      (
        length-not_eq s (codes "debug") (omega arith) long,
        length-not_eq s (codes "info") (omega arith) long,
        length-not_eq s (codes "warn") (omega arith) long,
        length-not_eq s (codes "error") (omega arith) long,
      )
      refl

c_str-append : (t rest : Bytes) → IsText t → c_str (t ++ rest) ≡ t ++ c_str rest
unfolding c_str
c_str-append [] rest h = refl
c_str-append (b ∷ bs) rest (h, hs) = ground (arith, c_str-append bs rest hs)

copy_long_length :
    (name level : Bytes)
    → IsText name
    → 15 ≤ length name
    → 15 ≤ length (c_str (copy_level name level))
unfolding copy_level
copy_long_length name level h long =
    let front : take 15 (name ++ replicate 15 0) ≡ take 15 name =
      take-append_le 15 name (replicate 15 0) long in
    rw (front, c_str-append (take 15 name) (drop 15 level) (IsText-take 15 name h))
      (omega (arith, length-append (take 15 name) (c_str (drop 15 level)), length-take 15 name))

-- The copied name stands for the level that the name itself stands for.
hbf_log_parse_level-copy_level :
    (name level : Bytes)
    → IsText name
    → hbf_log_parse_level (some (c_str (copy_level name level))) ≡ hbf_log_parse_level (some name)
hbf_log_parse_level-copy_level name level h = elim (Bool-cases (ltb (length name) 15)) [
  | inl short ↦ ap (λ s. hbf_log_parse_level (some s)) (copy_short name level h (ltb→lt _ _ short))
  | inr long ↦
      hbf_log_parse_level-long _ (copy_long_length name level h (ltb→ge _ _ long))
      ∙ sym (hbf_log_parse_level-long name (ltb→ge _ _ long))
]

-- A configuration with the level of a text.
abbrev IsAtLevel : Bytes → Config → Type 0
IsAtLevel level config = level_in config ≡ hbf_log_parse_level (some level)

Accepts-port_value :
    {P : Config → Type 0} {rest : ℕ → Parse} (o : Option ℕ)
    → ((port : ℕ) → Accepts P (rest port))
    → Accepts P (elim o [ none ↦ refused | some port ↦ rest port ])
Accepts-port_value none k = on_refused
Accepts-port_value (some port) k = k port

parse_args-IsAtLevel :
    (args : List Bytes) (config : Config) (level : Bytes)
    → All IsText args
    → IsAtLevel level config
    → Accepts (IsAtLevel (last_level args level)) (parse_args args config)
unfolding parse_args last_level
parse_args-IsAtLevel [] config level hs h = on_parsed h
parse_args-IsAtLevel (arg ∷ []) config level hs h =
    elim (flag_of arg)
      as (λ f. Accepts (IsAtLevel level) (elim f [
        | help_flag ↦ help
        | port_flag ↦ refused
        | level_flag ↦ refused
        | inmem_flag ↦ parsed (record config { inmem = true })
        | unknown_flag ↦ refused
      ])) [
        | help_flag ↦ on_help
        | port_flag ↦ on_refused
        | level_flag ↦ on_refused
        | inmem_flag ↦ on_parsed h
        | unknown_flag ↦ on_refused
      ]
parse_args-IsAtLevel (arg ∷ next ∷ more) config level (ha, (hn, hs)) h =
    elim (flag_of arg)
      as (λ f.
        Accepts
          (IsAtLevel (elim f [
            | help_flag ↦ level
            | port_flag ↦ last_level more level
            | level_flag ↦ last_level more next
            | inmem_flag ↦ last_level (next ∷ more) level
            | unknown_flag ↦ level
          ]))
          (elim f [
            | help_flag ↦ help
            | port_flag ↦ elim (parse_port next) [
              | none ↦ refused
              | some port ↦ parse_args more (record config { port = port })
            ]
            | level_flag ↦
                parse_args more (record config { log_level = copy_level next config.log_level })
            | inmem_flag ↦ parse_args (next ∷ more) (record config { inmem = true })
            | unknown_flag ↦ refused
          ])) [
            | help_flag ↦ on_help
            | port_flag ↦
                Accepts-port_value (parse_port next)
                  (λ port. parse_args-IsAtLevel more (record config { port = port }) level hs h)
            | level_flag ↦
                parse_args-IsAtLevel more
                  (record config { log_level = copy_level next config.log_level }) next hs
                  (hbf_log_parse_level-copy_level next config.log_level hn)
            | inmem_flag ↦
                parse_args-IsAtLevel (next ∷ more) (record config { inmem = true }) level (hn, hs) h
            | unknown_flag ↦ on_refused
          ]

-- The level of an accepted command line is that of its last --log-level, or of "info".
pub hbf_config_parse-IsAtLevel :
    (args : List Bytes) (log_level : Bytes)
    → All IsText args
    → Accepts
        (λ config. level_in config ≡ hbf_log_parse_level (some (last_level args (codes "info"))))
        (hbf_config_parse args log_level)
unfolding hbf_config_parse
hbf_config_parse-IsAtLevel args log_level hs =
    parse_args-IsAtLevel args _ (codes "info") hs
      (hbf_log_parse_level-copy_level (codes "info") log_level (ground arith))
