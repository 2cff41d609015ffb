-- ===== src/Config/Parsed.antt =====
-- What a configuration that is accepted holds.
use hbf.Base.{
  append_assoc, take-append_le, c_str_text, All-append, ltb, ℕ, zero, suc, ◌≤◌, ◌<◌, ◌≡◌, ◌≢◌, refl,
  ◌∙◌, ap, Bool, true, false, Bool-cases, inl, inr, Option, none, some, List, [], ◌∷◌, ◌++◌, Bytes,
  IsText, codes, c_str, replicate, length, take, drop, length-append, length-take, length-drop,
  length-replicate, if◌then◌else◌, arith,
}
use hbf.Config.{
  Config, Parse, help, refused, parsed, copy_level, strtol, parse_port, check_port, help_flag,
  port_flag, level_flag, inmem_flag, unknown_flag, flag_of, parse_args, hbf_config_parse,
}

-- A port that can be listened on, and an array of 16 characters of which the last is the given one.
pub record IsUsable (last : Bytes) (config : Config) : Type 0 where
  pub above : 1 ≤ config.port
  pub below : config.port ≤ 65535
  pub room : length config.log_level ≡ 16
  pub unwritten : drop 15 config.log_level ≡ last

pub data Accepts (P : Config → Type 0) : Parse → Type 0 where
  on_help : Accepts P help
  on_refused : Accepts P refused
  on_parsed : {config : Config} → P config → Accepts P (parsed config)

check_port-bounds :
    (negative : Bool) (n port : ℕ) (rest : Bytes)
    → check_port negative n rest ≡ some port
    → (1 ≤ port) × (port ≤ 65535)
unfolding check_port
check_port-bounds negative n port rest e = (ground arith, ground arith)

parse_port-bounds :
    (text : Bytes) (port : ℕ) → parse_port text ≡ some port → (1 ≤ port) × (port ≤ 65535)
unfolding parse_port
parse_port-bounds text port e =
    let (negative, n, rest) = strtol text in check_port-bounds negative n port rest e

drop_front : (n : ℕ) (xs ys : Bytes) → length xs ≡ n → drop n (xs ++ ys) ≡ ys
drop_front zero [] ys e = refl
drop_front zero (x ∷ xs) ys e = absurd (omega arith)
drop_front (suc n) [] ys e = absurd (omega arith)
drop_front (suc n) (x ∷ xs) ys e = drop_front n xs ys (omega arith)

module _ (name level : Bytes) (room : length level ≡ 16) where
  front : length (take 15 (name ++ replicate 15 0)) ≡ 15
  front = omega (
    arith,
    length-take 15 (name ++ replicate 15 0),
    length-append name (replicate 15 0),
    length-replicate {A = ℕ} 15 0,
  )

  length-copy_level : length (copy_level name level) ≡ 16
  unfolding copy_level
  length-copy_level =
      rw (length-append (take 15 (name ++ replicate 15 0)) (drop 15 level))
        (omega (arith, front, length-drop 15 level))

  drop-copy_level : drop 15 (copy_level name level) ≡ drop 15 level
  unfolding copy_level
  drop-copy_level = drop_front 15 (take 15 (name ++ replicate 15 0)) (drop 15 level) front

with_inmem :
    (last : Bytes) (config : Config)
    → IsUsable last config
    → IsUsable last (record config { inmem = true })
with_inmem last config h = record {
  above = h.above;
  below = h.below;
  room = h.room;
  unwritten = h.unwritten;
}

with_level :
    (last : Bytes) (config : Config) (name : Bytes)
    → IsUsable last config
    → IsUsable last (record config { log_level = copy_level name config.log_level })
with_level last config name h = record {
  above = h.above;
  below = h.below;
  room = length-copy_level name config.log_level h.room;
  unwritten = drop-copy_level name config.log_level h.room ∙ h.unwritten;
}

with_port :
    (last : Bytes) (config : Config) (port : ℕ)
    → IsUsable last config
    → (1 ≤ port) × (port ≤ 65535)
    → IsUsable last (record config { port = port })
with_port last config port h (above, below) = record {
  above = above;
  below = below;
  room = h.room;
  unwritten = h.unwritten;
}

-- The port's value, where it is accepted, and the rest of the loop.
Accepts-port :
    {P : Config → Type 0} {rest : ℕ → Parse} (o : Option ℕ)
    → ((port : ℕ) → o ≡ some port → (1 ≤ port) × (port ≤ 65535))
    → ((port : ℕ) → (1 ≤ port) × (port ≤ 65535) → Accepts P (rest port))
    → Accepts P (elim o [ none ↦ refused | some port ↦ rest port ])
Accepts-port none bounds k = on_refused
Accepts-port (some port) bounds k = k port (bounds port refl)

parse_args-IsUsable :
    (last : Bytes) (args : List Bytes) (config : Config)
    → IsUsable last config
    → Accepts (IsUsable last) (parse_args args config)
unfolding parse_args
parse_args-IsUsable last [] config h = on_parsed h
parse_args-IsUsable last (arg ∷ []) config h =
    elim (flag_of arg)
      as (λ f. Accepts (IsUsable last) (elim f [
        | help_flag ↦ help
        | port_flag ↦ refused
        | level_flag ↦ refused
        | inmem_flag ↦ parsed (record config { inmem = true })
        | unknown_flag ↦ refused
      ])) [
        | help_flag ↦ on_help
        | port_flag ↦ on_refused
        | level_flag ↦ on_refused
        | inmem_flag ↦ on_parsed (with_inmem last config h)
        | unknown_flag ↦ on_refused
      ]
parse_args-IsUsable last (arg ∷ next ∷ more) config h =
    elim (flag_of arg)
      as (λ f. Accepts (IsUsable last) (elim f [
        | help_flag ↦ help
        | port_flag ↦ elim (parse_port next) [
          | none ↦ refused
          | some port ↦ parse_args more (record config { port = port })
        ]
        | level_flag ↦
            parse_args more (record config { log_level = copy_level next config.log_level })
        | inmem_flag ↦ parse_args (next ∷ more) (record config { inmem = true })
        | unknown_flag ↦ refused
      ])) [
        | help_flag ↦ on_help
        | port_flag ↦ Accepts-port (parse_port next) (parse_port-bounds next) (λ port bounds.
            parse_args-IsUsable last more (record config { port = port })
              (with_port last config port h bounds))
        | level_flag ↦
            parse_args-IsUsable last more
              (record config { log_level = copy_level next config.log_level })
              (with_level last config next h)
        | inmem_flag ↦
            parse_args-IsUsable last (next ∷ more) (record config { inmem = true })
              (with_inmem last config h)
        | unknown_flag ↦ on_refused
      ]

-- Whatever the arguments, a configuration that is accepted has a port from 1 to 65535 and an array
-- for the level of 16 characters; the last of them is still what the array held before.
pub hbf_config_parse-IsUsable :
    (args : List Bytes) (log_level : Bytes)
    → length log_level ≡ 16
    → Accepts (IsUsable (drop 15 log_level)) (hbf_config_parse args log_level)
unfolding hbf_config_parse
hbf_config_parse-IsUsable args log_level room =
    parse_args-IsUsable (drop 15 log_level) args
      (record { port = 5309; log_level = copy_level (codes "info") log_level; inmem = false })
      (record {
        above = omega arith;
        below = omega arith;
        room = length-copy_level (codes "info") log_level room;
        unwritten = drop-copy_level (codes "info") log_level room;
      })

c_str-front : (name rest : Bytes) → IsText name → c_str (name ++ 0 ∷ rest) ≡ name
unfolding c_str
c_str-front [] rest h = refl
c_str-front (c ∷ cs) rest (h, hs) = ground (arith, c_str-front cs rest hs)

take_short :
    (k : ℕ) (name zs : Bytes)
    → length name < k
    → (rest : Bytes) × (take k (name ++ 0 ∷ zs) ≡ name ++ 0 ∷ rest)
take_short zero name zs h = absurd (omega arith)
take_short (suc k) [] zs h = (take k zs, refl)
take_short (suc k) (c ∷ cs) zs h =
    let (rest, e) = take_short k cs zs (omega arith) in (rest, ap (◌∷◌ c) e)

pub IsText-take : (k : ℕ) (name : Bytes) → IsText name → IsText (take k name)
IsText-take zero name h = tt
IsText-take (suc k) [] h = tt
IsText-take (suc k) (c ∷ cs) (h, hs) = (h, IsText-take k cs hs)

pub copy_short :
    (name level : Bytes) → IsText name → length name < 15 → c_str (copy_level name level) ≡ name
unfolding copy_level
copy_short name level h short =
    let (rest, e) = take_short 15 name (replicate 14 0) short in
    ap (λ (front : Bytes). c_str (front ++ drop 15 level)) e
    ∙ ap c_str (append_assoc name (0 ∷ rest) (drop 15 level))
    ∙ c_str-front name (rest ++ drop 15 level) h

copy_long :
    (name level : Bytes) (last : ℕ)
    → IsText name
    → drop 15 level ≡ last ∷ []
    → last ≢ 0
    → 15 ≤ length name
    → c_str (copy_level name level) ≡ take 15 name ++ last ∷ []
unfolding copy_level
copy_long name level last h e stale long =
    ap (λ (front : Bytes). c_str (front ++ drop 15 level))
      (take-append_le 15 name (replicate 15 0) long)
    ∙ ap (λ (back : Bytes). c_str (take 15 name ++ back)) e
    ∙ c_str_text (take 15 name ++ last ∷ [])
        (All-append (λ b. b ≢ 0) (take 15 name) (last ∷ []) (IsText-take 15 name h) (stale, tt))

-- A level of fewer than 15 characters is read back from the array as it was given. A longer one is
-- copied without its end: where the array's last character was not NUL, there is no NUL in it.
pub c_str-copy_level :
    (name level : Bytes) (last : ℕ)
    → IsText name
    → drop 15 level ≡ last ∷ []
    → last ≢ 0
    → c_str (copy_level name level)
      ≡ (if ltb (length name) 15 then name else take 15 name ++ last ∷ [])
c_str-copy_level name level last h e stale = elim (Bool-cases (ltb (length name) 15)) [
  | inl short ↦ rw short (copy_short name level h (ground arith))
  | inr long ↦ rw long (copy_long name level last h e stale (ground arith))
]
