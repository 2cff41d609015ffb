-- ===== src/Tests/Arguments.antt =====
-- Command lines.
use hbf.Base.{
  bytes_eq, ◌≡◌, refl, true, List, [], ◌∷◌, ◌++◌, Bytes, codes, c_str, replicate, length, take,
  drop, ltb, if◌then◌else◌, arith,
}
use hbf.Config.{refused, parsed, copy_level, hbf_config_parse}
use hbf.Config.Parsed.{IsUsable, Accepts, hbf_config_parse-IsUsable, c_str-copy_level}

-- An array as the stack may hold it.
abbrev stale_level : Bytes
stale_level = replicate 16 88

abbrev command : List Bytes
command = codes "--port" ∷ codes " 8080" ∷ codes "--inmem" ∷ []

command-parsed :
    hbf_config_parse command stale_level
    ≡ parsed (record {
      port = 8080;
      log_level = codes "info" ++ (replicate 11 0 ++ 88 ∷ []);
      inmem = true;
    })
unfolding hbf_config_parse bytes_eq
command-parsed = refl

port_zero : hbf_config_parse (codes "--port" ∷ codes "0" ∷ []) stale_level ≡ refused
unfolding hbf_config_parse bytes_eq
port_zero = refl

hbf_config_parse-IsUsable_example :
    Accepts (IsUsable (drop 15 stale_level)) (hbf_config_parse command stale_level)
hbf_config_parse-IsUsable_example = hbf_config_parse-IsUsable command stale_level refl

abbrev long_name : Bytes
long_name = codes "very-very-verbose"

c_str-copy_level_example :
    c_str (copy_level long_name stale_level)
    ≡ (if ltb (length long_name) 15 then long_name else take 15 long_name ++ 88 ∷ [])
c_str-copy_level_example = c_str-copy_level long_name stale_level 88 (ground arith) refl (λ e. cc)
