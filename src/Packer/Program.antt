-- ===== src/Packer/Program.antt =====
-- `main` of tools/asset_packer.c: its arguments, the files that it adds and what it generates.
pub mod Files
pub mod Outputs
use hbf.Base.{
  ℕ, zero, suc, ◌+◌, Bool, true, false, not, ◌||◌, Option, none, some, List, [], ◌∷◌, Bytes, codes,
  bytes_eq, ltb, ◌==◌, if◌then◌else◌,
}
use hbf.Config.{strtol}
use hbf.Packer.{
  Bundle, bundle_init, should_skip_file, FileCalls, bundle_add_file, Qsort, bundle_pack, Zlib,
  compress_bundle,
}
use hbf.Packer.Source.{Generated, write_c_source}

-- The local variables of the arguments' loop. `files` is what stands in `argv` from
-- `first_file_arg` on, `none` where that is -1.
pub record Options : Type 0 where
  pub output_source : Option Bytes
  pub output_header : Option Bytes
  pub symbol_name : Bytes
  pub compression_level : ℕ
  pub files : Option (List Bytes)
  pub num_files : ℕ

abbrev pub defaults : Options
defaults = record {
  output_source = none;
  output_header = none;
  symbol_name = codes "assets_blob";
  compression_level = 9;
  files = none;
  num_files = 0;
}

pub data ArgKind : Type 0 where
  source_option : ArgKind
  header_option : ArgKind
  symbol_option : ArgKind
  level_option : ArgKind
  unknown_option : ArgKind
  file : ArgKind

-- argv[i][0] == '-'
unfoldable pub is_option : Bytes → Bool
is_option [] = false
is_option (c ∷ cs) = c == b'-'

unfoldable pub arg_kind : Bytes → ArgKind
unfolding is_option
arg_kind arg =
    if bytes_eq arg (codes "--output-source")
    then source_option
    else if bytes_eq arg (codes "--output-header")
    then header_option
    else if bytes_eq arg (codes "--symbol-name")
    then symbol_option
    else if bytes_eq arg (codes "--compression-level")
    then level_option
    else if is_option arg
    then unknown_option
    else file

-- `atoi`, and the check of the level; a number beyond an `int`, for which `atoi` is undefined, is
-- refused.
unfoldable pub level_of : Bytes → Option ℕ
level_of text =
    let (negative, n, rest) = strtol text in if negative || ltb n 1 || ltb 9 n then none else some n

-- "First file argument", with the arguments from this one on.
unfoldable pub count_file : List Bytes → Options → Options
count_file args o = record o {
  files = elim o.files [ none ↦ some args | some first ↦ some first ];
  num_files = o.num_files + 1;
}

-- The loop over the arguments; `none` is the `return 1`.
unfoldable pub scan : List Bytes → Options → Option Options
unfolding count_file
scan [] o = some o
scan (arg ∷ []) o = elim (arg_kind arg) [
  | source_option ↦ none
  | header_option ↦ none
  | symbol_option ↦ none
  | level_option ↦ none
  | unknown_option ↦ none
  | file ↦ some (count_file (arg ∷ []) o)
]
scan (arg ∷ next ∷ more) o = elim (arg_kind arg) [
  | source_option ↦ scan more (record o { output_source = some next })
  | header_option ↦ scan more (record o { output_header = some next })
  | symbol_option ↦ scan more (record o { symbol_name = next })
  | level_option ↦ elim (level_of next) [
    | none ↦ none
    | some n ↦ scan more (record o { compression_level = n })
  ]
  | unknown_option ↦ none
  | file ↦ scan (next ∷ more) (count_file (arg ∷ next ∷ more) o)
]

-- "Add all files", from the argument with index `i` on; `none` is a file that fails.
unfoldable pub add_files : (ℕ → FileCalls) → ℕ → List Bytes → Bundle → Option Bundle
unfolding is_option should_skip_file bundle_add_file
add_files calls i [] bundle = some bundle
add_files calls i (arg ∷ args) bundle = elim (is_option arg || should_skip_file arg) [
  | true ↦ add_files calls (i + 1) args bundle
  | false ↦ elim (bundle_add_file (calls i) arg bundle) [
    | none ↦ none
    | some bundle' ↦ add_files calls (i + 1) args bundle'
  ]
]

-- Whether each call succeeds, with those of each file.
pub record PackerCalls : Type 0 where
  pub calloc : Bool
  pub file_calls : ℕ → FileCalls
  pub malloc_packed : Bool
  pub malloc_compressed : Bool
  pub opens_source : Bool
  pub opens_header : Bool

-- The exit status and what has been generated. The memory that is freed on the way is not modelled.
pub record PackerExit : Type 0 where
  pub status : ℕ
  pub generated : Generated

abbrev pub nothing : Generated
nothing = record { ok = false; files = [] }

-- From "Write C source and header"
unfoldable pub finish : PackerCalls → Bytes → Bytes → Bytes → Bytes → PackerExit
unfolding write_c_source
finish calls output_source output_header symbol_name compressed =
    let g =
      write_c_source calls.opens_source calls.opens_header output_source output_header symbol_name
        compressed in
    record { status = if g.ok then 0 else 1; generated = g }

-- From "Compress bundle"
unfoldable pub compress_and_write :
    Zlib → PackerCalls → Bytes → Bytes → Options → Bytes → ℕ → PackerExit
unfolding finish
compress_and_write z calls output_source output_header o packed packed_len =
    elim (compress_bundle z calls.malloc_compressed packed packed_len o.compression_level) [
      | none ↦ record { status = 1; generated = nothing }
      | some compressed ↦ finish calls output_source output_header o.symbol_name compressed
    ]

-- From "Pack bundle"
unfoldable pub pack_and_write :
    Qsort → Zlib → PackerCalls → Bytes → Bytes → Options → Bundle → PackerExit
pack_and_write q z calls output_source output_header o bundle =
    elim (bundle_pack q calls.malloc_packed bundle) [
      | none ↦ record { status = 1; generated = nothing }
      | some (packed, packed_len) ↦
          compress_and_write z calls output_source output_header o packed packed_len
    ]

-- From "Initialize bundle"; `num_files` is a `uint32_t`.
unfoldable pub build :
    Qsort → Zlib → PackerCalls → Bytes → Bytes → Options → List Bytes → PackerExit
build q z calls output_source output_header o args = elim (bundle_init calls.calloc o.num_files) [
  | none ↦ record { status = 1; generated = nothing }
  | some empty ↦ elim (add_files calls.file_calls 0 args empty) [
    | none ↦ record { status = 1; generated = nothing }
    | some bundle ↦ pack_and_write q z calls output_source output_header o bundle
  ]
]

-- `main`, on the arguments behind the program's name. `num_files` is 0 exactly where there is no
-- first file.
unfoldable pub packer_main : Qsort → Zlib → PackerCalls → List Bytes → PackerExit
packer_main q z calls args = elim (scan args defaults) [
  | none ↦ record { status = 1; generated = nothing }
  | some o ↦ elim o.output_source [
    | none ↦ record { status = 1; generated = nothing }
    | some output_source ↦ elim o.output_header [
      | none ↦ record { status = 1; generated = nothing }
      | some output_header ↦
          if o.num_files == 0 then (record { status = 1; generated = nothing }) else elim o.files [
            | none ↦ record { status = 1; generated = nothing }
            | some args' ↦ build q z calls output_source output_header o args'
          ]
    ]
  ]
]
