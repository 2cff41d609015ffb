-- ===== src/Tests/Builds.antt =====
-- The packer's program on a command line with two files and a source map.
use mathlib.Core.List.{mem-cons, not-mem-nil}
use mathlib.Core.List.Perm
use mathlib.Core.Logic.Or
use hbf.Config.{strtol}
use hbf.Base.{
  get_property, bytes_eq, if◌then◌else◌, ap, get_or, sym, ◌∙◌, ℕ, ◌≡◌, refl, true, false, none,
  some, List, [], ◌∷◌, ◌++◌, Bytes, All, codes, length-take, arith,
}
use hbf.Packer.{FileEntry, Bundle, FileCalls, bundle_pack, compress_bundle}
use hbf.Packer.Order.{HasOneEach, bundle_pack-perm}
use hbf.Packer.Source.{source_text, header_text, write_c_source}
use hbf.Packer.Reading.{read_source, read_source-write_c_source}
use hbf.Packer.Program.{PackerCalls, defaults, packer_main, level_of, is_option}
use hbf.Packer.Program.Files.{IsFile, Setting, source_is, header_is, level_is, arguments, apply}
use hbf.Packer.Program.Outputs.{IsSmooth, IsBound, bundle_of, packer_main_lem}
use hbf.Tests.Sorting.{insertion_qsort}
use hbf.Tests.Bundles.{stored, style, page, two_files}

FileEntry_set : IsSet FileEntry
FileEntry_set = hlevel

paths_differ : (e f : FileEntry) → e ≡ style → f ≡ page → e.path ≡ f.path → ⊥
paths_differ e f es fp same = omega (
  arith,
  ap (λ (x : FileEntry). get_or x.path 0 0) es,
  ap (λ (x : FileEntry). get_or x.path 0 0) fp,
  ap (λ (p : Bytes). get_or p 0 0) same,
)

one_entry_each : HasOneEach two_files.entries
one_entry_each e f me mf same =
    Or.elim (FileEntry_set e f) (mem-cons.0 me)
      (λ es.
        Or.elim (FileEntry_set e f) (mem-cons.0 mf) (λ fs. es ∙ sym fs)
          (λ nf.
            Or.elim (FileEntry_set e f) (mem-cons.0 nf) (λ fp. absurd (paths_differ e f es fp same))
              (λ m. absurd (not-mem-nil m))))
      (λ ne.
        Or.elim (FileEntry_set e f) (mem-cons.0 ne)
          (λ ep.
            Or.elim (FileEntry_set e f) (mem-cons.0 mf)
              (λ fs. absurd (paths_differ f e fs ep (sym same)))
              (λ nf.
                Or.elim (FileEntry_set e f) (mem-cons.0 nf) (λ fp. ep ∙ sym fp)
                  (λ m. absurd (not-mem-nil m))))
          (λ m. absurd (not-mem-nil m)))

abbrev reversed : Bundle
reversed = record { entries = page ∷ style ∷ []; capacity = 2 }

bundle_pack-perm_example :
    bundle_pack insertion_qsort true two_files ≡ bundle_pack insertion_qsort true reversed
bundle_pack-perm_example =
    bundle_pack-perm insertion_qsort insertion_qsort true two_files reversed one_entry_each
      (Perm.swap page style [])

outputs_differ : bytes_eq (codes "o.h") (codes "o.c") ≡ false
unfolding bytes_eq
outputs_differ = refl

read_source-write_c_source_example :
    (text : Bytes) × (get_property
        (codes "o.c")
        (write_c_source true true
          (codes "o.c")
          (codes "o.h")
          (codes "assets_blob")
          (0 ∷ 254 ∷ 9 ∷ [])).files
      ≡ some text)
    × (read_source text ≡ some (0 ∷ 254 ∷ 9 ∷ [], 3))
read_source-write_c_source_example =
    read_source-write_c_source (codes "o.c") (codes "o.h") (codes "assets_blob") (0 ∷ 254 ∷ 9 ∷ [])
      outputs_differ (omega arith) (omega arith) (λ e. cc) (omega arith)

-- Every file holds three bytes.
abbrev readable : FileCalls
readable = record {
  opens = true;
  seeks = true;
  tell = some 3;
  malloc = true;
  bytes = codes "b{}";
  strdup = true;
}

abbrev pub all_succeed : PackerCalls
all_succeed = record {
  calloc = true;
  file_calls = λ i. readable;
  malloc_packed = true;
  malloc_compressed = true;
  opens_source = true;
  opens_header = true;
}

abbrev pub settings : List Setting
settings = source_is (codes "o.c") ∷ header_is (codes "o.h") ∷ level_is (codes "6") 6 ∷ []

pub level_six : level_of (codes "6") ≡ some 6
unfolding level_of strtol
level_six = refl

pub stored-IsBound : IsBound stored
stored-IsBound level n bytes = omega (arith, length-take n bytes)

pub source_given : (apply settings defaults).output_source ≡ some (codes "o.c")
unfolding apply
source_given = refl

pub header_given : (apply settings defaults).output_header ≡ some (codes "o.h")
unfolding apply
header_given = refl

given_files : All IsFile (codes "a.js" ∷ codes "a.js.map" ∷ [])
unfolding is_option
given_files = (refl, (refl, tt))

pub all_succeed-IsSmooth : IsSmooth all_succeed
all_succeed-IsSmooth = record {
  calloc = refl;
  readable = λ i. record {
    opens = refl;
    seeks = refl;
    tell = refl;
    malloc = refl;
    strdup = refl;
    small = omega arith;
  };
  malloc_packed = refl;
  malloc_compressed = refl;
  opens_source = refl;
  opens_header = refl;
}

packer_main_lem_example :
    (packed : Bytes) × (n : ℕ) × (blob : Bytes) × (bundle_pack insertion_qsort true
        (bundle_of all_succeed (codes "a.js" ∷ codes "a.js.map" ∷ []))
      ≡ some (packed, n))
    × (compress_bundle stored true packed n (apply settings defaults).compression_level ≡ some blob)
    × ((packer_main insertion_qsort stored all_succeed
          (arguments settings ++ codes "a.js" ∷ codes "a.js.map" ∷ [])).status
        ≡ 0)
    × ((path : Bytes)
        → get_property path
            (packer_main insertion_qsort stored all_succeed
              (arguments settings ++ codes "a.js" ∷ codes "a.js.map" ∷ [])).generated.files
          ≡ (if bytes_eq (codes "o.h") path
              then some (header_text (apply settings defaults).symbol_name)
              else if bytes_eq (codes "o.c") path
              then some (source_text (apply settings defaults).symbol_name blob)
              else none))
packer_main_lem_example =
    packer_main_lem insertion_qsort stored all_succeed settings (codes "a.js")
      (codes "a.js.map" ∷ []) (codes "o.c") (codes "o.h") stored-IsBound (tt, (tt, (level_six, tt)))
      source_given header_given given_files all_succeed-IsSmooth
