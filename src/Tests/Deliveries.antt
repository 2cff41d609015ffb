-- ===== src/Tests/Deliveries.antt =====
-- A script and its source map: packed, migrated at the start and requested.
use hbf.Base.{
  get_property, none, ◌*◌, ◌^◌, ◌≤◌, ◌<◌, ◌≡◌, ◌≢◌, refl, true, false, some, List, [], ◌∷◌, ◌++◌,
  Bytes, IsByte, All, codes, bytes_eq, length, arith,
}
use hbf.Packer.{should_skip_file, FileEntry, pack_entry, pack_entries, bundle_pack, compress_bundle}
use hbf.Packer.Words.{u64, put_u32}
use hbf.Packer.Reading.{read_source}
use hbf.Packer.Program.{is_option, defaults, packer_main}
use hbf.Packer.Program.Files.{IsFile, arguments, apply, entries_of}
use hbf.Packer.Program.Outputs.{bundle_of}
use hbf.Overlay.Read.{Global}
use hbf.Overlay.Schema.{count_versions, count_ids}
use hbf.Overlay.ReadBack.{read_calls}
use hbf.Migrate.{Conn}
use hbf.Migrate.Merged.{every_call, IsMigratable, IsRoomy, last_content}
use hbf.DbInit.{opened, hbf_db_init, hbf_db_close}
use hbf.Server.{written, file_reply, get_mime_type, static_handler}
use hbf.Delivery.Start.{starting}
use hbf.Delivery.{packer_main-static_handler}
use hbf.Tests.Sorting.{insertion_qsort, insertion_sort, insert}
use hbf.Tests.Store.{one_file, one_file-IsConsistent}
use hbf.Tests.Hashes.{stale}
use hbf.Tests.Bundles.{calls, stored, stored_uncompress, stored_round_trip, new_bundle}
use hbf.Tests.Builds.{
  settings, all_succeed, level_six, stored-IsBound, source_given, header_given,
  all_succeed-IsSmooth,
}

abbrev pub no_database : Global
no_database = record { g_overlay_db = none }

abbrev script : FileEntry
script = record { path = codes "static/a.js"; content = codes "b{}"; data_len = 3 }

abbrev scripts : List Bytes
scripts = codes "static/a.js" ∷ codes "static/a.js.map" ∷ []

abbrev packed_script : Bytes
packed_script = put_u32 1 ++ (pack_entry script ++ [])

packs : bundle_pack insertion_qsort true (bundle_of all_succeed scripts) ≡ some (packed_script, 26)
unfolding entries_of should_skip_file bundle_pack insertion_sort insert pack_entries put_u32
    bytes_eq
packs = refl

compresses :
    compress_bundle stored true packed_script 26 (apply settings defaults).compression_level
    ≡ some (0x78 ∷ packed_script)
unfolding compress_bundle pack_entry put_u32 apply
compresses = refl

named : All (λ c. (c ≢ b'{') × (c ≢ b'=')) (apply settings defaults).symbol_name
unfolding apply
named = omega arith

two_outputs : bytes_eq (codes "o.h") (codes "o.c") ≡ false
unfolding bytes_eq
two_outputs = refl

script_files : All IsFile scripts
unfolding is_option
script_files = (refl, (refl, tt))

script_bytes : All IsByte (0x78 ∷ packed_script)
unfolding pack_entry put_u32
script_bytes = ground arith

script_small :
    (length (0x78 ∷ packed_script) < 10 ^ 20)
    × (length packed_script < 2 ^ 64)
    × (length packed_script ≤ u64 (length (0x78 ∷ packed_script) * 10))
unfolding pack_entry put_u32
script_small = (omega arith, omega arith, omega arith)

script-IsMigratable :
    All IsMigratable (insertion_qsort.sort (bundle_of all_succeed scripts).entries)
unfolding entries_of should_skip_file insertion_sort insert bytes_eq
script-IsMigratable = (
  record {
    packable = record { name_fits = omega arith; same_len = refl; data_fits = omega arith };
    text = ground arith;
    name_len = omega arith;
    content_len = omega arith;
  },
  tt,
)

script_room :
    IsRoomy (length (insertion_qsort.sort (bundle_of all_succeed scripts).entries)) one_file
unfolding entries_of should_skip_file insertion_sort insert count_versions count_ids bytes_eq
script_room = record { ids = omega arith; versions = λ q. ground arith }

script_last :
    last_content
      (codes "static/a.js")
      (insertion_qsort.sort (bundle_of all_succeed scripts).entries)
    ≡ some (codes "b{}")
unfolding entries_of should_skip_file insertion_sort insert last_content bytes_eq
script_last = refl

packer_main-static_handler_example :
    ((text : Bytes) × (get_property
          (codes "o.c")
          (packer_main insertion_qsort stored all_succeed
            (arguments settings ++ scripts)).generated.files
        ≡ some text)
      × (read_source text ≡ some (0x78 ∷ packed_script, length (0x78 ∷ packed_script))))
    × ((conn : Conn) × (g' : Global) × (hbf_db_init stored_uncompress
            (starting (every_call stale (λ i. 11) 12) one_file)
            (0x78 ∷ packed_script)
            false
            no_database
          ≡ opened conn g')
        × (hbf_db_init stored_uncompress
              (starting calls (hbf_db_close conn))
              (0x78 ∷ packed_script)
              false
              no_database
            ≡ opened conn g')
        × (static_handler read_calls g' (some (codes "/static/" ++ codes "a.js"))
            ≡ written 200
                (file_reply (get_mime_type (codes "static/" ++ codes "a.js")) (codes "b{}"))))
packer_main-static_handler_example =
    packer_main-static_handler insertion_qsort stored all_succeed settings (codes "static/a.js")
      (codes "static/a.js.map" ∷ []) (codes "o.c") (codes "o.h") packs compresses stored_round_trip
      stale (λ i. 11) 12 calls one_file no_database (codes "a.js") (codes "b{}") stored-IsBound
      (tt, (tt, (level_six, tt))) source_given header_given two_outputs named script_files
      all_succeed-IsSmooth script_bytes script_small.0 script_small.1 script_small.2
      one_file-IsConsistent refl refl refl refl script-IsMigratable script_room
      (new_bundle (0x78 ∷ packed_script)) (omega arith) script_last
