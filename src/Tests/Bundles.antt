-- ===== src/Tests/Bundles.antt =====
-- A bundle of two files, packed and migrated over a database with one file.
use hbf.Base.{
  bytes_eq, bytes_eq_iff, Bool-cases, inl, inr, ap, sym, lt→ltb, ◌==◌, ◌*◌, ◌⊎◌, ℕ, ◌+◌, ◌^◌, ◌≤◌,
  ◌<◌, ◌≡◌, refl, true, false, Option, none, some, [], ◌∷◌, ◌++◌, Bytes, codes, length, All, ltb,
  ge→ltb, if◌then◌else◌, arith,
}
use hbf.Packer.{
  FileEntry, Bundle, FileCalls, Zlib, pack_entry, pack_entries, bundle_pack, bundle_add_file,
  compress_bundle, path_le,
}
use hbf.Packer.Words.{u64, put_u32}
use hbf.Overlay.Schema.{select_migration, count_versions, count_ids}
use hbf.Overlay.Read.{found, overlay_fs_read}
use hbf.Overlay.History.{IsConsistent}
use hbf.Overlay.ReadBack.{read_calls}
use hbf.Migrate.{
  Conn, MigrateCalls, ended, migrate_ok, migrate_err_decompress, compute_bundle_id,
  overlay_fs_migrate_assets,
}
use hbf.Migrate.Atomic.{overlay_fs_migrate_assets-Settles}
use hbf.Migrate.Settle.{IsApplied, Settles}
use hbf.Migrate.Merged.{every_call, IsMigratable, IsRoomy, last_content}
use hbf.Migrate.Packed.{overlay_fs_migrate_assets-bundle_pack}
use hbf.Migrate.Dense.{overlay_fs_migrate_assets_too_dense}
use hbf.Tests.Sorting.{insertion_qsort, insertion_sort, insert}
use hbf.Tests.Store.{home, one_file, one_file-IsConsistent}
use hbf.Tests.Hashes.{stale}

-- A format that stores the bytes behind a header byte.
unfoldable pub stored_uncompress : ℕ → Bytes → Option Bytes
stored_uncompress cap [] = none
stored_uncompress cap (b ∷ bs) = if ltb cap (length bs) then none else some bs

abbrev pub stored : Zlib
stored = record {
  compress_bound = λ n. n + 13;
  compress = λ level d. 0x78 ∷ d;
  uncompress = stored_uncompress;
}

pub stored_round_trip :
    (level cap : ℕ) (d : Bytes)
    → length d ≤ cap
    → stored.uncompress cap (stored.compress level d) ≡ some d
unfolding stored_uncompress
stored_round_trip level cap d h = rw (ge→ltb _ _ h) refl

abbrev pub style : FileEntry
style = record { path = codes "s.css"; content = codes "b{}"; data_len = 3 }

abbrev pub page : FileEntry
page = record { path = home; content = codes "new"; data_len = 3 }

abbrev pub two_files : Bundle
two_files = record { entries = style ∷ page ∷ []; capacity = 2 }

abbrev pub packed : Bytes
packed = put_u32 2 ++ (pack_entry page ++ (pack_entry style ++ []))

abbrev conn : Conn
conn = record { db = one_file; saved = none }

abbrev pub calls : MigrateCalls
calls = every_call stale (λ i. 11) 12

pub two_files-pack : bundle_pack insertion_qsort true two_files ≡ some (packed, 36)
unfolding bundle_pack insertion_sort insert path_le pack_entries put_u32
two_files-pack = refl

pub packed-compress : compress_bundle stored true packed 36 9 ≡ some (0x78 ∷ packed)
unfolding compress_bundle pack_entry put_u32
packed-compress = refl

packed_small : (length packed < 2 ^ 64) × (length packed ≤ 300)
unfolding pack_entry put_u32
packed_small = (omega arith, omega arith)

page-IsMigratable : IsMigratable page
page-IsMigratable = record {
  packable = record { name_fits = omega arith; same_len = refl; data_fits = omega arith };
  text = ground arith;
  name_len = omega arith;
  content_len = omega arith;
}

style-IsMigratable : IsMigratable style
style-IsMigratable = record {
  packable = record { name_fits = omega arith; same_len = refl; data_fits = omega arith };
  text = ground arith;
  name_len = omega arith;
  content_len = omega arith;
}

packed_ratio : length packed ≤ u64 (length (0x78 ∷ packed) * 10)
unfolding pack_entry put_u32
packed_ratio = omega arith

two_files-IsMigratable : All IsMigratable (insertion_qsort.sort two_files.entries)
unfolding insertion_sort insert path_le
two_files-IsMigratable = (page-IsMigratable, (style-IsMigratable, tt))

pub roomy : IsRoomy 2 one_file
unfolding count_versions count_ids
roomy = record { ids = omega arith; versions = λ q. ground arith }

IsRoomy-sorted : IsRoomy (length (insertion_qsort.sort two_files.entries)) one_file
unfolding insertion_sort insert path_le
IsRoomy-sorted = roomy

pub new_bundle :
    (blob : Bytes) → select_migration (compute_bundle_id stale blob) one_file.migrations ≡ false
unfolding select_migration
new_bundle blob = refl

overlay_fs_migrate_assets-bundle_pack_example :
    (c' : Conn) × (overlay_fs_migrate_assets stored_uncompress calls (0x78 ∷ packed) conn
      ≡ ended migrate_ok c')
    × (c'.saved ≡ none)
    × ((path : Bytes)
        → overlay_fs_read read_calls (some c'.db) (some path) true
          ≡ (elim (last_content path (insertion_qsort.sort two_files.entries)) [
            | some content ↦ found (some content) (length content)
            | none ↦ overlay_fs_read read_calls (some one_file) (some path) true
          ]))
overlay_fs_migrate_assets-bundle_pack_example =
    overlay_fs_migrate_assets-bundle_pack stored stored_round_trip stale (λ i. 11) 12
      insertion_qsort two_files 9 conn two_files-pack packed-compress one_file-IsConsistent refl
      two_files-IsMigratable IsRoomy-sorted packed_small.0 packed_ratio (new_bundle (0x78 ∷ packed))

abbrev commit_fails : MigrateCalls
commit_fails = record calls { commits = false }

overlay_fs_migrate_assets-Settles_example :
    Settles
      (compute_bundle_id stale (0x78 ∷ packed))
      conn
      (IsApplied stored_uncompress commit_fails (0x78 ∷ packed) one_file)
      (λ c'.
        IsConsistent c'.db
        × ((c' ≡ conn)
            ⊎ (((commit_fails.commits ≡ false) ⊎ (commit_fails.rolls_back ≡ false))
                × (c'.saved ≡ some one_file))))
      (overlay_fs_migrate_assets stored_uncompress commit_fails (0x78 ∷ packed) conn)
overlay_fs_migrate_assets-Settles_example =
    overlay_fs_migrate_assets-Settles stored_uncompress commit_fails (0x78 ∷ packed) conn
      one_file-IsConsistent refl

-- A format with one entry in its dictionary, the bundle of the two files.
unfoldable dictionary_uncompress : ℕ → Bytes → Option Bytes
dictionary_uncompress cap [] = none
dictionary_uncompress cap (b ∷ bs) =
    let bytes = if b == 0 then packed else bs in if ltb cap (length bytes) then none else some bytes

unfoldable dictionary_compress : Bytes → Bytes
dictionary_compress d = if bytes_eq d packed then 0 ∷ [] else 1 ∷ d

abbrev dictionary : Zlib
dictionary = record {
  compress_bound = λ n. n + 1;
  compress = λ level d. dictionary_compress d;
  uncompress = dictionary_uncompress;
}

dictionary_refuses :
    (level cap : ℕ) (d : Bytes)
    → cap < length d
    → dictionary.uncompress cap (dictionary.compress level d) ≡ none
unfolding dictionary_uncompress dictionary_compress
dictionary_refuses level cap d h = elim (Bool-cases (bytes_eq d packed)) [
  | inl e ↦
      let same : length packed ≡ length d = sym (ap length ((bytes_eq_iff d packed).0 e)) in
      rw e (rw same (rw (lt→ltb cap (length d) h) refl))
  | inr e ↦ rw e (rw (lt→ltb cap (length d) h) refl)
]

packed-dictionary : compress_bundle dictionary true packed 36 9 ≡ some (0 ∷ [])
unfolding compress_bundle dictionary_compress pack_entry put_u32 bytes_eq
packed-dictionary = refl

abbrev dense_blob : Bytes
dense_blob = 0 ∷ []

packed_dense : u64 (length dense_blob * 10) < length packed
unfolding pack_entry put_u32
packed_dense = omega arith

overlay_fs_migrate_assets_too_dense_example :
    overlay_fs_migrate_assets dictionary_uncompress calls (0 ∷ []) conn
    ≡ ended migrate_err_decompress conn
overlay_fs_migrate_assets_too_dense_example =
    overlay_fs_migrate_assets_too_dense dictionary dictionary_refuses insertion_qsort two_files 9
      packed (0 ∷ []) 36 calls conn two_files-pack packed-dictionary two_files-IsMigratable
      packed_small.0 packed_dense (λ e. cc) refl (new_bundle (0 ∷ []))

abbrev file_calls : FileCalls
file_calls = record {
  opens = true;
  seeks = true;
  tell = some 3;
  malloc = true;
  bytes = codes "new";
  strdup = true;
}

abbrev style_bundle : Bundle
style_bundle = record { entries = style ∷ []; capacity = 2 }

file_added : bundle_add_file file_calls home style_bundle ≡ some two_files
unfolding bundle_add_file
file_added = refl
