-- ===== src/Overlay/Read.antt =====
-- The read operations of hbf/db/overlay_fs.c, and the operations on its global handle.
use hbf.Base.{ℕ, Bool, true, false, not, Option, none, some, Bytes, length, if◌then◌else◌}
use hbf.Overlay.Schema.{Db, Version, select_file_id, newest_version, latest_file, count_versions}
use hbf.Overlay.Write.{Write, WriteCalls, rejected, overlay_fs_write}

-- Whether the prepare, the step and the allocation of a read succeed.
pub record ReadCalls : Type 0 where
  pub prepare : Bool
  pub step : Bool
  pub malloc : Bool

-- `found buffer size` is the 0 with the two outputs, `missing` any -1.
pub data Read : Type 0 where
  found : Option Bytes → ℕ → Read
  missing : Read

-- The row's blob is copied; an empty file gets a buffer of its own too.
unfoldable pub copy_blob : ReadCalls → Option Version → Read
copy_blob calls none = missing
copy_blob calls (some v) =
    if not calls.malloc then missing else found (some v.content) (length v.content)

-- WITH file_info AS (SELECT file_id FROM file_ids WHERE path = ?) SELECT fv.data …
unfoldable pub select_newest : Bytes → Db → Option Version
select_newest path db = elim (select_file_id path db.file_ids) [
  | none ↦ none
  | some id ↦ newest_version id db.file_versions
]

-- `overlay_fs_read(db, path, data, size)`; `outputs` says that neither output pointer is NULL.
unfoldable pub overlay_fs_read : ReadCalls → Option Db → Option Bytes → Bool → Read
unfolding copy_blob select_newest
overlay_fs_read calls none path outputs = missing
overlay_fs_read calls (some db) none outputs = missing
overlay_fs_read calls (some db) (some path) outputs =
    if not outputs
    then missing
    else if not calls.prepare
    then missing
    else if not calls.step
    then missing
    else copy_blob calls (select_newest path db)

-- `overlay_fs_exists(db, path)`; `none` is the -1.
unfoldable pub overlay_fs_exists : ReadCalls → Option Db → Option Bytes → Option Bool
overlay_fs_exists calls none path = none
overlay_fs_exists calls (some db) none = none
overlay_fs_exists calls (some db) (some path) =
    if not calls.prepare
    then none
    else if not calls.step
    then none
    else elim (select_file_id path db.file_ids) [ some _ ↦ some true | none ↦ some false ]

-- `overlay_fs_version_count(db, path)`; `none` is the -1.
unfoldable pub overlay_fs_version_count : ReadCalls → Option Db → Option Bytes → Option ℕ
overlay_fs_version_count calls none path = none
overlay_fs_version_count calls (some db) none = none
overlay_fs_version_count calls (some db) (some path) =
    if not calls.prepare
    then none
    else if not calls.step
    then none
    else some (count_versions path db.file_ids db.file_versions)

-- The static variable `g_overlay_db`, set by `overlay_fs_init_global`.
pub record Global : Type 0 where
  pub g_overlay_db : Option Db

unfoldable pub overlay_fs_init_global : Option Db → Global → Global
overlay_fs_init_global db g = record { g_overlay_db = db }

-- SELECT data FROM latest_files WHERE path = ?
unfoldable pub select_latest : Bytes → Db → Option Version
select_latest path db = latest_file db.file_versions path db.file_versions

-- `overlay_fs_read_file(path, dev, data, size)`; `dev` is not used.
unfoldable pub overlay_fs_read_file : ReadCalls → Global → Option Bytes → ℕ → Bool → Read
unfolding copy_blob select_latest
overlay_fs_read_file calls g path dev outputs = elim g.g_overlay_db [
  | none ↦ missing
  | some db ↦ elim path [
    | none ↦ missing
    | some name ↦
        if not outputs
        then missing
        else if not calls.prepare
        then missing
        else if not calls.step
        then missing
        else copy_blob calls (select_latest name db)
  ]
]

-- `overlay_fs_write_file(path, data, size)`
unfoldable pub overlay_fs_write_file :
    WriteCalls → ℕ → Global → Option Bytes → Option Bytes → ℕ → Write
unfolding overlay_fs_write
overlay_fs_write_file calls now g path buffer size = elim g.g_overlay_db [
  | none ↦ rejected
  | some db ↦ overlay_fs_write calls now (some db) path buffer size
]
