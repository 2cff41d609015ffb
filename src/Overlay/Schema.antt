-- ===== src/Overlay/Schema.antt =====
-- The tables and the view of hbf/db/overlay_schema.sql, and the statements that
-- hbf/db/overlay_fs.c and hbf/db/db.c run over them.
use hbf.Base.{
  ℕ, suc, ◌+◌, Bool, false, ◌&&◌, ◌||◌, Option, none, some, List, [], ◌∷◌, Bytes, bytes_eq, ltb,
  leb, ◌==◌, if◌then◌else◌,
}

-- A row of `file_ids`.
pub record FileId : Type 0 where
  pub file_id : ℕ
  pub path : Bytes

-- A row of `file_versions`; `content` is its column `data`.
pub record Version : Type 0 where
  pub file_id : ℕ
  pub path : Bytes
  pub version_number : ℕ
  pub mtime : ℕ
  pub size : ℕ
  pub content : Bytes

-- A row of `latest_files_meta`.
pub record Meta : Type 0 where
  pub file_id : ℕ
  pub path : Bytes
  pub version_number : ℕ
  pub mtime : ℕ
  pub size : ℕ

-- A row of `migrations`.
pub record Migration : Type 0 where
  pub bundle_id : Bytes
  pub applied_at : ℕ
  pub entries : ℕ

-- A database with the schema applied. Each table lists its newest row first. `next_id` is what
-- AUTOINCREMENT gives to the next row of `file_ids`.
pub record Db : Type 0 where
  pub file_ids : List FileId
  pub next_id : ℕ
  pub file_versions : List Version
  pub latest_files_meta : List Meta
  pub migrations : List Migration

-- SELECT file_id FROM file_ids WHERE path = ?
unfoldable pub select_file_id : Bytes → List FileId → Option ℕ
select_file_id path [] = none
select_file_id path (f ∷ fs) =
    if bytes_eq f.path path then some f.file_id else select_file_id path fs

-- INSERT INTO file_ids (path) VALUES (?); `none` where UNIQUE (path) is violated.
unfoldable pub insert_file_id : Bytes → Db → Option Db
insert_file_id path db = elim (select_file_id path db.file_ids) [
  | some _ ↦ none
  | none ↦ some (record db {
    file_ids = record { file_id = db.next_id; path = path } ∷ db.file_ids;
    next_id = db.next_id + 1;
  })
]

-- SELECT MAX(version_number) FROM file_versions WHERE file_id = ?; an absent maximum is NULL,
-- which `sqlite3_column_int` reads as 0.
unfoldable pub max_version : ℕ → List Version → ℕ
max_version id [] = 0
max_version id (v ∷ vs) =
    let rest = max_version id vs in
    if v.file_id == id then (if ltb rest v.version_number then v.version_number else rest) else rest

-- Whether PRIMARY KEY (file_id, version_number) has this key.
unfoldable pub has_version : ℕ → ℕ → List Version → Bool
has_version id n [] = false
has_version id n (v ∷ vs) = (v.file_id == id && v.version_number == n) || has_version id n vs

unfoldable pub meta_of : Version → Meta
meta_of v = record {
  file_id = v.file_id;
  path = v.path;
  version_number = v.version_number;
  mtime = v.mtime;
  size = v.size;
}

-- INSERT INTO latest_files_meta … ON CONFLICT(file_id) DO UPDATE SET …
-- WHERE excluded.version_number >= latest_files_meta.version_number
unfoldable pub upsert_meta : Meta → List Meta → List Meta
upsert_meta m [] = m ∷ []
upsert_meta m (x ∷ xs) =
    if x.file_id == m.file_id
    then ((if leb x.version_number m.version_number then m else x) ∷ xs)
    else x ∷ upsert_meta m xs

-- INSERT INTO file_versions …, with the trigger trg_file_versions_ai; `none` where the primary
-- key is violated.
unfoldable pub insert_version : Version → Db → Option Db
insert_version v db =
    if has_version v.file_id v.version_number db.file_versions
    then none
    else some (record db {
      file_versions = v ∷ db.file_versions;
      latest_files_meta = upsert_meta (meta_of v) db.latest_files_meta;
    })

-- SELECT data FROM file_versions WHERE file_id = ? ORDER BY version_number DESC LIMIT 1
unfoldable pub newest_version : ℕ → List Version → Option Version
newest_version id [] = none
newest_version id (v ∷ vs) =
    let rest = newest_version id vs in
    if v.file_id == id
    then (elim rest [
      | none ↦ some v
      | some w ↦ if ltb v.version_number w.version_number then some w else some v
    ])
    else rest

-- SELECT … FROM latest_files WHERE path = ?: the view joins each version with the maximum of its
-- file in the table `all`, and the scan takes the first row at the path.
unfoldable pub latest_file : List Version → Bytes → List Version → Option Version
latest_file all path [] = none
latest_file all path (v ∷ vs) =
    if bytes_eq v.path path && v.version_number == max_version v.file_id all
    then some v
    else latest_file all path vs

-- SELECT COUNT(*) FROM file_versions fv JOIN file_ids fi ON fv.file_id = fi.file_id
-- WHERE fi.path = ?: the pairs of a version and a file id row at the path.
unfoldable pub count_ids : ℕ → Bytes → List FileId → ℕ
count_ids id path [] = 0
count_ids id path (f ∷ fs) =
    let rest = count_ids id path fs in
    if f.file_id == id && bytes_eq f.path path then suc rest else rest

unfoldable pub count_versions : Bytes → List FileId → List Version → ℕ
count_versions path fs [] = 0
count_versions path fs (v ∷ vs) = count_ids v.file_id path fs + count_versions path fs vs

-- SELECT 1 FROM migrations WHERE bundle_id = ? LIMIT 1
unfoldable pub select_migration : Bytes → List Migration → Bool
select_migration bundle_id [] = false
select_migration bundle_id (m ∷ ms) =
    bytes_eq m.bundle_id bundle_id || select_migration bundle_id ms

-- INSERT INTO migrations …; `none` where the primary key is violated.
unfoldable pub insert_migration : Migration → Db → Option Db
insert_migration m db =
    if select_migration m.bundle_id db.migrations
    then none
    else some (record db { migrations = m ∷ db.migrations })

abbrev pub empty_db : Db
empty_db = record {
  file_ids = [];
  next_id = 1;
  file_versions = [];
  latest_files_meta = [];
  migrations = [];
}
