-- ===== src/Overlay/Write.antt =====
-- `overlay_fs_write` of hbf/db/overlay_fs.c. Every call of SQLite that the function checks has an
-- outcome in `WriteCalls`, so the model runs on every combination of failures.
use hbf.Base.{
  ℕ, ◌+◌, ◌-◌, ◌^◌, Bool, not, Option, none, some, [], Bytes, length, take, ltb, if◌then◌else◌,
}
use hbf.Overlay.Schema.{Db, select_file_id, insert_file_id, max_version, insert_version}

-- Whether `sqlite3_prepare_v2` returns SQLITE_OK and `sqlite3_step` does the statement's work, at
-- each call site. A step that violates a constraint fails whatever this says.
pub record WriteCalls : Type 0 where
  pub prepare_get_id : Bool
  pub step_get_id : Bool
  pub prepare_insert_id : Bool
  pub step_insert_id : Bool
  pub prepare_get_version : Bool
  pub step_get_version : Bool
  pub prepare_insert : Bool
  pub step_insert : Bool

-- `rejected` is the -1 of the argument checks, `failed` any other -1 with the database that it
-- leaves, `done` the 0. `wrapped` stands for the runs where a C `int` cannot hold a row id, a
-- version number or a size; they are not modelled.
pub data Write : Type 0 where
  done : Db → Write
  failed : Db → Write
  rejected : Write
  wrapped : Write

-- The largest `int`.
abbrev pub int_max : ℕ
int_max = 2 ^ 31 - 1

-- "Insert new version". A NULL pointer binds an empty blob where the size is 0.
unfoldable pub write_version : WriteCalls → ℕ → Bytes → Bytes → ℕ → ℕ → Db → Write
write_version calls now path content id next_version db =
    if not calls.prepare_insert
    then failed db
    else if ltb int_max (length content)
    then wrapped
    else elim (insert_version
        (record {
          file_id = id;
          path = path;
          version_number = next_version;
          mtime = now;
          size = length content;
          content = content;
        })
        db) [ none ↦ failed db | some db' ↦ if calls.step_insert then done db' else failed db ]

-- "Create new file_id", then version 1.
unfoldable pub write_new : WriteCalls → ℕ → Bytes → Bytes → Db → Write
unfolding write_version
write_new calls now path content db =
    if not calls.prepare_insert_id then failed db else elim (insert_file_id path db) [
      | none ↦ failed db
      | some db' ↦
          if not calls.step_insert_id
          then failed db
          else if ltb int_max db.next_id
          then wrapped
          else write_version calls now path content db.next_id 1 db'
    ]

-- "Get next version number", then the version. A step without a row leaves the number at 1.
unfoldable pub write_next : WriteCalls → ℕ → Bytes → Bytes → ℕ → Db → Write
unfolding write_version
write_next calls now path content id db =
    if not calls.prepare_get_version
    then failed db
    else if not calls.step_get_version
    then write_version calls now path content id 1 db
    else if ltb int_max (max_version id db.file_versions + 1)
    then wrapped
    else write_version calls now path content id (max_version id db.file_versions + 1) db

-- "Get or create file_id". A step without a row leaves `file_id` at -1.
unfoldable pub write_file : WriteCalls → ℕ → Bytes → Bytes → Db → Write
unfolding write_new write_next
write_file calls now path content db =
    if not calls.prepare_get_id
    then failed db
    else elim (if calls.step_get_id then select_file_id path db.file_ids else none) [
      | none ↦ write_new calls now path content db
      | some id ↦ if ltb int_max id then wrapped else write_next calls now path content id db
    ]

-- `overlay_fs_write(db, path, data, size)`: a NULL argument is `none`, `now` is `time(NULL)`. The
-- caller's buffer has at least `size` bytes.
unfoldable pub overlay_fs_write :
    WriteCalls → ℕ → Option Db → Option Bytes → Option Bytes → ℕ → Write
unfolding write_file
overlay_fs_write calls now none path buffer size = rejected
overlay_fs_write calls now (some db) none buffer size = rejected
overlay_fs_write calls now (some db) (some path) none size =
    if ltb 0 size then rejected else write_file calls now path [] db
overlay_fs_write calls now (some db) (some path) (some buffer) size =
    write_file calls now path (take size buffer) db
