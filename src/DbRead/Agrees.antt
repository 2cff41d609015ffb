-- ===== src/DbRead/Agrees.antt =====
-- The reads of hbf/db/db.c against those of hbf/db/overlay_fs.c.
use hbf.Base.{
  ◌==◌, arith, ◌≡◌, refl, Bool, true, false, ◌&&◌, Option, none, some, Bytes, length, [], ◌∷◌,
  if◌then◌else◌,
}
use hbf.Overlay.Schema.{Db, Version}
use hbf.Overlay.Read.{ReadCalls, Read, found, missing, copy_blob, overlay_fs_read, select_newest}
use hbf.Overlay.History.{IsConsistent}
use hbf.Overlay.ReadBack.{select_latest-eq-select_newest}
use hbf.DbRead.{
  DbReadCalls, copy_data, hbf_db_read_file, hbf_db_read_file_from_main, hbf_db_file_exists_in_main,
}

-- A read without the buffer of an empty file.
unfoldable pub without_empty : Read → Read
without_empty missing = missing
without_empty (found none size) = found none size
without_empty (found (some []) size) = found none 0
without_empty (found (some (b ∷ bs)) size) = found (some (b ∷ bs)) size

abbrev pub is_found : Read → Bool
is_found missing = false
is_found (found buffer size) = true

-- The answers of SQLite, where memory is given.
abbrev pub answers : Bool → Bool → Bool → DbReadCalls
answers prepare bind step = record { prepare = prepare; bind = bind; step = step; malloc = true }

-- The same answers for a read of the file system, which does not look at the bind's.
abbrev pub overlay_answers : Bool → Bool → Bool → ReadCalls
overlay_answers prepare bind step = record { prepare = prepare && bind; step = step; malloc = true }

copy_data-eq-copy_blob :
    (row : Option Version)
    → copy_data (answers true true true) row
      ≡ without_empty (copy_blob (overlay_answers true true true) row)
unfolding copy_data copy_blob without_empty
copy_data-eq-copy_blob none = refl
copy_data-eq-copy_blob (some v) = copied v.content
  where
    copied :
        (bytes : Bytes)
        → (if length bytes == 0 then found none 0 else found (some bytes) (length bytes))
          ≡ without_empty (found (some bytes) (length bytes))
    copied [] = refl
    copied (b ∷ bs) = ground arith

-- The read of the view, by the row that a read by file id takes.
read_file_at_newest :
    (prepare bind step outputs use_overlay : Bool) (db : Db) (path : Bytes)
    → IsConsistent db
    → hbf_db_read_file (answers prepare bind step) (some db) (some path) use_overlay outputs
      ≡ without_empty
          (overlay_fs_read (overlay_answers prepare bind step) (some db) (some path) outputs)
unfolding hbf_db_read_file overlay_fs_read without_empty
read_file_at_newest prepare bind step false use_overlay db path h = refl
read_file_at_newest false bind step true use_overlay db path h = refl
read_file_at_newest true false step true use_overlay db path h = refl
read_file_at_newest true true false true use_overlay db path h = refl
read_file_at_newest true true true true use_overlay db path h =
    rw (select_latest-eq-select_newest path db h) (copy_data-eq-copy_blob (select_newest path db))

exists_at_newest :
    (prepare bind step : Bool) (db : Db) (path : Bytes)
    → IsConsistent db
    → hbf_db_file_exists_in_main (answers prepare bind step) (some db) (some path) ≡ (
        if prepare && bind
        then some (
            is_found
              (overlay_fs_read (overlay_answers prepare bind step) (some db) (some path) true))
        else none)
unfolding hbf_db_file_exists_in_main overlay_fs_read
exists_at_newest false bind step db path h = refl
exists_at_newest true false step db path h = refl
exists_at_newest true true false db path h = refl
exists_at_newest true true true db path h =
    rw (select_latest-eq-select_newest path db h) (exists_row (select_newest path db))
  where
    exists_row :
        (row : Option Version)
        → (elim row [ none ↦ some false | some v ↦ some true ])
          ≡ some (is_found (copy_blob (overlay_answers true true true) row))
    exists_row none = refl
    exists_row (some v) = refl

-- On consistent tables and where memory is given, the two reads of hbf/db/db.c find what
-- `overlay_fs_read` finds, whatever `use_overlay`, which has no effect, and the other calls answer,
-- except that an empty
-- file comes without a buffer; and a path exists exactly where its read finds it.
pub hbf_db_read_file-eq-overlay_fs_read :
    (prepare bind step outputs use_overlay : Bool) (db : Db) (path : Bytes)
    → IsConsistent db
    → (hbf_db_read_file (answers prepare bind step) (some db) (some path) use_overlay outputs
        ≡ without_empty
            (overlay_fs_read (overlay_answers prepare bind step) (some db) (some path) outputs))
      × (hbf_db_read_file_from_main (answers prepare bind step) (some db) (some path) outputs
          ≡ hbf_db_read_file (answers prepare bind step) (some db) (some path) use_overlay outputs)
      × (hbf_db_file_exists_in_main (answers prepare bind step) (some db) (some path) ≡ (
          if prepare && bind
          then some (
              is_found
                (overlay_fs_read (overlay_answers prepare bind step) (some db) (some path) true))
          else none))
unfolding hbf_db_read_file_from_main hbf_db_read_file
hbf_db_read_file-eq-overlay_fs_read prepare bind step outputs use_overlay db path h = (
  read_file_at_newest prepare bind step outputs use_overlay db path h,
  refl,
  exists_at_newest prepare bind step db path h,
)
