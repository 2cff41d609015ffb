-- ===== src/Tests/Store.antt =====
-- The overlay file system on a database with one file.
use hbf.Base.{
  ◌<◌, ◌+◌, ◌≡◌, refl, true, some, [], ◌∷◌, Bytes, codes, length, bytes_eq, if◌then◌else◌, arith,
  ◌≤◌,
}
use hbf.Overlay.Schema.{
  Db, empty_db, select_file_id, count_versions, insert_file_id, insert_version, has_version,
  upsert_meta, meta_of, max_version, count_ids,
}
use hbf.Overlay.Write.{done, failed, overlay_fs_write, int_max}
use hbf.Overlay.Read.{
  found, missing, overlay_fs_read, overlay_fs_read_file, overlay_fs_exists,
  overlay_fs_version_count,
}
use hbf.Overlay.History.{empty_db-IsConsistent, IsConsistent}
use hbf.Overlay.Effects.{IsWritten, IsUnwritten}
use hbf.Overlay.Outcome.{Ends}
use hbf.Overlay.ReadBack.{
  all_calls, read_calls, written, written_lem, overlay_fs_read_file-eq-overlay_fs_read,
  overlay_fs_write-Ends, overlay_fs_read-overlay_fs_write,
}
use hbf.Overlay.Total.{last_step_fails, overlay_fs_write_total, overlay_fs_exists_without_version}

abbrev pub home : Bytes
home = codes "a.txt"

abbrev pub hello : Bytes
hello = codes "hello"

abbrev pub one_file : Db
one_file = record {
  file_ids = record { file_id = 1; path = home } ∷ [];
  next_id = 2;
  file_versions =
      record { file_id = 1; path = home; version_number = 1; mtime = 7; size = 5; content = hello }
      ∷ [];
  latest_files_meta =
      record { file_id = 1; path = home; version_number = 1; mtime = 7; size = 5 } ∷ [];
  migrations = [];
}

abbrev pub two_versions : Db
two_versions = record one_file {
  file_versions =
      record {
        file_id = 1;
        path = home;
        version_number = 2;
        mtime = 9;
        size = 2;
        content = codes "he";
      }
      ∷ one_file.file_versions;
  latest_files_meta =
      record { file_id = 1; path = home; version_number = 2; mtime = 9; size = 2 } ∷ [];
}

pub first_write :
    overlay_fs_write all_calls 7 (some empty_db) (some home) (some hello) 5 ≡ done one_file
unfolding overlay_fs_write select_file_id insert_file_id insert_version has_version upsert_meta
    meta_of
first_write = refl

pub second_write :
    overlay_fs_write all_calls 9 (some one_file) (some home) (some hello) 2 ≡ done two_versions
unfolding overlay_fs_write select_file_id bytes_eq max_version insert_version has_version
    upsert_meta meta_of
second_write = refl

pub one_file-IsConsistent : IsConsistent one_file
one_file-IsConsistent =
    (written_lem all_calls 7 empty_db home (some hello) 5 empty_db-IsConsistent
      first_write).consistent

overlay_fs_write-Ends_example :
    Ends
      (IsWritten home (written (some hello) 3) one_file)
      (IsUnwritten one_file)
      (overlay_fs_write last_step_fails 9 (some one_file) (some home) (some hello) 3)
overlay_fs_write-Ends_example =
    overlay_fs_write-Ends last_step_fails 9 one_file home (some hello) 3 one_file-IsConsistent

overlay_fs_read-overlay_fs_write_example :
    overlay_fs_read read_calls (some two_versions) (some home) true ≡ (
      if bytes_eq home home
      then found (some (written (some hello) 2)) (length (written (some hello) 2))
      else overlay_fs_read read_calls (some one_file) (some home) true)
overlay_fs_read-overlay_fs_write_example =
    overlay_fs_read-overlay_fs_write all_calls 9 one_file home (some hello) 2 one_file-IsConsistent
      second_write home

overlay_fs_read_file-eq-overlay_fs_read_example :
    overlay_fs_read_file read_calls (record { g_overlay_db = some one_file }) (some home) 1 true
    ≡ overlay_fs_read read_calls (some one_file) (some home) true
overlay_fs_read_file-eq-overlay_fs_read_example =
    overlay_fs_read_file-eq-overlay_fs_read read_calls one_file (some home) 1 true
      one_file-IsConsistent

few_versions : count_versions home one_file.file_ids one_file.file_versions < int_max
unfolding count_versions count_ids bytes_eq
few_versions = omega arith

overlay_fs_write_total_example :
    (db' : Db) × (overlay_fs_write all_calls 9 (some one_file) (some home) (some hello) 5
      ≡ done db')
    × (db'.next_id ≤ one_file.next_id + 1)
overlay_fs_write_total_example =
    overlay_fs_write_total 9 one_file home hello 5 one_file-IsConsistent (omega arith) (omega arith)
      few_versions

overlay_fs_exists_without_version_example :
    (db' : Db) × (overlay_fs_write last_step_fails 9
        (some one_file)
        (some (codes "b"))
        (some hello)
        5
      ≡ failed db')
    × (overlay_fs_exists read_calls (some db') (some (codes "b")) ≡ some true)
    × (overlay_fs_version_count read_calls (some db') (some (codes "b")) ≡ some 0)
    × (overlay_fs_read read_calls (some db') (some (codes "b")) true ≡ missing)
overlay_fs_exists_without_version_example =
    overlay_fs_exists_without_version 9 one_file (codes "b") hello 5 one_file-IsConsistent
      (unfold select_file_id bytes_eq in refl) (omega arith) (omega arith)
