-- ===== src/Tests/Reads.antt =====
-- The reads of hbf/db/db.c on a database with one file.
use hbf.Base.{bytes_eq, ◌≡◌, refl, true, false, none, some, ◌&&◌, not, if◌then◌else◌}
use hbf.Overlay.Schema.{latest_file, max_version}
use hbf.Overlay.Read.{found, overlay_fs_read}
use hbf.Overlay.Opening.{OpenCalls, overlay_fs_init, left_open, is_ready, overlay_fs_init_lem}
use hbf.DbRead.{hbf_db_read_file, hbf_db_read_file_from_main, hbf_db_file_exists_in_main}
use hbf.DbRead.Agrees.{
  answers, overlay_answers, without_empty, is_found, hbf_db_read_file-eq-overlay_fs_read,
}
use hbf.Tests.Store.{home, hello, one_file, one_file-IsConsistent}

read_one_file :
    hbf_db_read_file (answers true true true) (some one_file) (some home) false true
    ≡ found (some hello) 5
unfolding hbf_db_read_file latest_file bytes_eq max_version
read_one_file = refl

hbf_db_read_file-eq-overlay_fs_read_example :
    (hbf_db_read_file (answers true true true) (some one_file) (some home) false true
      ≡ without_empty
          (overlay_fs_read (overlay_answers true true true) (some one_file) (some home) true))
    × (hbf_db_read_file_from_main (answers true true true) (some one_file) (some home) true
        ≡ hbf_db_read_file (answers true true true) (some one_file) (some home) false true)
    × (hbf_db_file_exists_in_main (answers true true true) (some one_file) (some home) ≡ (
        if true && true
        then some (
            is_found
              (overlay_fs_read (overlay_answers true true true) (some one_file) (some home) true))
        else none))
hbf_db_read_file-eq-overlay_fs_read_example =
    hbf_db_read_file-eq-overlay_fs_read true true true true false one_file home
      one_file-IsConsistent

-- A path that cannot be opened, for which SQLite gives a handle.
abbrev unreachable : OpenCalls
unreachable = record {
  opens = false;
  partial = true;
  executes = λ sql. true;
  prepare_schema = true;
  step_schema = true;
  tables = 2;
}

overlay_fs_init_lem_example :
    ((overlay_fs_init unreachable true false).ok ≡ (true && false && is_ready unreachable))
    × (left_open (overlay_fs_init unreachable true false) ≡ (true && (not false && true)))
overlay_fs_init_lem_example = overlay_fs_init_lem unreachable true false
