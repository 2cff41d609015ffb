-- ===== src/Overlay/ReadBack.antt =====
-- The read operations after a write, and against one another.
use hbf.Base.{
  ap, ℕ, ◌+◌, ◌≡◌, refl, Bool, true, not, Option, none, some, [], Bytes, length, take, bytes_eq,
  arith, if◌then◌else◌, ltb,
}
use hbf.Overlay.Schema.{Db, count_versions}
use hbf.Overlay.Write.{WriteCalls, done, overlay_fs_write}
use hbf.Overlay.Read.{
  ReadCalls, found, missing, copy_blob, select_newest, select_latest, overlay_fs_read,
  overlay_fs_read_file, overlay_fs_exists, overlay_fs_version_count,
}
use hbf.Overlay.History.{IsConsistent}
use hbf.Overlay.Tables.{latest_file-eq-newest_version}
use hbf.Overlay.Effects.{IsWritten, IsUnwritten}
use hbf.Overlay.Outcome.{Ends, Ends-done, on_rejected, write_file-Ends, Ends-if}

-- The runs in which every call succeeds.
abbrev pub all_calls : WriteCalls
all_calls = record {
  prepare_get_id = true;
  step_get_id = true;
  prepare_insert_id = true;
  step_insert_id = true;
  prepare_get_version = true;
  step_get_version = true;
  prepare_insert = true;
  step_insert = true;
}

abbrev pub read_calls : ReadCalls
read_calls = record { prepare = true; step = true; malloc = true }

pub select_latest-eq-select_newest :
    (path : Bytes) (db : Db) → IsConsistent db → select_latest path db ≡ select_newest path db
unfolding select_latest select_newest
select_latest-eq-select_newest path db h =
    latest_file-eq-newest_version db.next_id db.file_ids path db.file_versions h.filed h.history

-- On consistent tables, reading through the view `latest_files` of the global handle and reading
-- by file id with ORDER BY give one answer, whatever the calls answer.
pub overlay_fs_read_file-eq-overlay_fs_read :
    (calls : ReadCalls) (db : Db) (path : Option Bytes) (dev : ℕ) (outputs : Bool)
    → IsConsistent db
    → overlay_fs_read_file calls (record { g_overlay_db = some db }) path dev outputs
      ≡ overlay_fs_read calls (some db) path outputs
unfolding overlay_fs_read_file overlay_fs_read
overlay_fs_read_file-eq-overlay_fs_read calls db none dev outputs h = refl
overlay_fs_read_file-eq-overlay_fs_read calls db (some path) dev outputs h =
    ap
      (λ o.
        if not outputs
        then missing
        else if not calls.prepare
        then missing
        else if not calls.step
        then missing
        else copy_blob calls o)
      (select_latest-eq-select_newest path db h)

-- What an argument of `overlay_fs_write` stands for.
abbrev pub written : Option Bytes → ℕ → Bytes
written none size = []
written (some buffer) size = take size buffer

-- Whatever the arguments and the outcomes of the calls, a completed write adds one version of the
-- path with the buffer's bytes on top of the history, a failed write leaves the history and every
-- read as they were, and the tables stay consistent.
pub overlay_fs_write-Ends :
    (calls : WriteCalls) (now : ℕ) (db : Db) (path : Bytes) (buffer : Option Bytes) (size : ℕ)
    → IsConsistent db
    → Ends
        (IsWritten path (written buffer size) db)
        (IsUnwritten db)
        (overlay_fs_write calls now (some db) (some path) buffer size)
unfolding overlay_fs_write
overlay_fs_write-Ends calls now db path none size h =
    Ends-if (ltb 0 size) on_rejected (write_file-Ends calls now path [] db h)
overlay_fs_write-Ends calls now db path (some buffer) size h =
    write_file-Ends calls now path (take size buffer) db h

module _ (calls : WriteCalls) (now : ℕ) (db : Db) (path : Bytes) (buffer : Option Bytes) (size : ℕ)
    {db' : Db} (h : IsConsistent db)
    (returns : overlay_fs_write calls now (some db) (some path) buffer size ≡ done db') where
  pub written_lem : IsWritten path (written buffer size) db db'
  written_lem = Ends-done (rw returns at (overlay_fs_write-Ends calls now db path buffer size h))

  -- After a completed write its path reads back as the written bytes with their length, and every
  -- other path reads as before.
  pub overlay_fs_read-overlay_fs_write :
      (q : Bytes)
      → overlay_fs_read read_calls (some db') (some q) true ≡ (
          if bytes_eq path q
          then found (some (written buffer size)) (length (written buffer size))
          else overlay_fs_read read_calls (some db) (some q) true)
  unfolding overlay_fs_read
  overlay_fs_read-overlay_fs_write q =
      ground (arith, written_lem.newest q, written_lem.with_content)

  -- A completed write adds one to its path's version count and leaves all other counts, and the
  -- path exists from then on.
  pub overlay_fs_version_count-overlay_fs_write :
      (q : Bytes)
      → (overlay_fs_version_count read_calls (some db') (some q)
          ≡ some
              (count_versions q db.file_ids db.file_versions + (if bytes_eq path q then 1 else 0)))
        × (overlay_fs_exists read_calls (some db') (some path) ≡ some true)
  unfolding overlay_fs_version_count overlay_fs_exists
  overlay_fs_version_count-overlay_fs_write q =
      ground (arith, written_lem.counts q, written_lem.known)
