-- ===== src/Overlay/Runs.antt =====
-- Sequences of writes of hbf/db/overlay_fs.c, against an abstract versioned file system: a function
-- from each path to the contents that it has had.
use hbf.Base.{
  ℕ, ◌+◌, ◌≡◌, refl, ◌∙◌, ap, true, Option, some, List, [], ◌∷◌, ◌++◌, Bytes, bytes_eq, length,
  append_assoc, length-append, sym, arith, if◌then◌else◌,
}
use hbf.Overlay.Schema.{Db, select_file_id, Version, empty_db, count_versions}
use hbf.Overlay.Write.{WriteCalls, done, failed, overlay_fs_write}
use hbf.Overlay.Read.{
  Read, found, missing, select_newest, overlay_fs_read, overlay_fs_read_file,
  overlay_fs_version_count,
}
use hbf.Overlay.History.{IsConsistent, empty_db-IsConsistent}
use hbf.Overlay.Effects.{IsWritten, IsUnwritten}
use hbf.Overlay.Outcome.{Ends-failed}
use hbf.Overlay.ReadBack.{
  read_calls, written, written_lem, overlay_fs_write-Ends, overlay_fs_read_file-eq-overlay_fs_read,
}

-- The contents of each path, newest first.
abbrev pub Files : Type 0
Files = Bytes → List Bytes

abbrev pub no_files : Files
no_files path = []

-- A new content on top of a path's others.
abbrev pub push : Bytes → Bytes → Files → Files
push path content files q = if bytes_eq path q then content ∷ files q else files q

-- What a caller of `overlay_fs_write` learns of a write.
pub data Event : Type 0 where
  wrote : Bytes → Bytes → Event
  refused : Event

unfoldable pub replay : List Event → Files → Files
replay [] files = files
replay (wrote path content ∷ events) files = replay events (push path content files)
replay (refused ∷ events) files = replay events files

-- A write on the tables, whatever SQLite answers.
pub data Step (db : Db) : Event → Db → Type 0 where
  writes :
      (calls : WriteCalls) (now : ℕ) (path : Bytes) (buffer : Option Bytes) (size : ℕ) {after : Db}
      → overlay_fs_write calls now (some db) (some path) buffer size ≡ done after
      → Step db (wrote path (written buffer size)) after
  fails :
      (calls : WriteCalls) (now : ℕ) (path : Bytes) (buffer : Option Bytes) (size : ℕ) {after : Db}
      → overlay_fs_write calls now (some db) (some path) buffer size ≡ failed after
      → Step db refused after

pub data Run : Db → List Event → Db → Type 0 where
  start : (db : Db) → Run db [] db
  then_step :
      {e : Event} {es : List Event} {db mid after : Db}
      → Step db e mid
      → Run mid es after
      → Run db (e ∷ es) after

-- What a read finds of a path's contents.
unfoldable pub first_read : List Bytes → Read
first_read [] = missing
first_read (content ∷ contents) = found (some content) (length content)

-- The tables show an abstract state: its newest contents are what is read, its lengths the counts.
pub record Shows (files : Files) (db : Db) : Type 0 where
  pub consistent : IsConsistent db
  pub reads :
      (q : Bytes) → overlay_fs_read read_calls (some db) (some q) true ≡ first_read (files q)
  pub counts : (q : Bytes) → count_versions q db.file_ids db.file_versions ≡ length (files q)

Shows-written :
    (files : Files) (path content : Bytes) (db after : Db)
    → IsWritten path content db after
    → Shows files db
    → Shows (push path content files) after
unfolding overlay_fs_read first_read
Shows-written files path content db after w s = record {
  consistent = w.consistent;
  reads = λ q. ground (arith, s.reads q, w.newest q, w.with_content);
  counts = λ q. ground (arith, s.counts q, w.counts q);
}

Shows-unwritten :
    (files : Files) (db after : Db) → IsUnwritten db after → Shows files db → Shows files after
unfolding overlay_fs_read
Shows-unwritten files db after u s = record {
  consistent = u.consistent;
  reads = λ q. rw (u.newest q) (s.reads q);
  counts = λ q. u.counts q ∙ s.counts q;
}

Shows-empty_db : Shows no_files empty_db
unfolding overlay_fs_read first_read select_newest count_versions select_file_id
Shows-empty_db = record {
  consistent = empty_db-IsConsistent;
  reads = λ q. refl;
  counts = λ q. refl;
}

Run-Shows :
    (files : Files) {db after : Db} {events : List Event}
    → Run db events after
    → Shows files db
    → Shows (replay events files) after
unfolding replay
Run-Shows files (start db) s = s
Run-Shows files (then_step {db = db} {mid = mid} (writes calls now path buffer size returns) run)
      s =
    Run-Shows (push path (written buffer size) files) run (
      Shows-written files path (written buffer size) db mid
        (written_lem calls now db path buffer size s.consistent returns) s)
Run-Shows files (then_step {db = db} {mid = mid} (fails calls now path buffer size returns) run) s =
    Run-Shows files run (
      Shows-unwritten files db mid
        (Ends-failed
          (rw returns at (overlay_fs_write-Ends calls now db path buffer size s.consistent)))
        s)

-- Every database that writes have built from the empty one, with whatever failures among them,
-- refines the abstract file system that the completed writes build: a path reads as the newest of
-- its contents, through the file id and through the view, and its version count is their number.
pub Run-refines :
    {events : List Event} {db : Db} (dev : ℕ) (q : Bytes)
    → Run empty_db events db
    → (overlay_fs_read read_calls (some db) (some q) true ≡ first_read (replay events no_files q))
      × (overlay_fs_read_file read_calls (record { g_overlay_db = some db }) (some q) dev true
          ≡ first_read (replay events no_files q))
      × (overlay_fs_version_count read_calls (some db) (some q)
          ≡ some (length (replay events no_files q)))
unfolding overlay_fs_version_count
Run-refines {db = db} dev q run =
    let s = Run-Shows no_files run Shows-empty_db in
    (
      s.reads q,
      overlay_fs_read_file-eq-overlay_fs_read read_calls db (some q) dev true s.consistent
          ∙ s.reads q,
      ap (λ (n : ℕ). some n) (s.counts q),
    )

-- How many writes of a run have completed.
unfoldable pub completed : List Event → ℕ
completed [] = 0
completed (wrote path content ∷ events) = completed events + 1
completed (refused ∷ events) = completed events

-- A run of writes on consistent tables only adds to the history: every version from before is kept
-- as it was, each completed write adds one, a failed one none, and the tables stay consistent.
pub Run-append_only :
    {events : List Event} {db after : Db}
    → IsConsistent db
    → Run db events after
    → (added : List Version) × (after.file_versions ≡ added ++ db.file_versions)
      × (length added ≡ completed events)
      × IsConsistent after
unfolding completed
Run-append_only h (start db) = ([], refl, refl, h)
Run-append_only h (then_step {db = db} (writes calls now path buffer size returns) run) =
    let w = written_lem calls now db path buffer size h returns in
    let (added, versions, count, consistent) = Run-append_only w.consistent run in
    (
      added ++ w.row ∷ [],
      versions
          ∙ ap (λ (vs : List Version). added ++ vs) w.versions
          ∙ sym (append_assoc added (w.row ∷ []) db.file_versions),
      omega (arith, length-append added (w.row ∷ []), count),
      consistent,
    )
Run-append_only h (then_step {db = db} (fails calls now path buffer size returns) run) =
    let u = Ends-failed (rw returns at (overlay_fs_write-Ends calls now db path buffer size h)) in
    let (added, versions, count, consistent) = Run-append_only u.consistent run in
    (added, versions ∙ ap (λ (vs : List Version). added ++ vs) u.versions, count, consistent)
