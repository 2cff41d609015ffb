-- ===== src/Migrate/Settle.antt =====
-- How a migration may end, and the stages of the function one after another.
use hbf.Base.{
  List, sym, drop, Option-cases, ltb, ◌*◌, ◌&&◌, ap, ℕ, ◌≡◌, refl, sym, Bool-cases, ◌⊎◌, inl, inr,
  Bool, true, false, not, none, some, ◌∷◌, Bytes, length, if◌then◌else◌, bytes_eq_refl,
}
use mathlib.Core.Path.{subst⁻¹}
use hbf.Overlay.Schema.{Db, Migration, select_migration, insert_migration}
use hbf.Overlay.History.{IsConsistent}
use hbf.Migrate.{
  Entry, compute_bundle_id, migrate_err_already_applied, u64, read_u32, Uncompress, Conn,
  begin_immediate, commit, rollback, MigrateStatus, migrate_ok, migrate_err_db, MigrateCalls, Loop,
  wrote, stopped, overflowed, migrate_entries, Migrate, ended, unmodelled, undo, record_migration,
  apply_bundle, decompress_bundle,
}
use hbf.Overlay.Runs.{Run}
use hbf.Migrate.Runs.{parse_entries, events_of, migrate_entries-Run}
use hbf.Migrate.Entries.{
  IsFailure, fails_decompress, fails_db, fails_corrupt, LoopEnds, on_wrote, on_stopped,
  on_overflowed, IsWithin, migrate_entries-Ends,
}

-- How a migration of a connection `start` ends: one that is done has its id recorded, no transaction
-- open and the connection `Done`; one that is already applied has its id recorded and changes
-- nothing; a failure leaves a connection of `Left`.
pub data Settles (bundle_id : Bytes) (start : Conn) (Done Left : Conn → Type 0)
    : Migrate → Type 0 where
  on_ok :
      {c : Conn}
      → IsConsistent c.db
      → c.saved ≡ none
      → select_migration bundle_id c.db.migrations ≡ true
      → Done c
      → Settles bundle_id start Done Left (ended migrate_ok c)
  on_error :
      {status : MigrateStatus} {c : Conn}
      → IsFailure status
      → Left c
      → Settles bundle_id start Done Left (ended status c)
  on_applied :
      select_migration bundle_id start.db.migrations ≡ true
      → Settles bundle_id start Done Left (ended migrate_err_already_applied start)
  on_unmodelled : Settles bundle_id start Done Left unmodelled

pub Settles-if :
    {id : Bytes} {start : Conn} {Done Left : Conn → Type 0} (b : Bool) {m n : Migrate}
    → Settles id start Done Left m
    → Settles id start Done Left n
    → Settles id start Done Left (if b then m else n)
Settles-if true hm hn = hm
Settles-if false hm hn = hn

abbrev pub recorded : Migration → Db → Db
recorded m db = record db { migrations = m ∷ db.migrations }

pub insert_migration_cases :
    (m : Migration) (db : Db)
    → (insert_migration m db ≡ none) ⊎ (insert_migration m db ≡ some (recorded m db))
unfolding insert_migration
insert_migration_cases m db = elim (Bool-cases (select_migration m.bundle_id db.migrations)) [
  | inl e ↦ inl (rw e)
  | inr e ↦ inr (rw e)
]

pub recorded-IsConsistent :
    (m : Migration) (db : Db) → IsConsistent db → IsConsistent (recorded m db)
recorded-IsConsistent m db h = record { filed = h.filed; history = h.history; in_sync = h.in_sync }

-- The transaction that `BEGIN IMMEDIATE` opened on `c`, with the database as it is by now.
abbrev pub inside : Conn → Db → Conn
inside c db = record { db = db; saved = some c.db }

pub commit-inside :
    (answer : Bool) (c : Conn) (db : Db)
    → commit answer (inside c db)
      ≡ (if not answer then none else some (record { db = db; saved = none }))
unfolding commit
commit-inside answer c db = refl

pub rollback-inside : (c : Conn) (db : Db) → c.saved ≡ none → rollback true (inside c db) ≡ c
unfolding rollback
rollback-inside c db closed = ap (λ s. record { db = c.db; saved = s }) (sym closed)

pub rollback_failed : (c : Conn) (db : Db) → rollback false (inside c db) ≡ inside c db
unfolding rollback
rollback_failed c db = refl

pub begin_immediate_closed :
    (answer : Bool) (c : Conn)
    → c.saved ≡ none
    → begin_immediate answer c ≡ (if not answer then none else some (inside c c.db))
unfolding begin_immediate
begin_immediate_closed answer c closed = rw closed

abbrev pub migration_row : MigrateCalls → Bytes → ℕ → Migration
migration_row calls bundle_id n = record {
  bundle_id = bundle_id;
  applied_at = calls.applied_at;
  entries = n;
}

-- The whole bundle is in the database: it inflates, all the entries that it counts are parsed, each
-- has been written, in their order, and then the row of the migration.
pub record IsApplied (uncompress : Uncompress) (calls : MigrateCalls) (blob : Bytes) (before : Db)
    (c : Conn) : Type 0 where
  pub packed : Bytes
  pub entries : List Entry
  pub filled : Db
  pub inflates : uncompress (u64 (length blob * 10)) blob ≡ some packed
  pub parses : parse_entries (read_u32 packed) (drop 4 packed) ≡ some entries
  pub writes : Run before (events_of entries) filled
  pub records :
      c.db
      ≡ recorded (migration_row calls (compute_bundle_id calls.ctx blob) (read_u32 packed)) filled

module _ (uncompress : Uncompress) (calls : MigrateCalls) (blob : Bytes) (c : Conn)
    (Left : Conn → Type 0) (kept : Left c)
    (undone : (db : Db) → IsConsistent db → Left (rollback calls.rolls_back (inside c db)))
    (uncommitted : (db : Db) → IsConsistent db → calls.commits ≡ false → Left (inside c db)) where
  abbrev bundle_id : Bytes
  bundle_id = compute_bundle_id calls.ctx blob

  abbrev Ends : Migrate → Type 0
  Ends m = Settles bundle_id c (IsApplied uncompress calls blob c.db) Left m

  undo-Settles :
      (status : MigrateStatus) (db : Db)
      → IsFailure status
      → IsConsistent db
      → Ends (undo calls status (inside c db))
  unfolding undo
  undo-Settles status db e h = on_error e (undone db h)

  commit-recorded-Settles :
      (n : ℕ) (db : Db)
      → IsConsistent db
      → IsApplied uncompress calls blob c.db
          (record { db = recorded (migration_row calls bundle_id n) db; saved = none })
      → Ends
          (elim (commit calls.commits (inside c (recorded (migration_row calls bundle_id n) db))) [
            | none ↦ ended migrate_err_db (inside c (recorded (migration_row calls bundle_id n) db))
            | some c' ↦ ended migrate_ok c'
          ])
  unfolding commit select_migration
  commit-recorded-Settles n db h applied = elim (Bool-cases calls.commits) [
    | inl commits ↦
        subst⁻¹ answered commits
          (on_ok (recorded-IsConsistent m db h) refl (rw (select_migration, bytes_eq_refl)) applied)
    | inr fails ↦
        subst⁻¹ answered fails
          (on_error fails_db (uncommitted _ (recorded-IsConsistent m db h) fails))
  ]
    where
      m : Migration
      m = migration_row calls bundle_id n

      answered : Bool → Type 0
      answered b = Ends (elim (commit b (inside c (recorded m db))) [
        | none ↦ ended migrate_err_db (inside c (recorded m db))
        | some c' ↦ ended migrate_ok c'
      ])

  record_migration-Settles :
      (n : ℕ) (db : Db)
      → IsConsistent db
      → IsApplied uncompress calls blob c.db
          (record { db = recorded (migration_row calls bundle_id n) db; saved = none })
      → Ends (record_migration calls bundle_id n (inside c db))
  unfolding record_migration
  record_migration-Settles n db h applied =
      let m : Migration = migration_row calls bundle_id n in
      Settles-if (not calls.prepare_record) (undo-Settles migrate_err_db db fails_db h)
        (elim (insert_migration_cases m db) [
          | inl e ↦ rw e (undo-Settles migrate_err_db db fails_db h)
          | inr e ↦ rw e (
              Settles-if (not calls.step_record) (undo-Settles migrate_err_db db fails_db h)
                (commit-recorded-Settles n db h applied))
        ])

  loop-Settles :
      (n : ℕ) (l : Loop)
      → ((db : Db)
          → l ≡ wrote db
          → IsApplied uncompress calls blob c.db
              (record { db = recorded (migration_row calls bundle_id n) db; saved = none }))
      → LoopEnds (IsWithin c.db) l
      → Ends (elim l [
        | wrote db ↦ record_migration calls bundle_id n (inside c db)
        | stopped status db ↦ undo calls status (inside c db)
        | overflowed ↦ unmodelled
      ])
  loop-Settles n (wrote db) k (on_wrote h) = record_migration-Settles n db h.consistent (k db refl)
  loop-Settles n (stopped status db) k (on_stopped e h) = undo-Settles status db e h.consistent
  loop-Settles n overflowed k on_overflowed = on_unmodelled

  loop-IsApplied :
      (buf : Bytes) (db : Db)
      → uncompress (u64 (length blob * 10)) blob ≡ some buf
      → migrate_entries calls 0 (read_u32 buf) (drop 4 buf) c.db ≡ wrote db
      → IsApplied uncompress calls blob c.db
          (record { db = recorded (migration_row calls bundle_id (read_u32 buf)) db; saved = none })
  loop-IsApplied buf db inflates loops =
      let (es, parses, run) =
        migrate_entries-Run calls 0 (read_u32 buf) (drop 4 buf) c.db db loops in
      record {
        packed = buf;
        entries = es;
        filled = db;
        inflates = inflates;
        parses = parses;
        writes = run;
        records = refl;
      }

  apply_bundle-Settles :
      (buf : Bytes)
      → uncompress (u64 (length blob * 10)) blob ≡ some buf
      → IsConsistent c.db
      → c.saved ≡ none
      → Ends (apply_bundle calls bundle_id buf c)
  unfolding apply_bundle
  apply_bundle-Settles buf inflates h closed =
      Settles-if (ltb (length buf) 4) (on_error fails_corrupt kept) (
        rw (begin_immediate_closed calls.begins c closed) (elim (Bool-cases calls.begins) [
          | inl begins ↦ subst⁻¹ answered begins (
              loop-Settles (read_u32 buf) (migrate_entries calls 0 (read_u32 buf) (drop 4 buf) c.db)
                (λ db e. loop-IsApplied buf db inflates e)
                (migrate_entries-Ends calls c.db c.db 0 (read_u32 buf) (drop 4 buf)
                  (record { consistent = h; same_migrations = refl })))
          | inr fails ↦ subst⁻¹ answered fails (on_error fails_db kept)
        ]))
    where
      answered : Bool → Type 0
      answered b = Ends (elim (if not b then none else some (inside c c.db)) [
        | none ↦ ended migrate_err_db c
        | some c' ↦ elim (migrate_entries calls 0 (read_u32 buf) (drop 4 buf) c'.db) [
          | wrote db ↦ record_migration calls bundle_id (read_u32 buf) (record c' { db = db })
          | stopped status db ↦ undo calls status (record c' { db = db })
          | overflowed ↦ unmodelled
        ]
      ])

  pub decompress_bundle-Settles :
      IsConsistent c.db
      → c.saved ≡ none
      → Ends (decompress_bundle uncompress calls bundle_id blob c)
  unfolding decompress_bundle
  decompress_bundle-Settles h closed =
      Settles-if (not calls.malloc_buffer) (on_error fails_decompress kept)
        (elim (Option-cases (uncompress (u64 (length blob * 10)) blob)) [
          | inl e ↦ rw e (on_error fails_decompress kept)
          | inr (buf, e) ↦ rw e (apply_bundle-Settles buf e h closed)
        ])

-- The check for the bundle's id, which a failing step lets pass.
pub checked :
    (c : Conn) {id : Bytes} {Done Left : Conn → Type 0} {m : Migrate} (steps found : Bool)
    → found ≡ select_migration id c.db.migrations
    → Settles id c Done Left m
    → Settles id c Done Left (if steps && found then ended migrate_err_already_applied c else m)
checked c true true e h = on_applied (sym e)
checked c true false e h = h
checked c false true e h = h
checked c false false e h = h
