-- ===== src/Migrate/Entries.antt =====
-- The migration's loop, on any bytes and any outcomes of its calls.
use hbf.Base.{
  ℕ, zero, suc, ◌-◌, ◌^◌, ◌≡◌, Bool, true, false, not, none, some, Bytes, length, take, c_str, ◌==◌,
  if◌then◌else◌,
}
use hbf.Overlay.Schema.{Db}
use hbf.Overlay.Write.{Write, done, failed, rejected, wrapped, int_max, overlay_fs_write}
use hbf.Overlay.History.{IsConsistent}
use hbf.Overlay.Effects.{IsWritten, IsUnwritten}
use hbf.Overlay.Outcome.{Ends, on_done, on_failed, on_rejected, on_wrapped}
use hbf.Overlay.ReadBack.{overlay_fs_write-Ends}
use hbf.Migrate.{
  migrate_err_decompress, MigrateStatus, migrate_err_db, migrate_err_corrupt, MigrateCalls, Entry,
  read_entry, Loop, wrote, stopped, overflowed, migrate_entry, migrate_entries,
}

-- Well-formed tables, with the migrations that were there.
pub record IsWithin (before after : Db) : Type 0 where
  pub consistent : IsConsistent after
  pub same_migrations : after.migrations ≡ before.migrations

-- The statuses of a migration that has failed.
pub data IsFailure : MigrateStatus → Type 0 where
  fails_decompress : IsFailure migrate_err_decompress
  fails_db : IsFailure migrate_err_db
  fails_corrupt : IsFailure migrate_err_corrupt

-- `P` of the database, however the loop ends.
pub data LoopEnds (P : Db → Type 0) : Loop → Type 0 where
  on_wrote : {db : Db} → P db → LoopEnds P (wrote db)
  on_stopped :
      {status : MigrateStatus} {db : Db} → IsFailure status → P db → LoopEnds P (stopped status db)
  on_overflowed : LoopEnds P overflowed

LoopEnds-if :
    {P : Db → Type 0} (b : Bool) {m n : Loop}
    → LoopEnds P m
    → LoopEnds P n
    → LoopEnds P (if b then m else n)
LoopEnds-if true hm hn = hm
LoopEnds-if false hm hn = hn

-- An iteration, and the rest of the loop.
LoopEnds-next :
    {P : Db → Type 0} {rest : Db → Loop} (l : Loop)
    → LoopEnds P l
    → ((db : Db) → P db → LoopEnds P (rest db))
    → LoopEnds P (elim l [
      | wrote db ↦ rest db
      | stopped status db ↦ stopped status db
      | overflowed ↦ overflowed
    ])
LoopEnds-next (wrote db) (on_wrote h) k = k db h
LoopEnds-next (stopped status db) (on_stopped e h) k = on_stopped e h
LoopEnds-next overflowed on_overflowed k = on_overflowed

-- Reading the outcome of a write as the outcome of an iteration.
module _ (before db : Db) (h : IsWithin before db) (i : ℕ) (path content : Bytes) where
  entry-Ends :
      (w : Write)
      → Ends (IsWritten path content db) (IsUnwritten db) w
      → LoopEnds (IsWithin before) (elim w [
        | done db' ↦ if i == int_max then overflowed else wrote db'
        | failed db' ↦ stopped migrate_err_db db'
        | rejected ↦ stopped migrate_err_db db
        | wrapped ↦ overflowed
      ])
  entry-Ends (done db') (on_done w) = LoopEnds-if (i == int_max) on_overflowed (
      on_wrote (record {
        consistent = w.consistent;
        same_migrations = rw w.same_migrations h.same_migrations;
      }))
  entry-Ends (failed db') (on_failed u) = on_stopped fails_db (record {
    consistent = u.consistent;
    same_migrations = rw u.same_migrations h.same_migrations;
  })
  entry-Ends rejected on_rejected = on_stopped fails_db h
  entry-Ends wrapped on_wrapped = on_overflowed

migrate_entry-Ends :
    (calls : MigrateCalls) (before db : Db) (i : ℕ) (e : Entry)
    → IsWithin before db
    → LoopEnds (IsWithin before) (migrate_entry calls i e db)
unfolding migrate_entry
migrate_entry-Ends calls before db i e h = LoopEnds-if (length e.name == 2 ^ 32 - 1) on_overflowed (
    LoopEnds-if (not (calls.malloc_name i)) (on_stopped fails_db h) (
      entry-Ends before db h i (c_str e.name) (take (length e.content) e.content)
        (overlay_fs_write (calls.writes i) (calls.now i) (some db) (some (c_str e.name))
          (some e.content) (length e.content))
        (overlay_fs_write-Ends (calls.writes i) (calls.now i) db (c_str e.name) (some e.content)
          (length e.content) h.consistent)))

-- The loop, on any bytes and however its calls end, keeps the tables consistent.
pub migrate_entries-Ends :
    (calls : MigrateCalls) (before db : Db) (i n : ℕ) (buf : Bytes)
    → IsWithin before db
    → LoopEnds (IsWithin before) (migrate_entries calls i n buf db)
unfolding migrate_entries
migrate_entries-Ends calls before db i zero buf h = on_wrote h
migrate_entries-Ends calls before db i (suc n) buf h =
    elim (read_entry buf)
      as (λ o. LoopEnds (IsWithin before) (elim o [
        | none ↦ stopped migrate_err_corrupt db
        | some (e, rest) ↦ elim (migrate_entry calls i e db) [
          | wrote db' ↦ migrate_entries calls (suc i) n rest db'
          | stopped status db' ↦ stopped status db'
          | overflowed ↦ overflowed
        ]
      ])) [
        | none ↦ on_stopped fails_corrupt h
        | some (e, rest) ↦
            LoopEnds-next (migrate_entry calls i e db) (migrate_entry-Ends calls before db i e h)
              (λ db' h'. migrate_entries-Ends calls before db' (suc i) n rest h')
      ]
