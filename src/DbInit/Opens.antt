-- ===== src/DbInit/Opens.antt =====
-- What an initialised database is, and what a failed initialisation leaves.
use hbf.Base.{
  ◌⊎◌, ◌∙◌, Bool-cases, inl, inr, ◌≡◌, refl, Bool, true, false, not, none, some, Bytes,
  if◌then◌else◌,
}
use mathlib.Core.Path.{subst⁻¹}
use hbf.Overlay.Opening.{overlay_fs_check_schema}
use hbf.Overlay.Schema.{Db, empty_db, select_migration}
use hbf.Overlay.Read.{Global}
use hbf.Overlay.History.{IsConsistent, empty_db-IsConsistent}
use hbf.Migrate.{
  Uncompress, Conn, rollback, MigrateCalls, Migrate, ended, unmodelled, compute_bundle_id,
  overlay_fs_migrate_assets,
}
use hbf.Migrate.Entries.{fails_decompress, fails_db, fails_corrupt}
use hbf.Migrate.Atomic.{migrate-Settles}
use hbf.Migrate.Settle.{
  IsApplied, inside, rollback-inside, rollback_failed, Settles, on_ok, on_error, on_applied,
  on_unmodelled,
}
use hbf.DbInit.{
  InitCalls, Init, opened, closed, init_unmodelled, sqlite3_close, finish_init, after_migrate,
  hbf_db_init,
}

-- How an initialisation over the database `before` ends. An open database is consistent, has the
-- bundle recorded, and is the global one: it is unchanged, or the bundle has just been `Applied` to
-- it. A closed one is as it was before, or the bundle has just been `Applied` to it; then the global
-- handle is as it was.
pub data Initialised (bundle_id : Bytes) (before : Db) (Applied : Conn → Type 0) (g : Global)
    : Init → Type 0 where
  on_opened :
      {c : Conn} {g' : Global}
      → IsConsistent c.db
      → select_migration bundle_id c.db.migrations ≡ true
      → (c.db ≡ before) ⊎ Applied c
      → g'.g_overlay_db ≡ some c.db
      → Initialised bundle_id before Applied g (opened c g')
  on_closed : Initialised bundle_id before Applied g (closed before g)
  on_closed_migrated :
      {c : Conn}
      → IsConsistent c.db
      → select_migration bundle_id c.db.migrations ≡ true
      → Applied c
      → Initialised bundle_id before Applied g (closed c.db g)
  on_init_unmodelled : Initialised bundle_id before Applied g init_unmodelled

Initialised-if :
    {id : Bytes} {before : Db} {Applied : Conn → Type 0} {g : Global} (b : Bool) {m n : Init}
    → Initialised id before Applied g m
    → Initialised id before Applied g n
    → Initialised id before Applied g (if b then m else n)
Initialised-if true hm hn = hm
Initialised-if false hm hn = hn

sqlite3_close-none : (c : Conn) → c.saved ≡ none → sqlite3_close c ≡ c.db
unfolding sqlite3_close
sqlite3_close-none c e = rw e refl

-- A connection with consistent tables that closes to the database from before.
abbrev IsUndone : Db → Conn → Type 0
IsUndone before c = IsConsistent c.db × (sqlite3_close c ≡ before)

module _ (calls : InitCalls) (g : Global) (id : Bytes) (before : Db) (Applied : Conn → Type 0) where
  closed-Initialised : (db : Db) → db ≡ before → Initialised id before Applied g (closed db g)
  closed-Initialised db e = subst⁻¹ (λ d. Initialised id before Applied g (closed d g)) e on_closed

  finish_init-Initialised :
      (c : Conn)
      → IsConsistent c.db
      → select_migration id c.db.migrations ≡ true
      → (c.db ≡ before) ⊎ Applied c
      → Initialised id before Applied g (closed (sqlite3_close c) g)
      → Initialised id before Applied g (finish_init calls g c)
  unfolding finish_init
  finish_init-Initialised c h recorded change left =
      Initialised-if
        (not (overlay_fs_check_schema calls.prepare_schema calls.step_schema calls.tables)) left
        (on_opened h recorded change refl)

  after_migrate-Initialised :
      (start : Conn) (m : Migrate)
      → IsConsistent start.db
      → start.db ≡ before
      → start.saved ≡ none
      → Settles id start Applied (IsUndone before) m
      → Initialised id before Applied g (after_migrate calls g m)
  unfolding after_migrate
  after_migrate-Initialised start unmodelled h e none_open on_unmodelled = on_init_unmodelled
  after_migrate-Initialised start (ended _ c) _ _ _ (on_ok h none_open recorded applied) =
      finish_init-Initialised c h recorded (inr applied) (
        subst⁻¹ (λ d. Initialised id before Applied g (closed d g)) (sqlite3_close-none c none_open)
          (on_closed_migrated h recorded applied))
  after_migrate-Initialised start (ended _ _) h e none_open (on_applied recorded) =
      finish_init-Initialised start h recorded (inl e)
        (closed-Initialised (sqlite3_close start) (sqlite3_close-none start none_open ∙ e))
  after_migrate-Initialised start (ended _ c) _ _ _ (on_error fails_decompress (h, undone)) =
      closed-Initialised (sqlite3_close c) undone
  after_migrate-Initialised start (ended _ c) _ _ _ (on_error fails_db (h, undone)) =
      closed-Initialised (sqlite3_close c) undone
  after_migrate-Initialised start (ended _ c) _ _ _ (on_error fails_corrupt (h, undone)) =
      closed-Initialised (sqlite3_close c) undone

migrated :
    (uncompress : Uncompress) (calls : MigrateCalls) (blob : Bytes) (db : Db)
    → IsConsistent db
    → Settles
        (compute_bundle_id calls.ctx blob)
        (record { db = db; saved = none })
        (IsApplied uncompress calls blob db)
        (IsUndone db)
        (overlay_fs_migrate_assets uncompress calls blob (record { db = db; saved = none }))
unfolding sqlite3_close
migrated uncompress calls blob db d =
    migrate-Settles uncompress calls blob c d refl (d, refl) rolled (λ db' d' e. (d', refl))
  where
    c : Conn
    c = record { db = db; saved = none }

    rolled : (db' : Db) → IsConsistent db' → IsUndone db (rollback calls.rolls_back (inside c db'))
    rolled db' d' = elim (Bool-cases calls.rolls_back) [
      | inl e ↦ rw (e, rollback-inside c db' refl) (d, refl)
      | inr e ↦ rw (e, rollback_failed c db') (d', refl)
    ]

start_db :
    (stored : Db) (inmem : Bool)
    → IsConsistent stored
    → IsConsistent (if inmem then empty_db else stored)
start_db stored true h = empty_db-IsConsistent
start_db stored false h = h

-- Over a stored database that is consistent, and whatever SQLite answers, the initialisation either
-- opens a consistent database in which the id of this build's bundle is recorded, and makes it the
-- global one, or it closes the database and leaves the global handle as it was. Open or closed, the
-- database either holds what it held before, or every entry of the whole bundle has been written to
-- it in order and then its id recorded.
pub hbf_db_init-Initialised :
    (uncompress : Uncompress) (calls : InitCalls) (assets_blob : Bytes) (inmem : Bool) (g : Global)
    → IsConsistent calls.stored
    → Initialised
        (compute_bundle_id calls.migrate.ctx assets_blob)
        (if inmem then empty_db else calls.stored)
        (IsApplied uncompress calls.migrate assets_blob (if inmem then empty_db else calls.stored))
        g
        (hbf_db_init uncompress calls assets_blob inmem g)
unfolding hbf_db_init
hbf_db_init-Initialised uncompress calls assets_blob inmem g h =
    let before : Db = if inmem then empty_db else calls.stored in
    Initialised-if (not calls.opens) on_closed (
      Initialised-if (not calls.enables_foreign_keys) on_closed (
        Initialised-if (not calls.applies_schema) on_closed (
          after_migrate-Initialised calls g (compute_bundle_id calls.migrate.ctx assets_blob) before
            (IsApplied uncompress calls.migrate assets_blob before)
            (record { db = before; saved = none })
            (overlay_fs_migrate_assets uncompress calls.migrate assets_blob
              (record { db = before; saved = none }))
            (start_db calls.stored inmem h) refl refl
            (migrated uncompress calls.migrate assets_blob before
              (start_db calls.stored inmem h)))))
