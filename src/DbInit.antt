-- ===== src/DbInit.antt =====
-- `hbf_db_init` of hbf/db/db.c.
pub mod Opens
use hbf.Base.{ℕ, Bool, true, false, not, ◌&&◌, Option, none, some, Bytes, leb, if◌then◌else◌}
use hbf.Overlay.Schema.{Db, empty_db}
use hbf.Overlay.Opening.{overlay_fs_check_schema}
use hbf.Overlay.Read.{Global, overlay_fs_init_global}
use hbf.Migrate.{
  Uncompress, Conn, MigrateStatus, migrate_ok, migrate_err_decompress, migrate_err_db,
  migrate_err_already_applied, migrate_err_corrupt, MigrateCalls, Migrate, ended, unmodelled,
  overlay_fs_migrate_assets,
}

-- The answers of SQLite. `stored` is what the file HBF_DB_PATH holds once the schema has been
-- applied, which creates what is missing and changes nothing else of a consistent database.
pub record InitCalls : Type 0 where
  pub opens : Bool
  pub enables_wal : Bool
  pub enables_foreign_keys : Bool
  pub applies_schema : Bool
  pub migrate : MigrateCalls
  pub prepare_schema : Bool
  pub step_schema : Bool
  pub tables : ℕ
  pub stored : Db

-- `sqlite3_close`: what the database holds then, without the changes of an open transaction.
unfoldable pub sqlite3_close : Conn → Db
sqlite3_close c = elim c.saved [ none ↦ c.db | some before ↦ before ]

-- `opened` is the 0 with the connection behind `*db`; `closed` is the -1, with `*db` NULL and what the
-- database holds without a connection. Both come with the global handle.
pub data Init : Type 0 where
  opened : Conn → Global → Init
  closed : Db → Global → Init
  init_unmodelled : Init

-- From "Verify overlay_fs schema exists"
unfoldable pub finish_init : InitCalls → Global → Conn → Init
unfolding overlay_fs_check_schema overlay_fs_init_global sqlite3_close
finish_init calls g c =
    if not (overlay_fs_check_schema calls.prepare_schema calls.step_schema calls.tables)
    then closed (sqlite3_close c) g
    else opened c (overlay_fs_init_global (some c.db) g)

-- `migrate_rc != MIGRATE_OK && migrate_rc != MIGRATE_ERR_ALREADY_APPLIED`
unfoldable pub after_migrate : InitCalls → Global → Migrate → Init
unfolding finish_init sqlite3_close
after_migrate calls g unmodelled = init_unmodelled
after_migrate calls g (ended migrate_ok c) = finish_init calls g c
after_migrate calls g (ended migrate_err_already_applied c) = finish_init calls g c
after_migrate calls g (ended migrate_err_decompress c) = closed (sqlite3_close c) g
after_migrate calls g (ended migrate_err_db c) = closed (sqlite3_close c) g
after_migrate calls g (ended migrate_err_corrupt c) = closed (sqlite3_close c) g

-- `hbf_db_init(inmem, db)`, where `db` is not NULL; `assets_blob` is the packed bundle. A failure
-- to enable WAL only logs.
unfoldable pub hbf_db_init : Uncompress → InitCalls → Bytes → Bool → Global → Init
unfolding after_migrate overlay_fs_migrate_assets
hbf_db_init uncompress calls assets_blob inmem g =
    let db = if inmem then empty_db else calls.stored in
    if not calls.opens
    then closed db g
    else if not calls.enables_foreign_keys
    then closed db g
    else if not calls.applies_schema
    then closed db g
    else after_migrate calls g (
        overlay_fs_migrate_assets uncompress calls.migrate assets_blob
          (record { db = db; saved = none }))

-- `hbf_db_close` of a connection that is not NULL: what the database holds then.
unfoldable pub hbf_db_close : Conn → Db
unfolding sqlite3_close
hbf_db_close c = sqlite3_close c
