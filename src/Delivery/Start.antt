-- ===== src/Delivery/Start.antt =====
-- The start of the database (hbf/db/db.c) with the bundle of tools/asset_packer.c, and the next start
-- over what it leaves.
use hbf.Base.{
  ℕ, ◌*◌, ◌^◌, ◌≤◌, ◌<◌, ◌≡◌, refl, ◌∙◌, ap, sym, true, false, none, some, Bytes, All, length,
}
use mathlib.Core.Path.{subst}
use hbf.Sha256.{Context}
use hbf.Packer.{Bundle, Qsort, Zlib, bundle_pack, compress_bundle}
use hbf.Packer.Words.{u64}
use hbf.Overlay.Schema.{Db, select_migration}
use hbf.Overlay.Read.{Global, found, overlay_fs_read, overlay_fs_init_global}
use hbf.Overlay.History.{IsConsistent}
use hbf.Overlay.ReadBack.{read_calls}
use hbf.Migrate.{
  Uncompress, Conn, MigrateCalls, ended, migrate_ok, compute_bundle_id, overlay_fs_migrate_assets,
}
use hbf.Migrate.Merged.{every_call, IsMigratable, IsRoomy, last_content}
use hbf.Migrate.Settle.{IsApplied}
use hbf.Migrate.Again.{overlay_fs_migrate_assets_again}
use hbf.Migrate.Packed.{overlay_fs_migrate_assets-bundle_pack}
use hbf.DbInit.{InitCalls, opened, finish_init, after_migrate, hbf_db_init, hbf_db_close}
use hbf.DbInit.Opens.{Initialised, on_opened, hbf_db_init-Initialised}

-- The starts over a stored database in which every call succeeds.
abbrev pub starting : MigrateCalls → Db → InitCalls
starting migrate stored = record {
  opens = true;
  enables_wal = true;
  enables_foreign_keys = true;
  applies_schema = true;
  migrate = migrate;
  prepare_schema = true;
  step_schema = true;
  tables = 2;
  stored = stored;
}

hbf_db_init-migrated :
    (uncompress : Uncompress) (migrate : MigrateCalls) (blob : Bytes) (stored : Db) (g : Global)
    (c : Conn)
    → overlay_fs_migrate_assets uncompress migrate blob (record { db = stored; saved = none })
      ≡ ended migrate_ok c
    → hbf_db_init uncompress (starting migrate stored) blob false g
      ≡ opened c (record { g_overlay_db = some c.db })
unfolding hbf_db_init after_migrate finish_init overlay_fs_init_global
hbf_db_init-migrated uncompress migrate blob stored g c migrated =
    ap (after_migrate (starting migrate stored) g) migrated

hbf_db_close-none : (c : Conn) → c.saved ≡ none → hbf_db_close c ≡ c.db
unfolding hbf_db_close
hbf_db_close-none c e = rw e refl

-- A second start over what the first one leaves when it is closed finds the bundle applied.
hbf_db_init-hbf_db_close :
    (uncompress : Uncompress) (migrate again : MigrateCalls) (blob : Bytes) (stored : Db)
    (g : Global) (c : Conn)
    → IsConsistent stored
    → length migrate.ctx.buffer ≡ 64
    → length again.ctx.buffer ≡ 64
    → again.prepare_check ≡ true
    → again.step_check ≡ true
    → c.saved ≡ none
    → overlay_fs_migrate_assets uncompress migrate blob (record { db = stored; saved = none })
      ≡ ended migrate_ok c
    → hbf_db_init uncompress (starting again (hbf_db_close c)) blob false g
      ≡ opened c (record { g_overlay_db = some c.db })
unfolding hbf_db_init after_migrate finish_init overlay_fs_init_global
hbf_db_init-hbf_db_close uncompress migrate again blob stored g c h room room' prepared steps closed
      migrated =
    ap (after_migrate (starting again (hbf_db_close c)) g) (
      ap (overlay_fs_migrate_assets uncompress again blob) same
      ∙ overlay_fs_migrate_assets_again uncompress migrate again blob
          (record { db = stored; saved = none }) c h refl room room' prepared steps migrated)
  where
    same : record { db = hbf_db_close c; saved = none } ≡ c
    same i = record { db = hbf_db_close-none c closed i; saved = sym closed i }

opened-IsConsistent :
    (id : Bytes) (before : Db) (Applied : Conn → Type 0) (g g' : Global) (c : Conn)
    → Initialised id before Applied g (opened c g')
    → IsConsistent c.db
opened-IsConsistent id before Applied g g' c (on_opened h recorded change global) = h

-- A database that starts over a stored one with the bundle of the packer.
module _ (q : Qsort) (z : Zlib) (bundle : Bundle) (level : ℕ) {packed blob : Bytes} {out_len : ℕ}
    (uncompress-compress : (level cap : ℕ) (d : Bytes)
      → length d ≤ cap
      → z.uncompress cap (z.compress level d) ≡ some d)
    (packs : bundle_pack q true bundle ≡ some (packed, out_len))
    (compresses : compress_bundle z true packed out_len level ≡ some blob)
    (fits : length packed < 2 ^ 64) (ratio : length packed ≤ u64 (length blob * 10)) where
  -- The start, the next one, and what is read then.
  pub started :
      (ctx : Context) (now : ℕ → ℕ) (applied_at : ℕ) (again : MigrateCalls) (stored : Db)
      (g : Global)
      → IsConsistent stored
      → length ctx.buffer ≡ 64
      → length again.ctx.buffer ≡ 64
      → again.prepare_check ≡ true
      → again.step_check ≡ true
      → All IsMigratable (q.sort bundle.entries)
      → IsRoomy (length (q.sort bundle.entries)) stored
      → select_migration (compute_bundle_id ctx blob) stored.migrations ≡ false
      → (conn : Conn) × (hbf_db_init z.uncompress
            (starting (every_call ctx now applied_at) stored)
            blob
            false
            g
          ≡ opened conn (record { g_overlay_db = some conn.db }))
        × (hbf_db_init z.uncompress (starting again (hbf_db_close conn)) blob false g
            ≡ opened conn (record { g_overlay_db = some conn.db }))
        × IsConsistent conn.db
        × ((path content : Bytes)
            → last_content path (q.sort bundle.entries) ≡ some content
            → overlay_fs_read read_calls (some conn.db) (some path) true
              ≡ found (some content) (length content))
  started ctx now applied_at again stored g h mem mem' prepared steps migratable room fresh =
      let (conn, migrated, closed, reads) =
        overlay_fs_migrate_assets-bundle_pack z uncompress-compress ctx now applied_at q bundle
          level (record { db = stored; saved = none }) packs compresses h refl migratable room fits
          ratio fresh in
      let starts =
        hbf_db_init-migrated z.uncompress (every_call ctx now applied_at) blob stored g conn
          migrated in
      let applied : Conn → Type 0 =
        IsApplied z.uncompress (every_call ctx now applied_at) blob stored in
      let consistent = opened-IsConsistent (compute_bundle_id ctx blob) stored applied g _ conn (
        subst (Initialised (compute_bundle_id ctx blob) stored applied g) starts (
          hbf_db_init-Initialised z.uncompress (starting (every_call ctx now applied_at) stored)
            blob false g h)) in
      (
        conn,
        starts,
        hbf_db_init-hbf_db_close z.uncompress (every_call ctx now applied_at) again blob stored g
            conn h mem mem' prepared steps closed migrated,
        consistent,
        λ path content last. reads path ∙ rw last refl,
      )
