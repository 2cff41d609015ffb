-- ===== src/Migrate/Steps.antt =====
-- The stages of the migration, each on the runs in which it succeeds.
use hbf.Base.{
  Bool-cases, inl, inr, ap, ◌*◌, ◌≤◌, ℕ, ◌≡◌, ◌≢◌, refl, true, false, none, some, [], ◌∷◌, ◌++◌,
  Bytes, length, drop, ltb, ge→ltb, take-length, arith,
}
use hbf.Packer.{Bundle, Qsort, Zlib, pack_entries, bundle_pack, compress_bundle}
use hbf.Packer.Words.{u32, u64, put_u32, read_u32}
use hbf.Sha256.{Context}
use hbf.Overlay.Schema.{Db, Migration, select_migration, insert_migration}
use hbf.Overlay.Read.{found, missing, overlay_fs_read}
use hbf.Overlay.ReadBack.{read_calls}
use hbf.Migrate.{
  Uncompress, Conn, MigrateCalls, ended, unmodelled, migrate_ok, compute_bundle_id, wrote, stopped,
  overflowed, migrate_entries, record_migration, undo, apply_bundle, decompress_bundle,
  overlay_fs_migrate_assets,
}
use hbf.Migrate.Settle.{inside, recorded, begin_immediate_closed}
use hbf.Migrate.Merged.{every_call, newest_content}

pub insert_migration_fresh :
    (m : Migration) (db : Db)
    → select_migration m.bundle_id db.migrations ≡ false
    → insert_migration m db ≡ some (recorded m db)
unfolding insert_migration
insert_migration_fresh m db fresh = rw fresh

-- The migration's row.
abbrev pub row_of : Bytes → ℕ → ℕ → Migration
row_of bundle_id applied_at n = record {
  bundle_id = bundle_id;
  applied_at = applied_at;
  entries = n;
}

module _ (ctx : Context) (now : ℕ → ℕ) (applied_at : ℕ) (bundle_id : Bytes) (c : Conn) where
  pub record_migration_total :
      (n : ℕ) (db : Db)
      → select_migration bundle_id db.migrations ≡ false
      → record_migration (every_call ctx now applied_at) bundle_id n (inside c db)
        ≡ ended migrate_ok
            (record { db = recorded (row_of bundle_id applied_at n) db; saved = none })
  unfolding record_migration
  record_migration_total n db fresh =
      rw (insert_migration_fresh (row_of bundle_id applied_at n) db fresh) refl

  -- The transaction around a loop that writes every entry.
  pub apply_bundle_wrote :
      (buf : Bytes) (db : Db)
      → 4 ≤ length buf
      → c.saved ≡ none
      → migrate_entries (every_call ctx now applied_at) 0 (read_u32 buf) (drop 4 buf) c.db
        ≡ wrote db
      → apply_bundle (every_call ctx now applied_at) bundle_id buf c
        ≡ record_migration (every_call ctx now applied_at) bundle_id (read_u32 buf) (inside c db)
  unfolding apply_bundle
  apply_bundle_wrote buf db long closed writes =
      let enough : ltb (length buf) 4 ≡ false = ge→ltb _ _ long in
      rw (enough, begin_immediate_closed true c closed)
        (ap
          (λ l. elim l [
            | wrote db ↦
                record_migration (every_call ctx now applied_at) bundle_id (read_u32 buf)
                  (inside c db)
            | stopped status db ↦ undo (every_call ctx now applied_at) status (inside c db)
            | overflowed ↦ unmodelled
          ])
          writes)

pub bundle_pack_inv :
    (q : Qsort) (bundle : Bundle) (packed : Bytes) (out_len : ℕ)
    → bundle_pack q true bundle ≡ some (packed, out_len)
    → packed
      ≡ put_u32 (u32 (length (q.sort bundle.entries))) ++ pack_entries (q.sort bundle.entries)
unfolding bundle_pack
bundle_pack_inv q bundle packed out_len returns = ground arith

pub compress_bundle_inv :
    (z : Zlib) (packed blob : Bytes) (level : ℕ)
    → compress_bundle z true packed (length packed) level ≡ some blob
    → blob ≡ z.compress level packed
unfolding compress_bundle
compress_bundle_inv z packed blob level returns = ground (arith, take-length packed)

pub decompress_bundle-some :
    (uncompress : Uncompress) (calls : MigrateCalls) (bundle_id blob buf : Bytes) (c : Conn)
    → calls.malloc_buffer ≡ true
    → uncompress (u64 (length blob * 10)) blob ≡ some buf
    → decompress_bundle uncompress calls bundle_id blob c ≡ apply_bundle calls bundle_id buf c
decompress_bundle-some uncompress calls bundle_id blob buf c room e =
    unfold decompress_bundle in rw (room, e) refl

pub overlay_fs_migrate_assets_fresh :
    (uncompress : Uncompress) (calls : MigrateCalls) (blob : Bytes) (c : Conn)
    → blob ≢ []
    → calls.prepare_check ≡ true
    → select_migration (compute_bundle_id calls.ctx blob) c.db.migrations ≡ false
    → overlay_fs_migrate_assets uncompress calls blob c
      ≡ decompress_bundle uncompress calls (compute_bundle_id calls.ctx blob) blob c
overlay_fs_migrate_assets_fresh uncompress calls [] c some_bytes prepared fresh =
    absurd (some_bytes refl)
overlay_fs_migrate_assets_fresh uncompress calls (b ∷ bs) c some_bytes prepared fresh =
    unfold overlay_fs_migrate_assets in
    elim (Bool-cases calls.step_check) [
      | inl e ↦ rw (prepared, e, fresh) refl
      | inr e ↦ rw (prepared, e) refl
    ]

pub newest_content-read :
    (q : Bytes) (db : Db)
    → overlay_fs_read read_calls (some db) (some q) true ≡ (elim (newest_content q db) [
      | none ↦ missing
      | some content ↦ found (some content) (length content)
    ])
unfolding overlay_fs_read newest_content
newest_content-read q db = ground arith
