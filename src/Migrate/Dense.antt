-- ===== src/Migrate/Dense.antt =====
-- The bundle that does not fit the guess of ten times its compressed size.
use hbf.Base.{
  Bool-cases, inl, inr, ◌∙◌, ap, ℕ, ◌*◌, ◌^◌, ◌<◌, ◌≡◌, ◌≢◌, refl, true, false, some, none, [],
  Bytes, All, length,
}
use hbf.Packer.{Bundle, Qsort, Zlib, bundle_pack, compress_bundle}
use hbf.Packer.Words.{u64}
use hbf.Overlay.Schema.{select_migration}
use hbf.Migrate.{
  Uncompress, Conn, MigrateCalls, ended, migrate_err_decompress, compute_bundle_id,
  decompress_bundle, overlay_fs_migrate_assets,
}
use hbf.Migrate.Merged.{IsMigratable}
use hbf.Migrate.Packed.{blob_lem, sorted}
use hbf.Migrate.Steps.{overlay_fs_migrate_assets_fresh}

decompress_bundle_refused :
    (uncompress : Uncompress) (calls : MigrateCalls) (id blob : Bytes) (c : Conn)
    → uncompress (u64 (length blob * 10)) blob ≡ none
    → decompress_bundle uncompress calls id blob c ≡ ended migrate_err_decompress c
unfolding decompress_bundle
decompress_bundle_refused uncompress calls id blob c small = elim (Bool-cases calls.malloc_buffer) [
  | inl e ↦ rw (e, small) refl
  | inr e ↦ rw e refl
]

-- What the packer built from a bundle of migratable entries and compressed to less than a tenth is
-- never migrated, where zlib refuses to inflate into a buffer that is too small: a run that can
-- prepare its check, over a database that has not the bundle's id, gives MIGRATE_ERR_DECOMPRESS and
-- leaves the connection as it was, whatever the other calls answer.
pub overlay_fs_migrate_assets_too_dense :
    (z : Zlib)
    (refuses : (level cap : ℕ) (d : Bytes)
      → cap < length d
      → z.uncompress cap (z.compress level d) ≡ none)
    (q : Qsort) (bundle : Bundle) (level : ℕ) (packed blob : Bytes) (out_len : ℕ)
    (calls : MigrateCalls) (c : Conn)
    → bundle_pack q true bundle ≡ some (packed, out_len)
    → compress_bundle z true packed out_len level ≡ some blob
    → All IsMigratable (sorted q bundle)
    → length packed < 2 ^ 64
    → u64 (length blob * 10) < length packed
    → blob ≢ []
    → calls.prepare_check ≡ true
    → select_migration (compute_bundle_id calls.ctx blob) c.db.migrations ≡ false
    → overlay_fs_migrate_assets z.uncompress calls blob c ≡ ended migrate_err_decompress c
overlay_fs_migrate_assets_too_dense z refuses q bundle level packed blob out_len calls c packs
      compresses migratable fits dense some_bytes prepared fresh =
    overlay_fs_migrate_assets_fresh z.uncompress calls blob c some_bytes prepared fresh
    ∙ decompress_bundle_refused z.uncompress calls (compute_bundle_id calls.ctx blob) blob c (
        ap (z.uncompress (u64 (length blob * 10)))
          (blob_lem z q bundle level packs compresses migratable fits)
        ∙ refuses level (u64 (length blob * 10)) packed dense)
