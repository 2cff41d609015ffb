-- ===== src/Migrate/Packed.antt =====
-- A bundle from the packer's entries to the database, through zlib; and running it again.
use hbf.Base.{
  ◌∙◌, ap, ◌*◌, ◌^◌, ◌≤◌, ◌<◌, ℕ, ◌+◌, ◌≡◌, ◌≢◌, refl, true, false, none, some, List, [], ◌∷◌, ◌++◌,
  Bytes, length, All, arith, append-nil,
}
use hbf.Packer.{
  IsPackable, FileEntry, Bundle, Qsort, Zlib, pack_entries, bundle_pack, compress_bundle,
}
use hbf.Packer.Words.{u32, u64, put_u32, read_u32, read_u32-put_u32}
use hbf.Packer.Size.{bundle_pack-length}
use hbf.Sha256.{Context}
use hbf.Overlay.Schema.{Db, Migration, select_migration}
use hbf.Overlay.Read.{found, overlay_fs_read}
use hbf.Overlay.History.{IsConsistent}
use hbf.Overlay.ReadBack.{read_calls}
use hbf.Migrate.{
  Conn, ended, migrate_ok, compute_bundle_id, wrote, migrate_entries, apply_bundle,
  overlay_fs_migrate_assets,
}
use hbf.Migrate.Settle.{recorded}
use hbf.Migrate.RoundTrip.{migrate_entries_total}
use hbf.Migrate.Merged.{every_call, IsMigratable, IsRoomy, IsMerged, last_content, newest_content}
use hbf.Migrate.Steps.{
  row_of, record_migration_total, apply_bundle_wrote, bundle_pack_inv, compress_bundle_inv,
  decompress_bundle-some, overlay_fs_migrate_assets_fresh, newest_content-read,
}

abbrev pub sorted : Qsort → Bundle → List FileEntry
sorted q bundle = q.sort bundle.entries

All-IsPackable : (es : List FileEntry) → All IsMigratable es → All IsPackable es
All-IsPackable [] hs = tt
All-IsPackable (e ∷ es) (h, hs) = (h.packable, All-IsPackable es hs)

-- The parsed count and the loop, on what the packer wrote.
module _ (ctx : Context) (now : ℕ → ℕ) (applied_at : ℕ) (bundle_id : Bytes) (c : Conn) where
  apply_packed :
      (es : List FileEntry)
      → IsConsistent c.db
      → c.saved ≡ none
      → select_migration bundle_id c.db.migrations ≡ false
      → All IsMigratable es
      → IsRoomy (length es) c.db
      → (db : Db) × (apply_bundle
            (every_call ctx now applied_at)
            bundle_id
            (put_u32 (u32 (length es)) ++ pack_entries es)
            c
          ≡ ended migrate_ok
              (record { db = recorded (row_of bundle_id applied_at (length es)) db; saved = none }))
        × IsMerged es c.db db
  unfolding put_u32
  apply_packed es h closed fresh hs room =
      let (db, writes, merged) =
        migrate_entries_total ctx now applied_at es c.db 0 [] h hs room (omega (arith, room.ids)) in
      let small : u32 (length es) ≡ length es = omega (arith, room.ids) in
      let count : read_u32 (put_u32 (u32 (length es)) ++ pack_entries es) ≡ length es =
        rw small (read_u32-put_u32 (length es) (pack_entries es) (omega (arith, room.ids))) in
      let loop : migrate_entries (every_call ctx now applied_at) 0
            (read_u32 (put_u32 (u32 (length es)) ++ pack_entries es)) (pack_entries es) c.db
          ≡ wrote db =
        rw count (rw append-nil at writes) in
      (
        db,
        apply_bundle_wrote ctx now applied_at bundle_id c
              (put_u32 (u32 (length es)) ++ pack_entries es) db (omega arith) closed loop
            ∙ rw count (
                record_migration_total ctx now applied_at bundle_id c (length es) db
                  (rw merged.same_migrations fresh)),
        merged,
      )

reads_merged :
    (es : List FileEntry) (before after : Db) (m : Migration)
    → IsMerged es before after
    → (path : Bytes)
    → overlay_fs_read read_calls (some (recorded m after)) (some path) true
      ≡ (elim (last_content path es) [
        | some content ↦ found (some content) (length content)
        | none ↦ overlay_fs_read read_calls (some before) (some path) true
      ])
reads_merged es before after m merged path =
    newest_content-read path (recorded m after)
    ∙ ground (arith, same, merged.contents path, newest_content-read path before)
  where
    same : newest_content path (recorded m after) ≡ newest_content path after
    same = unfold newest_content in refl

module _ (z : Zlib) (q : Qsort) (bundle : Bundle) (level : ℕ) {packed blob : Bytes} {out_len : ℕ}
    (packs : bundle_pack q true bundle ≡ some (packed, out_len))
    (compresses : compress_bundle z true packed out_len level ≡ some blob) where
  packed_lem : packed ≡ put_u32 (u32 (length (sorted q bundle))) ++ pack_entries (sorted q bundle)
  packed_lem = bundle_pack_inv q bundle packed out_len packs

  length-packed : length packed ≡ 4 + length (pack_entries (sorted q bundle))
  unfolding put_u32
  length-packed = rw packed_lem (omega arith)

  pub blob_lem :
      All IsMigratable (sorted q bundle) → length packed < 2 ^ 64 → blob ≡ z.compress level packed
  blob_lem hs fits =
      let whole : out_len ≡ length packed =
        bundle_pack-length q true bundle packed out_len (All-IsPackable (sorted q bundle) hs)
          (omega (arith, length-packed)) packs in
      compress_bundle_inv z packed blob level (rw whole at compresses)

  pub not_empty : length packed ≤ u64 (length blob * 10) → blob ≢ []
  not_empty ratio e =
      let none_left : length blob ≡ 0 = ap length e in absurd (omega (arith, length-packed))

module _ (z : Zlib)
    (uncompress-compress : (level cap : ℕ) (d : Bytes)
      → length d ≤ cap
      → z.uncompress cap (z.compress level d) ≡ some d)
    (ctx : Context) (now : ℕ → ℕ) (applied_at : ℕ) (q : Qsort) (bundle : Bundle) (level : ℕ)
    {packed blob : Bytes} {out_len : ℕ} (c : Conn)
    (packs : bundle_pack q true bundle ≡ some (packed, out_len))
    (compresses : compress_bundle z true packed out_len level ≡ some blob) (h : IsConsistent c.db)
    (closed : c.saved ≡ none) where
  uncompress_packed :
      All IsMigratable (sorted q bundle)
      → length packed < 2 ^ 64
      → length packed ≤ u64 (length blob * 10)
      → z.uncompress (u64 (length blob * 10)) blob ≡ some packed
  uncompress_packed hs fits ratio =
      ap (z.uncompress (u64 (length blob * 10)))
        (blob_lem z q bundle level packs compresses hs fits)
      ∙ uncompress-compress level (u64 (length blob * 10)) packed ratio

  -- What the packer built from a bundle of migratable entries, with a sum of sizes below 2^64, and
  -- compressed to no less than a tenth, is migrated: the run in which every call succeeds, on a
  -- database with room for the entries that has not this bundle's id, ends with MIGRATE_OK and no
  -- open transaction; a path in the bundle then reads as its last packed content, and every other
  -- path as before.
  pub overlay_fs_migrate_assets-bundle_pack :
      All IsMigratable (sorted q bundle)
      → IsRoomy (length (sorted q bundle)) c.db
      → length packed < 2 ^ 64
      → length packed ≤ u64 (length blob * 10)
      → select_migration (compute_bundle_id ctx blob) c.db.migrations ≡ false
      → (c' : Conn) × (overlay_fs_migrate_assets z.uncompress (every_call ctx now applied_at) blob c
          ≡ ended migrate_ok c')
        × (c'.saved ≡ none)
        × ((path : Bytes)
            → overlay_fs_read read_calls (some c'.db) (some path) true
              ≡ (elim (last_content path (sorted q bundle)) [
                | some content ↦ found (some content) (length content)
                | none ↦ overlay_fs_read read_calls (some c.db) (some path) true
              ]))
  overlay_fs_migrate_assets-bundle_pack hs room fits ratio fresh =
      let (db, applied, merged) =
        apply_packed ctx now applied_at (compute_bundle_id ctx blob) c (sorted q bundle) h closed
          fresh hs room in
      (
        record {
          db =
              recorded (row_of (compute_bundle_id ctx blob) applied_at (length (sorted q bundle)))
                db;
          saved = none;
        },
        overlay_fs_migrate_assets_fresh z.uncompress (every_call ctx now applied_at) blob c
              (not_empty z q bundle level packs compresses ratio) refl fresh
            ∙ decompress_bundle-some z.uncompress (every_call ctx now applied_at)
                (compute_bundle_id ctx blob) blob packed c refl (uncompress_packed hs fits ratio)
            ∙ rw (packed_lem z q bundle level packs compresses) applied,
        refl,
        λ path. reads_merged (sorted q bundle) c.db db _ merged path,
      )
