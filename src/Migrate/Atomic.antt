-- ===== src/Migrate/Atomic.antt =====
-- The migration's transaction: what each way to end leaves in the database.
use hbf.Base.{◌≡◌, refl, Bool-cases, ◌⊎◌, inl, inr, false, not, none, some, [], ◌∷◌, Bytes}
use hbf.Overlay.Schema.{Db, select_migration}
use hbf.Overlay.History.{IsConsistent}
use hbf.Migrate.{
  Uncompress, Conn, rollback, MigrateCalls, compute_bundle_id, overlay_fs_migrate_assets,
}
use hbf.Migrate.Entries.{fails_db}
use hbf.Migrate.Settle.{
  IsApplied, Settles, on_error, Settles-if, inside, checked, rollback-inside, rollback_failed,
  decompress_bundle-Settles,
}

module _ (uncompress : Uncompress) (calls : MigrateCalls) (blob : Bytes) (c : Conn)
    (h : IsConsistent c.db) (closed : c.saved ≡ none) where
  pub migrate-Settles :
      {Left : Conn → Type 0}
      → Left c
      → ((db : Db) → IsConsistent db → Left (rollback calls.rolls_back (inside c db)))
      → ((db : Db) → IsConsistent db → calls.commits ≡ false → Left (inside c db))
      → Settles
          (compute_bundle_id calls.ctx blob)
          c
          (IsApplied uncompress calls blob c.db)
          Left
          (overlay_fs_migrate_assets uncompress calls blob c)
  unfolding overlay_fs_migrate_assets
  migrate-Settles {Left = Left} kept undone uncommitted =
      elim blob
        as (λ k.
          Settles (compute_bundle_id calls.ctx k) c (IsApplied uncompress calls k c.db) Left
            (overlay_fs_migrate_assets uncompress calls k c)) [
              | [] ↦ on_error fails_db kept
              | b ∷ bs ↦ Settles-if (not calls.prepare_check) (on_error fails_db kept) (
                  checked c calls.step_check
                    (select_migration (compute_bundle_id calls.ctx (b ∷ bs)) c.db.migrations) refl
                    (decompress_bundle-Settles uncompress calls (b ∷ bs) c Left kept undone
                      uncommitted h closed))
            ]

  -- Whatever the bundle's bytes and however any call ends, the migration either gives success with
  -- every entry of the whole bundle written in order, its id recorded, and no open transaction, or it
  -- finds the id recorded and changes nothing, or it gives a failure. A failure leaves the
  -- connection as it was, unless COMMIT or ROLLBACK itself has failed, where it may stay in the open
  -- transaction, from which a rollback restores the database; the tables are consistent each way.
  pub overlay_fs_migrate_assets-Settles :
      Settles
        (compute_bundle_id calls.ctx blob)
        c
        (IsApplied uncompress calls blob c.db)
        (λ c'.
          IsConsistent c'.db
          × ((c' ≡ c)
              ⊎ (((calls.commits ≡ false) ⊎ (calls.rolls_back ≡ false)) × (c'.saved ≡ some c.db))))
        (overlay_fs_migrate_assets uncompress calls blob c)
  overlay_fs_migrate_assets-Settles =
      migrate-Settles (h, inl refl) rolled (λ db d e. (d, inr (inl e, refl)))
    where
      rolled :
          (db : Db)
          → IsConsistent db
          → IsConsistent (rollback calls.rolls_back (inside c db)).db
            × ((rollback calls.rolls_back (inside c db) ≡ c)
                ⊎ (((calls.commits ≡ false) ⊎ (calls.rolls_back ≡ false))
                    × ((rollback calls.rolls_back (inside c db)).saved ≡ some c.db)))
      rolled db d = elim (Bool-cases calls.rolls_back) [
        | inl e ↦ rw (e, rollback-inside c db closed) (h, inl refl)
        | inr e ↦ rw (e, rollback_failed c db) (d, inr (inr refl, refl))
      ]
