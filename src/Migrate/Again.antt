-- ===== src/Migrate/Again.antt =====
-- The migration of a bundle that is already applied.
use hbf.Base.{◌∙◌, sym, ap, ◌≡◌, ◌≢◌, refl, true, none, [], ◌∷◌, Bytes, length}
use hbf.Sha256.{Context}
use hbf.Sha256.Finish.{sha256-eq-sha256_standard}
use hbf.Overlay.Schema.{select_migration}
use hbf.Overlay.History.{IsConsistent}
use hbf.Migrate.{
  Uncompress, hex_bytes, Conn, MigrateCalls, ended, migrate_ok, migrate_err_already_applied,
  compute_bundle_id, overlay_fs_migrate_assets,
}
use hbf.Migrate.Atomic.{overlay_fs_migrate_assets-Settles}
use hbf.Migrate.Settle.{Settles, on_ok, on_error}

-- The id does not depend on what the context held.
compute_bundle_id_same :
    (ctx other : Context) (blob : Bytes)
    → length ctx.buffer ≡ 64
    → length other.buffer ≡ 64
    → compute_bundle_id ctx blob ≡ compute_bundle_id other blob
unfolding compute_bundle_id
compute_bundle_id_same ctx other blob room room' =
    ap hex_bytes
      (sha256-eq-sha256_standard ctx blob room ∙ sym (sha256-eq-sha256_standard other blob room'))

-- A bundle whose id is recorded, on a run that can see it.
already_applied :
    (uncompress : Uncompress) (calls : MigrateCalls) (blob : Bytes) (c : Conn)
    → blob ≢ []
    → calls.prepare_check ≡ true
    → calls.step_check ≡ true
    → select_migration (compute_bundle_id calls.ctx blob) c.db.migrations ≡ true
    → overlay_fs_migrate_assets uncompress calls blob c ≡ ended migrate_err_already_applied c
already_applied uncompress calls [] c some_bytes prepared steps recorded = absurd (some_bytes refl)
already_applied uncompress calls (b ∷ bs) c some_bytes prepared steps recorded =
    unfold overlay_fs_migrate_assets in rw (prepared, steps, recorded) refl

ok_recorded :
    {id : Bytes} {start : Conn} {Done Left : Conn → Type 0} {c : Conn}
    → Settles id start Done Left (ended migrate_ok c)
    → select_migration id c.db.migrations ≡ true
ok_recorded (on_ok h closed recorded done) = recorded
ok_recorded (on_error e left) = elim e [ ]

ok-not_empty :
    (uncompress : Uncompress) (calls : MigrateCalls) (blob : Bytes) (c c' : Conn)
    → overlay_fs_migrate_assets uncompress calls blob c ≡ ended migrate_ok c'
    → blob ≢ []
unfolding overlay_fs_migrate_assets
ok-not_empty uncompress calls [] c c' ok e = absurd cc
ok-not_empty uncompress calls (b ∷ bs) c c' ok e = absurd cc

-- A bundle that has been migrated is not migrated again: on the same bytes a second run that can
-- prepare and step its check changes nothing and gives MIGRATE_ERR_ALREADY_APPLIED, whatever its
-- other calls would give and whatever the stack held in either run.
pub overlay_fs_migrate_assets_again :
    (uncompress : Uncompress) (calls again : MigrateCalls) (blob : Bytes) (c c' : Conn)
    → IsConsistent c.db
    → c.saved ≡ none
    → length calls.ctx.buffer ≡ 64
    → length again.ctx.buffer ≡ 64
    → again.prepare_check ≡ true
    → again.step_check ≡ true
    → overlay_fs_migrate_assets uncompress calls blob c ≡ ended migrate_ok c'
    → overlay_fs_migrate_assets uncompress again blob c' ≡ ended migrate_err_already_applied c'
overlay_fs_migrate_assets_again uncompress calls again blob c c' h closed room room' prepared steps
      ok =
    already_applied uncompress again blob c' (ok-not_empty uncompress calls blob c c' ok) prepared
      steps
      (rw (compute_bundle_id_same again.ctx calls.ctx blob room' room) (
        ok_recorded
          (rw ok at (overlay_fs_migrate_assets-Settles uncompress calls blob c h closed))))
