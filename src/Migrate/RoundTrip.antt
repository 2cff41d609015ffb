-- ===== src/Migrate/RoundTrip.antt =====
-- From the packer to the database: the loop writes every entry that was packed.
use hbf.Base.{
  ◌∙◌, ap, ◌-◌, ◌^◌, ◌≤◌, ◌<◌, ℕ, suc, ◌+◌, ◌≡◌, refl, false, some, List, [], ◌∷◌, ◌++◌, Bytes,
  length, take-length, All, c_str, c_str_text, ◌==◌, arith,
}
use hbf.Packer.{FileEntry, pack_entries}
use hbf.Sha256.{Context}
use hbf.Overlay.Schema.{Db}
use hbf.Overlay.Write.{done, int_max, overlay_fs_write}
use hbf.Overlay.History.{IsConsistent}
use hbf.Overlay.Effects.{IsWritten}
use hbf.Overlay.ReadBack.{all_calls, written_lem}
use hbf.Overlay.Total.{overlay_fs_write_total}
use hbf.Migrate.{wrote, migrate_entry, migrate_entries}
use hbf.Migrate.Parse.{entry_of, read_entry-pack_entry}
use hbf.Migrate.Merged.{
  last_content, every_call, IsMigratable, IsRoomy, IsMerged, after_write, migrate_entry_lem,
  migrate_entries_step, pack_entries-cons, IsMerged-cons,
}

module _ (ctx : Context) (now : ℕ → ℕ) (applied_at : ℕ) where
  migrate_entry_total :
      (e : FileEntry) (db : Db) (i n : ℕ)
      → IsConsistent db
      → IsMigratable e
      → IsRoomy (suc n) db
      → i < int_max
      → (db' : Db) × (migrate_entry (every_call ctx now applied_at) i (entry_of e) db ≡ wrote db')
        × IsWritten e.path e.content db db'
        × IsRoomy n db'
  migrate_entry_total e db i n h m room below =
      let (db', returns, ids) =
        overlay_fs_write_total (now i) db e.path e.content (length e.content) h
          (rw (take-length e.content) m.content_len) (omega (arith, room.ids))
          (omega (arith, room.versions e.path)) in
      let w : IsWritten e.path e.content db db' =
        rw (take-length e.content) at
          (written_lem all_calls (now i) db e.path (some e.content) (length e.content) h returns) in
      (
        db',
        step (length_not m.name_len) returns,
        w,
        record {
          ids = omega (arith, room.ids);
          versions = λ q. ground (arith, room.versions q, w.counts q);
        },
      )
    where
      length_not : length e.path < 2 ^ 32 - 1 → (length e.path == 2 ^ 32 - 1) ≡ false
      length_not lt = ground arith

      name : c_str e.path ≡ e.path
      name = c_str_text e.path m.text

      step :
          {db' : Db}
          → (length e.path == 2 ^ 32 - 1) ≡ false
          → overlay_fs_write all_calls
              (now i)
              (some db)
              (some e.path)
              (some e.content)
              (length e.content)
            ≡ done db'
          → migrate_entry (every_call ctx now applied_at) i (entry_of e) db ≡ wrote db'
      step {db' = db'} short returns =
          let at_name : overlay_fs_write all_calls (now i) (some db) (some (c_str e.path))
                (some e.content) (length e.content)
              ≡ done db' =
            rw name returns in
          let counted : (i == int_max) ≡ false = ground arith in
          migrate_entry_lem (every_call ctx now applied_at) i (entry_of e) db
          ∙ ap (after_write (every_call ctx now applied_at) i (entry_of e) db) at_name
          ∙ rw (short, counted)

  advance :
      (e : FileEntry) (es : List FileEntry) (db mid : Db) (i : ℕ) (rest : Bytes)
      → IsMigratable e
      → migrate_entry (every_call ctx now applied_at) i (entry_of e) db ≡ wrote mid
      → migrate_entries
          (every_call ctx now applied_at)
          i
          (suc (length es))
          (pack_entries (e ∷ es) ++ rest)
          db
        ≡ migrate_entries
            (every_call ctx now applied_at)
            (suc i)
            (length es)
            (pack_entries es ++ rest)
            mid
  advance e es db mid i rest m writes =
      migrate_entries_step (every_call ctx now applied_at) i (length es)
        (pack_entries (e ∷ es) ++ rest) (pack_entries es ++ rest) (entry_of e) db mid
        (rw (pack_entries-cons e es rest)
          (read_entry-pack_entry e (pack_entries es ++ rest) m.packable))
        writes

  pub migrate_entries_total :
      (es : List FileEntry) (db : Db) (i : ℕ) (rest : Bytes)
      → IsConsistent db
      → All IsMigratable es
      → IsRoomy (length es) db
      → i + length es ≤ int_max
      → (db' : Db) × (migrate_entries
            (every_call ctx now applied_at)
            i
            (length es)
            (pack_entries es ++ rest)
            db
          ≡ wrote db')
        × IsMerged es db db'
  migrate_entries_total [] db i rest h ms room below = (
    db,
    unfold migrate_entries in refl,
    record { consistent = h; same_migrations = refl; contents = λ q. unfold last_content in refl },
  )
  migrate_entries_total (e ∷ es) db i rest h (m, ms) room below =
      let (mid, returns, w, room') =
        migrate_entry_total e db i (length es) h m room (omega arith) in
      let (db', returns', merged) =
        migrate_entries_total es mid (suc i) rest w.consistent ms room' (omega arith) in
      (db', advance e es db mid i rest m returns ∙ returns', IsMerged-cons e es db mid db' w merged)
