-- ===== src/Migrate/Merged.antt =====
-- What a migrated bundle is to the reads, and one iteration of the loop.
use hbf.Base.{
  append_assoc, ◌∙◌, ap, ◌-◌, ◌^◌, ◌≤◌, ◌<◌, ℕ, suc, ◌+◌, ◌≡◌, refl, true, not, Option, none, some,
  List, [], ◌∷◌, ◌++◌, Bytes, length, IsText, c_str, ◌==◌, if◌then◌else◌, arith, bytes_eq,
}
use hbf.Packer.{IsPackable, FileEntry, pack_entry, pack_entries}
use hbf.Sha256.{Context}
use hbf.Overlay.Schema.{Db, count_versions}
use hbf.Overlay.Write.{Write, failed, rejected, wrapped, done, int_max, overlay_fs_write}
use hbf.Overlay.Read.{select_newest}
use hbf.Overlay.History.{IsConsistent}
use hbf.Overlay.Effects.{IsWritten}
use hbf.Overlay.ReadBack.{all_calls}
use hbf.Migrate.{
  Loop, stopped, overflowed, migrate_err_db, migrate_err_corrupt, MigrateCalls, Entry, read_entry,
  wrote, migrate_entry, migrate_entries,
}

-- The runs in which every call succeeds.
abbrev pub every_call : Context → (ℕ → ℕ) → ℕ → MigrateCalls
every_call ctx now applied_at = record {
  ctx = ctx;
  prepare_check = true;
  step_check = true;
  malloc_buffer = true;
  begins = true;
  malloc_name = λ i. true;
  writes = λ i. all_calls;
  now = now;
  prepare_record = true;
  step_record = true;
  applied_at = applied_at;
  commits = true;
  rolls_back = true;
}

-- An entry whose path is a C string and whose lengths fit.
pub record IsMigratable (e : FileEntry) : Type 0 where
  pub packable : IsPackable e
  pub text : IsText e.path
  pub name_len : length e.path < 2 ^ 32 - 1
  pub content_len : length e.content ≤ int_max

-- Room for `n` more row ids and for `n` more versions of any path.
pub record IsRoomy (n : ℕ) (db : Db) : Type 0 where
  pub ids : db.next_id + n ≤ int_max
  pub versions : (q : Bytes) → count_versions q db.file_ids db.file_versions + n ≤ int_max

-- The content of the last entry at a path.
unfoldable pub last_content : Bytes → List FileEntry → Option Bytes
last_content q [] = none
last_content q (e ∷ es) = elim (last_content q es) [
  | some content ↦ some content
  | none ↦ if bytes_eq e.path q then some e.content else none
]

-- What reading a path gives.
unfoldable pub newest_content : Bytes → Db → Option Bytes
unfolding select_newest
newest_content q db = elim (select_newest q db) [ none ↦ none | some v ↦ some v.content ]

-- `after` reads as `before` with the entries on top.
pub record IsMerged (es : List FileEntry) (before after : Db) : Type 0 where
  pub consistent : IsConsistent after
  pub same_migrations : after.migrations ≡ before.migrations
  pub contents :
      (q : Bytes)
      → newest_content q after ≡ (elim (last_content q es) [
        | some content ↦ some content
        | none ↦ newest_content q before
      ])

-- What an iteration makes of the write's outcome.
abbrev pub after_write : MigrateCalls → ℕ → Entry → Db → Write → Loop
after_write calls i e db w =
    if length e.name == 2 ^ 32 - 1
    then overflowed
    else if not (calls.malloc_name i)
    then stopped migrate_err_db db
    else elim w [
      | done db' ↦ if i == int_max then overflowed else wrote db'
      | failed db' ↦ stopped migrate_err_db db'
      | rejected ↦ stopped migrate_err_db db
      | wrapped ↦ overflowed
    ]

pub migrate_entry_lem :
    (calls : MigrateCalls) (i : ℕ) (e : Entry) (db : Db)
    → migrate_entry calls i e db
      ≡ after_write calls i e db (
          overlay_fs_write
            (calls.writes i)
            (calls.now i)
            (some db)
            (some (c_str e.name))
            (some e.content)
            (length e.content))
unfolding migrate_entry
migrate_entry_lem calls i e db = refl

-- One iteration that writes, and the rest of the loop.
pub migrate_entries_step :
    (calls : MigrateCalls) (i n : ℕ) (buf rest : Bytes) (e : Entry) (db mid : Db)
    → read_entry buf ≡ some (e, rest)
    → migrate_entry calls i e db ≡ wrote mid
    → migrate_entries calls i (suc n) buf db ≡ migrate_entries calls (suc i) n rest mid
unfolding migrate_entries
migrate_entries_step calls i n buf rest e db mid reads writes =
    ap
      (λ o. elim o [
        | none ↦ stopped migrate_err_corrupt db
        | some (e, rest) ↦ elim (migrate_entry calls i e db) [
          | wrote db' ↦ migrate_entries calls (suc i) n rest db'
          | stopped status db' ↦ stopped status db'
          | overflowed ↦ overflowed
        ]
      ])
      reads
    ∙ ap
        (λ l. elim l [
          | wrote db' ↦ migrate_entries calls (suc i) n rest db'
          | stopped status db' ↦ stopped status db'
          | overflowed ↦ overflowed
        ])
        writes

pub pack_entries-cons :
    (e : FileEntry) (es : List FileEntry) (rest : Bytes)
    → pack_entries (e ∷ es) ++ rest ≡ pack_entry e ++ (pack_entries es ++ rest)
unfolding pack_entries
pack_entries-cons e es rest = append_assoc (pack_entry e) (pack_entries es) rest

pub IsMerged-cons :
    (e : FileEntry) (es : List FileEntry) (before mid after : Db)
    → IsWritten e.path e.content before mid
    → IsMerged es mid after
    → IsMerged (e ∷ es) before after
unfolding last_content newest_content
IsMerged-cons e es before mid after w merged = record {
  consistent = merged.consistent;
  same_migrations = merged.same_migrations ∙ w.same_migrations;
  contents = λ q. ground (arith, merged.contents q, w.newest q, w.with_content);
}
