-- ===== src/Migrate.antt =====
-- `overlay_fs_migrate_assets` of hbf/db/overlay_fs.c, with `compute_bundle_id`: the bundle that the
-- asset packer built is checked against the table `migrations`, decompressed, parsed and written
-- file by file inside one transaction.
pub mod Parse
pub mod Entries
pub mod Settle
pub mod Atomic
pub mod Merged
pub mod RoundTrip
pub mod Steps
pub mod Packed
pub mod Again
pub mod Dense
pub mod Runs
pub mod BundleId
use hbf.Base.{
  hex_digit, ◌&&◌, ℕ, zero, suc, ◌+◌, ◌-◌, ◌*◌, ◌/◌, ◌%◌, ◌^◌, Bool, not, Option, none, some, [],
  ◌∷◌, Bytes, length, take, drop, c_str, ltb, ◌==◌, if◌then◌else◌,
}
use hbf.Packer.Words.{u64, read_u32}
use hbf.Sha256.{Context, sha256}
use hbf.Overlay.Schema.{Db, select_migration, insert_migration}
use hbf.Overlay.Write.{WriteCalls, done, failed, rejected, wrapped, int_max, overlay_fs_write}

-- `uncompress` of zlib: with room for that many bytes, `none` where it does not return Z_OK.
abbrev pub Uncompress : Type 0
Uncompress = ℕ → Bytes → Option Bytes

-- A connection; `saved` is what an open transaction began with.
pub record Conn : Type 0 where
  pub db : Db
  pub saved : Option Db

-- "BEGIN IMMEDIATE;", "COMMIT;" and "ROLLBACK;" through `exec_sql_file`; `none` is its -1. They
-- fail also where a transaction is open, or is not.
unfoldable pub begin_immediate : Bool → Conn → Option Conn
begin_immediate answer c =
    if not answer
    then none
    else elim c.saved [ some _ ↦ none | none ↦ some (record { db = c.db; saved = some c.db }) ]

unfoldable pub commit : Bool → Conn → Option Conn
commit answer c =
    if not answer
    then none
    else elim c.saved [ none ↦ none | some _ ↦ some (record { db = c.db; saved = none }) ]

-- No caller looks at what "ROLLBACK;" returns. The rollback that SQLite itself makes on some I/O and
-- memory errors of a statement is not modelled.
unfoldable pub rollback : Bool → Conn → Conn
rollback answer c =
    if not answer then c else elim c.saved [ none ↦ c | some db ↦ record { db = db; saved = none } ]

-- migrate_status_t
pub data MigrateStatus : Type 0 where
  migrate_ok : MigrateStatus
  migrate_err_decompress : MigrateStatus
  migrate_err_db : MigrateStatus
  migrate_err_already_applied : MigrateStatus
  migrate_err_corrupt : MigrateStatus

-- The answers of SQLite, of `malloc` and of the clock at each call site, those of the loop for each
-- entry's index; `ctx` is the local variable of `compute_bundle_id`.
pub record MigrateCalls : Type 0 where
  pub ctx : Context
  pub prepare_check : Bool
  pub step_check : Bool
  pub malloc_buffer : Bool
  pub begins : Bool
  pub malloc_name : ℕ → Bool
  pub writes : ℕ → WriteCalls
  pub now : ℕ → ℕ
  pub prepare_record : Bool
  pub step_record : Bool
  pub applied_at : ℕ
  pub commits : Bool
  pub rolls_back : Bool

-- sprintf(…, "%02x", hash[i]) for each byte
unfoldable pub hex_bytes : Bytes → Bytes
hex_bytes [] = []
hex_bytes (b ∷ bs) = hex_digit (b / 16) ∷ hex_digit (b % 16) ∷ hex_bytes bs

-- `ctx` is the local variable, with whatever was on the stack.
unfoldable pub compute_bundle_id : Context → Bytes → Bytes
unfolding hex_bytes sha256
compute_bundle_id ctx blob = hex_bytes (sha256 ctx blob)

-- One entry of the parsed bundle.
pub record Entry : Type 0 where
  pub name : Bytes
  pub content : Bytes

-- A length and as many bytes, from `ptr` to `end`: the body of the loop does this for the name and
-- then for the data. `none` where one of its two truncation checks fails, and otherwise the field
-- and the bytes from the new `ptr`.
unfoldable pub read_field : Bytes → Option (Bytes × Bytes)
unfolding read_u32
read_field buf =
    if ltb (length buf) 4
    then none
    else let len = read_u32 buf in
      let field = drop 4 buf in
      if ltb (length field) len then none else some (take len field, drop len field)

unfoldable pub read_entry : Bytes → Option (Entry × Bytes)
unfolding read_field
read_entry buf = elim (read_field buf) [
  | none ↦ none
  | some (name, at_len) ↦ elim (read_field at_len) [
    | none ↦ none
    | some (content, rest) ↦ some (record { name = name; content = content }, rest)
  ]
]

-- How an iteration or the loop ends: with the entries so far written, with a status and the
-- database before the rollback, or in a run that is not modelled: a name length of 2^32 - 1, for
-- which `malloc(name_len + 1)` asks for nothing, or a count or a write beyond an `int`.
pub data Loop : Type 0 where
  wrote : Db → Loop
  stopped : MigrateStatus → Db → Loop
  overflowed : Loop

-- The end of the loop's body, from the allocation of `name_str`.
unfoldable pub migrate_entry : MigrateCalls → ℕ → Entry → Db → Loop
unfolding overlay_fs_write
migrate_entry calls i e db =
    if length e.name == 2 ^ 32 - 1
    then overflowed
    else if not (calls.malloc_name i)
    then stopped migrate_err_db db
    else elim (overlay_fs_write (calls.writes i) (calls.now i) (some db) (some (c_str e.name))
        (some e.content) (length e.content)) [
          | done db' ↦ if i == int_max then overflowed else wrote db'
          | failed db' ↦ stopped migrate_err_db db'
          | rejected ↦ stopped migrate_err_db db
          | wrapped ↦ overflowed
        ]

-- The loop, with the entries left as its second number; `migrated_count` is `i` throughout.
unfoldable pub migrate_entries : MigrateCalls → ℕ → ℕ → Bytes → Db → Loop
unfolding read_entry migrate_entry
migrate_entries calls i zero buf db = wrote db
migrate_entries calls i (suc n) buf db = elim (read_entry buf) [
  | none ↦ stopped migrate_err_corrupt db
  | some (e, rest) ↦ elim (migrate_entry calls i e db) [
    | wrote db' ↦ migrate_entries calls (suc i) n rest db'
    | stopped status db' ↦ stopped status db'
    | overflowed ↦ overflowed
  ]
]

-- What the function returns, and the connection after it.
pub data Migrate : Type 0 where
  ended : MigrateStatus → Conn → Migrate
  unmodelled : Migrate

-- A failure inside the transaction.
unfoldable pub undo : MigrateCalls → MigrateStatus → Conn → Migrate
unfolding rollback
undo calls status c = ended status (rollback calls.rolls_back c)

-- "Record migration" and "Commit transaction"
unfoldable pub record_migration : MigrateCalls → Bytes → ℕ → Conn → Migrate
unfolding undo commit
record_migration calls bundle_id migrated_count c =
    if not calls.prepare_record
    then undo calls migrate_err_db c
    else elim (insert_migration
        (record { bundle_id = bundle_id; applied_at = calls.applied_at; entries = migrated_count })
        c.db) [
          | none ↦ undo calls migrate_err_db c
          | some db ↦
              if not calls.step_record
              then undo calls migrate_err_db c
              else elim (commit calls.commits (record c { db = db })) [
                | none ↦ ended migrate_err_db (record c { db = db })
                | some c' ↦ ended migrate_ok c'
              ]
        ]

-- "Parse bundle", with the transaction.
unfoldable pub apply_bundle : MigrateCalls → Bytes → Bytes → Conn → Migrate
unfolding begin_immediate read_u32 migrate_entries record_migration
apply_bundle calls bundle_id buf c =
    if ltb (length buf) 4
    then ended migrate_err_corrupt c
    else elim (begin_immediate calls.begins c) [
      | none ↦ ended migrate_err_db c
      | some b ↦ elim (migrate_entries calls 0 (read_u32 buf) (drop 4 buf) b.db) [
        | wrote db ↦ record_migration calls bundle_id (read_u32 buf) (record b { db = db })
        | stopped status db ↦ undo calls status (record b { db = db })
        | overflowed ↦ unmodelled
      ]
    ]

-- From "Decompress bundle"
unfoldable pub decompress_bundle : Uncompress → MigrateCalls → Bytes → Bytes → Conn → Migrate
unfolding apply_bundle
decompress_bundle uncompress calls bundle_id blob c =
    if not calls.malloc_buffer
    then ended migrate_err_decompress c
    else elim (uncompress (u64 (length blob * 10)) blob) [
      | none ↦ ended migrate_err_decompress c
      | some buf ↦ apply_bundle calls bundle_id buf c
    ]

-- `overlay_fs_migrate_assets(db, bundle_blob, bundle_len)` on a connection and a blob that are not
-- NULL, with `bundle_len` the blob's length.
unfoldable pub overlay_fs_migrate_assets : Uncompress → MigrateCalls → Bytes → Conn → Migrate
unfolding compute_bundle_id decompress_bundle
overlay_fs_migrate_assets uncompress calls [] c = ended migrate_err_db c
overlay_fs_migrate_assets uncompress calls (b ∷ bs) c =
    if not calls.prepare_check
    then ended migrate_err_db c
    else if calls.step_check
        && select_migration (compute_bundle_id calls.ctx (b ∷ bs)) c.db.migrations
    then ended migrate_err_already_applied c
    else decompress_bundle uncompress calls (compute_bundle_id calls.ctx (b ∷ bs)) (b ∷ bs) c
