-- ===== src/DbRead.antt =====
-- The reads of hbf/db/db.c from the view `latest_files`.
pub mod Agrees
use hbf.Base.{ℕ, Bool, true, false, not, Option, none, some, Bytes, length, ◌==◌, if◌then◌else◌}
use hbf.Overlay.Schema.{Db, Version}
use hbf.Overlay.Read.{Read, found, missing, select_latest}

-- Whether each call succeeds, where sqlite3_step does without an error.
pub record DbReadCalls : Type 0 where
  pub prepare : Bool
  pub bind : Bool
  pub step : Bool
  pub malloc : Bool

-- What happens to the row: an empty blob gives a NULL buffer of size 0.
unfoldable pub copy_data : DbReadCalls → Option Version → Read
copy_data calls none = missing
copy_data calls (some v) =
    if length v.content == 0
    then found none 0
    else if not calls.malloc
    then missing
    else found (some v.content) (length v.content)

-- `hbf_db_read_file_from_main(db, path, data, size)`; `outputs` says that neither output is NULL.
unfoldable pub hbf_db_read_file_from_main : DbReadCalls → Option Db → Option Bytes → Bool → Read
unfolding copy_data select_latest
hbf_db_read_file_from_main calls none path outputs = missing
hbf_db_read_file_from_main calls (some db) none outputs = missing
hbf_db_read_file_from_main calls (some db) (some path) outputs =
    if not outputs
    then missing
    else if not calls.prepare
    then missing
    else if not calls.bind
    then missing
    else if not calls.step
    then missing
    else copy_data calls (select_latest path db)

-- `hbf_db_read_file(db, path, use_overlay, data, size)`
unfoldable pub hbf_db_read_file : DbReadCalls → Option Db → Option Bytes → Bool → Bool → Read
unfolding copy_data select_latest
hbf_db_read_file calls none path use_overlay outputs = missing
hbf_db_read_file calls (some db) none use_overlay outputs = missing
hbf_db_read_file calls (some db) (some path) use_overlay outputs =
    if not outputs
    then missing
    else if not calls.prepare
    then missing
    else if not calls.bind
    then missing
    else if not calls.step
    then missing
    else copy_data calls (select_latest path db)

-- `hbf_db_file_exists_in_main(db, path)`; `none` is the -1. A step that fails counts as no row.
unfoldable pub hbf_db_file_exists_in_main : DbReadCalls → Option Db → Option Bytes → Option Bool
unfolding select_latest
hbf_db_file_exists_in_main calls none path = none
hbf_db_file_exists_in_main calls (some db) none = none
hbf_db_file_exists_in_main calls (some db) (some path) =
    if not calls.prepare
    then none
    else if not calls.bind
    then none
    else if not calls.step
    then some false
    else elim (select_latest path db) [ none ↦ some false | some v ↦ some true ]
