-- ===== src/Overlay/Opening.antt =====
-- `overlay_fs_init`, `overlay_fs_check_schema` and `overlay_fs_close` of hbf/db/overlay_fs.c, with the
-- connection that they open and close.
use hbf.Base.{ℕ, ◌≡◌, refl, ◌∙◌, ap, Bool, true, false, not, ◌&&◌, Bytes, codes, leb, if◌then◌else◌}

-- `overlay_fs_check_schema`: whether the statement is prepared and steps to its row, and how many
-- of the two tables it counts.
unfoldable pub overlay_fs_check_schema : Bool → Bool → ℕ → Bool
overlay_fs_check_schema prepare step count =
    if not prepare then false else if not step then false else leb 2 count

-- The answers of SQLite. Where sqlite3_open fails, `partial` says whether it still gives a handle,
-- as it does except without memory. `executes` is whether a statement succeeds.
pub record OpenCalls : Type 0 where
  pub opens : Bool
  pub partial : Bool
  pub executes : Bytes → Bool
  pub prepare_schema : Bool
  pub step_schema : Bool
  pub tables : ℕ

-- Whether the function returns 0, whether `*db` is a handle, and whether a connection is held.
pub record Opening : Type 0 where
  pub ok : Bool
  pub handle : Bool
  pub held : Bool

-- `exec_sql_file`, by whether it returns 0.
unfoldable pub exec_sql_file : OpenCalls → Bytes → Bool
exec_sql_file calls sql = calls.executes sql

-- The label `err`: close the connection.
unfoldable pub err : Opening → Opening
err o = record o { ok = false; handle = false; held = false }

-- From "Enable foreign keys and set pragmas"
unfoldable pub configure : OpenCalls → Opening → Opening
unfolding exec_sql_file err overlay_fs_check_schema
configure calls o =
    if not (exec_sql_file calls (codes "PRAGMA foreign_keys=ON;"))
    then err o
    else if not (exec_sql_file calls (codes "PRAGMA journal_mode=WAL;"))
    then err o
    else if not (exec_sql_file calls (codes "PRAGMA synchronous=NORMAL;"))
    then err o
    else if not (overlay_fs_check_schema calls.prepare_schema calls.step_schema calls.tables)
    then err o
    else record o { ok = true }

-- `overlay_fs_init(db_path, db)`; `given` is whether neither argument is NULL, and `before` whether
-- `*db` was a handle.
unfoldable pub overlay_fs_init : OpenCalls → Bool → Bool → Opening
unfolding configure
overlay_fs_init calls given before =
    if not given
    then (record { ok = false; handle = before; held = false })
    else if not calls.opens
    then (record { ok = false; handle = calls.partial; held = calls.partial })
    else configure calls (record { ok = false; handle = true; held = true })

-- `overlay_fs_close` of `*db`.
unfoldable pub overlay_fs_close : Opening → Opening
overlay_fs_close o = if o.handle then record o { held = false } else o

-- What a caller that closes the handle of a success only leaves open.
unfoldable pub left_open : Opening → Bool
unfolding overlay_fs_close
left_open o = if o.ok then (overlay_fs_close o).held else o.held

-- What a start needs.
unfoldable pub is_ready : OpenCalls → Bool
is_ready calls =
    calls.executes (codes "PRAGMA foreign_keys=ON;")
    && calls.executes (codes "PRAGMA journal_mode=WAL;")
    && calls.executes (codes "PRAGMA synchronous=NORMAL;")
    && calls.prepare_schema
    && calls.step_schema
    && leb 2 calls.tables

abbrev all_or_nothing : Bool → Opening
all_or_nothing b = record { ok = b; handle = b; held = b }

not-if :
    (b : Bool) → (if not b then all_or_nothing false else all_or_nothing true) ≡ all_or_nothing b
not-if true = refl
not-if false = refl

checked :
    (prepare step : Bool) (tables : ℕ)
    → (if not (overlay_fs_check_schema prepare step tables)
        then all_or_nothing false
        else all_or_nothing true)
      ≡ all_or_nothing (prepare && step && leb 2 tables)
unfolding overlay_fs_check_schema
checked false step tables = refl
checked true false tables = refl
checked true true tables = not-if (leb 2 tables)

configured :
    (calls : OpenCalls) (foreign_keys journal_mode synchronous : Bool)
    → calls.executes (codes "PRAGMA foreign_keys=ON;") ≡ foreign_keys
    → calls.executes (codes "PRAGMA journal_mode=WAL;") ≡ journal_mode
    → calls.executes (codes "PRAGMA synchronous=NORMAL;") ≡ synchronous
    → configure calls (record { ok = false; handle = true; held = true })
      ≡ all_or_nothing (is_ready calls)
unfolding configure is_ready exec_sql_file err
configured calls false j s ef ej es = rw ef refl
configured calls true false s ef ej es = rw (ef, ej) refl
configured calls true true false ef ej es = rw (ef, ej, es) refl
configured calls true true true ef ej es =
    rw (ef, ej, es) (checked calls.prepare_schema calls.step_schema calls.tables)

left_open-all_or_nothing : (b : Bool) → left_open (all_or_nothing b) ≡ false
unfolding left_open overlay_fs_close
left_open-all_or_nothing true = refl
left_open-all_or_nothing false = refl

-- Whether a start succeeds and what it leaves open, by whether sqlite3_open succeeds.
start_lem :
    (opens partial ready : Bool) (o : Opening)
    → o ≡ all_or_nothing ready
    → let started =
        if not opens then (record { ok = false; handle = partial; held = partial }) else o in
      (started.ok ≡ (opens && ready)) × (left_open started ≡ (not opens && partial))
unfolding left_open
start_lem true partial ready o e =
    (ap (λ (p : Opening). p.ok) e, ap left_open e ∙ left_open-all_or_nothing ready)
start_lem false partial ready o e = (refl, refl)

-- The start applies no schema: it succeeds exactly where both arguments are given, the database
-- opens, the three PRAGMA statements are executed and both tables are found there already; overlay_fs_close then closes it. Where it
-- fails, nothing is left open, except where sqlite3_open itself fails and gives a handle, which
-- stays open.
pub overlay_fs_init_lem :
    (calls : OpenCalls) (given before : Bool)
    → ((overlay_fs_init calls given before).ok ≡ (given && calls.opens && is_ready calls))
      × (left_open (overlay_fs_init calls given before)
          ≡ (given && (not calls.opens && calls.partial)))
unfolding left_open overlay_fs_init
overlay_fs_init_lem calls false before = (refl, refl)
overlay_fs_init_lem calls true before =
    start_lem calls.opens calls.partial (is_ready calls) _ (configured calls _ _ _ refl refl refl)
