-- ===== src/Migrate/Runs.antt =====
-- The migration's loop as a run of writes.
use mathlib.Core.Path.{subst}
use hbf.Base.{
  arith, sym, ◌∙◌, Option, ℕ, zero, suc, ◌≡◌, refl, none, some, [], ◌∷◌, List, Bytes, length,
  take-length, c_str,
}
use hbf.Overlay.Schema.{Db}
use hbf.Overlay.Write.{Write, done}
use hbf.Overlay.Runs
use hbf.Overlay.Runs.{Event, Step, Run, start, then_step, writes, completed}
use hbf.Migrate.{
  migrate_err_corrupt, MigrateCalls, Entry, Loop, wrote, stopped, overflowed, read_entry,
  migrate_entry, migrate_entries,
}
use hbf.Migrate.Merged.{after_write, migrate_entry_lem}

after_write_inv :
    (calls : MigrateCalls) (i : ℕ) (e : Entry) (db db' : Db) (w : Write)
    → after_write calls i e db w ≡ wrote db'
    → w ≡ done db'
after_write_inv calls i e db db' w h = ground arith

-- An iteration before a loop that goes through has written.
next_inv :
    (rest : Db → Loop) (db' : Db) (l : Loop)
    → (elim l [
      | wrote db ↦ rest db
      | stopped status db ↦ stopped status db
      | overflowed ↦ overflowed
    ])
      ≡ wrote db'
    → (mid : Db) × (l ≡ wrote mid) × (rest mid ≡ wrote db')
next_inv rest db' (wrote mid) h = (mid, refl, h)
next_inv rest db' (stopped status db) h = absurd cc
next_inv rest db' overflowed h = absurd cc

reads_inv :
    (k : Entry → Bytes → Loop) (db db' : Db) (o : Option (Entry × Bytes))
    → (elim o [ none ↦ stopped migrate_err_corrupt db | some (e, rest) ↦ k e rest ]) ≡ wrote db'
    → (e : Entry) × (rest : Bytes) × (o ≡ some (e, rest)) × (k e rest ≡ wrote db')
reads_inv k db db' none h = absurd cc
reads_inv k db db' (some (e, rest)) h = (e, rest, refl, h)

-- The first `n` entries of the bytes behind the count; `none` where one is truncated.
unfoldable pub parse_entries : ℕ → Bytes → Option (List Entry)
parse_entries zero buf = some []
parse_entries (suc n) buf = elim (read_entry buf) [
  | none ↦ none
  | some (e, rest) ↦ elim (parse_entries n rest) [ none ↦ none | some es ↦ some (e ∷ es) ]
]

parse_entries-suc :
    (n : ℕ) (buf rest : Bytes) (e : Entry) (es : List Entry)
    → read_entry buf ≡ some (e, rest)
    → parse_entries n rest ≡ some es
    → parse_entries (suc n) buf ≡ some (e ∷ es)
unfolding parse_entries
parse_entries-suc n buf rest e es h hs = rw (h, hs, parse_entries) refl

-- The completed writes of entries, in their order.
unfoldable pub events_of : List Entry → List Event
events_of [] = []
events_of (e ∷ es) = Runs.wrote (c_str e.name) e.content ∷ events_of es

-- A loop that goes through has parsed all entries and is a run of completed writes, one for each.
pub migrate_entries-Run :
    (calls : MigrateCalls) (i n : ℕ) (buf : Bytes) (db db' : Db)
    → migrate_entries calls i n buf db ≡ wrote db'
    → (es : List Entry) × (parse_entries n buf ≡ some es) × Run db (events_of es) db'
unfolding migrate_entries events_of
migrate_entries-Run calls i zero buf db db' h =
    ([], unfold parse_entries in refl, subst (Run db []) (cc) (start db))
migrate_entries-Run calls i (suc n) buf db db' h =
    let (e, rest, reads, entered) = reads_inv _ db db' (read_entry buf) h in
    let (mid, iterates, loops) =
      next_inv (migrate_entries calls (suc i) n rest) db' (migrate_entry calls i e db) entered in
    let (es, parses, run) = migrate_entries-Run calls (suc i) n rest mid db' loops in
    (
      e ∷ es,
      parse_entries-suc n buf rest e es reads parses,
      then_step
          (subst (λ content. Step db (Runs.wrote (c_str e.name) content) mid)
            (take-length e.content)
            (writes (calls.writes i) (calls.now i) (c_str e.name) (some e.content)
              (length e.content)
              (after_write_inv calls i e db mid _
                (sym (migrate_entry_lem calls i e db) ∙ iterates))))
          run,
    )
