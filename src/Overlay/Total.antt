-- ===== src/Overlay/Total.antt =====
-- When a write completes, what a failed write leaves, and what existing means.
use hbf.Base.{
  refl, ◌∙◌, ℕ, ◌+◌, ◌≤◌, ◌<◌, ◌≡◌, true, false, none, some, Bytes, length, take, arith, ltb,
  ge→ltb, Option-cases, inl, inr,
}
use hbf.Overlay.Schema.{
  Db, Version, select_file_id, insert_file_id, insert_version, max_version, count_versions,
}
use hbf.Overlay.Write.{
  WriteCalls, done, failed, int_max, write_file, write_new, write_next, write_version,
  overlay_fs_write,
}
use hbf.Overlay.Read.{
  select_newest, missing, overlay_fs_read, overlay_fs_exists, overlay_fs_version_count,
}
use hbf.Overlay.History.{IsConsistent, select_file_id-lt}
use hbf.Overlay.Tables.{has_version-le, max_version_fresh, count_versions-eq-max_version}
use hbf.Overlay.Effects.{
  appended, registered, registered-known, registered-IsUnwritten, IsUnwritten,
}
use native.Mathlib.Nat.{le_refl}
use hbf.Overlay.ReadBack.{all_calls, read_calls}

-- A version above the maximum is inserted.
insert_version_above :
    (v : Version) (db : Db)
    → max_version v.file_id db.file_versions < v.version_number
    → (db' : Db) × (insert_version v db ≡ some db') × (db'.next_id ≡ db.next_id)
insert_version_above v db h = (
  appended v db,
  unfold insert_version in
      ground (arith, has_version-le v.file_id v.version_number db.file_versions),
  refl,
)

write_version_total :
    (now : ℕ) (path content : Bytes) (id n : ℕ) (db : Db)
    → length content ≤ int_max
    → max_version id db.file_versions < n
    → (db' : Db) × (write_version all_calls now path content id n db ≡ done db')
      × (db'.next_id ≡ db.next_id)
unfolding write_version
write_version_total now path content id n db fits above =
    let (db', e, same) =
      insert_version_above
        (record {
          file_id = id;
          path = path;
          version_number = n;
          mtime = now;
          size = length content;
          content = content;
        })
        db above in
    (db', rw (ge→ltb _ _ fits, e), same)

insert_file_id_fresh :
    (path : Bytes) (db : Db)
    → select_file_id path db.file_ids ≡ none
    → insert_file_id path db ≡ some (registered path db)
unfolding insert_file_id
insert_file_id_fresh path db n = rw (n, insert_file_id)

write_new_step :
    (now : ℕ) (path content : Bytes) (db : Db)
    → select_file_id path db.file_ids ≡ none
    → db.next_id ≤ int_max
    → write_new all_calls now path content db
      ≡ write_version all_calls now path content db.next_id 1 (registered path db)
unfolding write_new
write_new_step now path content db n ids = rw (insert_file_id_fresh path db n, ge→ltb _ _ ids)

write_next_step :
    (now : ℕ) (path content : Bytes) (id : ℕ) (db : Db)
    → max_version id db.file_versions < int_max
    → write_next all_calls now path content id db
      ≡ write_version all_calls now path content id (max_version id db.file_versions + 1) db
unfolding write_next
write_next_step now path content id db below =
    let small : ltb int_max (max_version id db.file_versions + 1) ≡ false =
      ge→ltb _ _ (omega arith) in
    rw small

write_file_total :
    (now : ℕ) (path content : Bytes) (db : Db)
    → IsConsistent db
    → length content ≤ int_max
    → db.next_id ≤ int_max
    → count_versions path db.file_ids db.file_versions < int_max
    → (db' : Db) × (write_file all_calls now path content db ≡ done db')
      × (db'.next_id ≤ db.next_id + 1)
write_file_total now path content db h fits ids versions =
    elim (Option-cases (select_file_id path db.file_ids)) [
      | inl n ↦
          let (none_yet, _) =
            max_version_fresh db.next_id db.file_ids db.file_versions db.next_id h.filed h.history
              (le_refl _) in
          let (db', e, same) =
            write_version_total now path content db.next_id 1 (registered path db) fits
              (omega arith) in
          (db', create n ∙ write_new_step now path content db n ids ∙ e, omega (arith, same))
      | inr (id, n) ↦
          let room : max_version id db.file_versions < int_max = ground (arith, counted, n) in
          let (db', e, same) =
            write_version_total now path content id (max_version id db.file_versions + 1) db fits
              (omega arith) in
          (db', reuse id n ∙ write_next_step now path content id db room ∙ e, omega (arith, same))
    ]
  where
    counted :
        count_versions path db.file_ids db.file_versions ≡ (elim (select_file_id path db.file_ids) [
          | none ↦ 0
          | some id ↦ max_version id db.file_versions
        ])
    counted =
        count_versions-eq-max_version db.next_id db.file_ids path db.file_versions h.filed h.history

    create :
        select_file_id path db.file_ids ≡ none
        → write_file all_calls now path content db ≡ write_new all_calls now path content db
    create n = unfold write_file in rw n

    reuse :
        (id : ℕ)
        → select_file_id path db.file_ids ≡ some id
        → write_file all_calls now path content db ≡ write_next all_calls now path content id db
    reuse id n =
        let small : ltb int_max id ≡ false =
          ge→ltb _ _ (omega (arith, select_file_id-lt db.next_id db.file_ids path id h.filed n)) in
        unfold write_file in rw (n, small)

-- A write with a non-NULL path and a buffer whose bytes, row id and version number fit an `int`
-- completes whenever every call of SQLite succeeds, and uses up at most one row id.
pub overlay_fs_write_total :
    (now : ℕ) (db : Db) (path buffer : Bytes) (size : ℕ)
    → IsConsistent db
    → length (take size buffer) ≤ int_max
    → db.next_id ≤ int_max
    → count_versions path db.file_ids db.file_versions < int_max
    → (db' : Db) × (overlay_fs_write all_calls now (some db) (some path) (some buffer) size
        ≡ done db')
      × (db'.next_id ≤ db.next_id + 1)
unfolding overlay_fs_write
overlay_fs_write_total now db path buffer size h fits ids versions =
    write_file_total now path (take size buffer) db h fits ids versions

-- The runs in which only the step of the last statement fails.
abbrev pub last_step_fails : WriteCalls
last_step_fails = record all_calls { step_insert = false }

-- A write of a new path whose last statement fails leaves a file that exists and cannot be read:
-- its file id stays, with no version.
pub overlay_fs_exists_without_version :
    (now : ℕ) (db : Db) (path buffer : Bytes) (size : ℕ)
    → IsConsistent db
    → select_file_id path db.file_ids ≡ none
    → length (take size buffer) ≤ int_max
    → db.next_id ≤ int_max
    → (db' : Db) × (overlay_fs_write last_step_fails now (some db) (some path) (some buffer) size
        ≡ failed db')
      × (overlay_fs_exists read_calls (some db') (some path) ≡ some true)
      × (overlay_fs_version_count read_calls (some db') (some path) ≡ some 0)
      × (overlay_fs_read read_calls (some db') (some path) true ≡ missing)
overlay_fs_exists_without_version now db path buffer size h n fits ids = (
  registered path db,
  unfold overlay_fs_write in ground (arith, n, insert_file_id_fresh path db n),
  unfold overlay_fs_exists in rw (registered-known path db h n),
  unfold overlay_fs_version_count in
      ground (
        arith,
        n,
        left.counts path,
        count_versions-eq-max_version db.next_id db.file_ids path db.file_versions h.filed
            h.history,
      ),
  unfold overlay_fs_read select_newest in ground (arith, n, left.newest path),
)
  where
    left : IsUnwritten db (registered path db)
    left = registered-IsUnwritten path db h n
