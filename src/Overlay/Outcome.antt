-- ===== src/Overlay/Outcome.antt =====
-- What a write does, on every combination of call outcomes.
use mathlib.Core.Path.{subst}
use hbf.Base.{sym}
use hbf.Base.{
  ltb, not, ℕ, ◌+◌, ◌≡◌, refl, ◌⊎◌, Bool, true, false, Option, none, some, inl, inr, Bytes, length,
  arith, if◌then◌else◌,
}
use hbf.Overlay.Schema.{insert_file_id, Version, Db, select_file_id, max_version, insert_version}
use hbf.Overlay.Write.{
  write_file, write_next, write_new, int_max, Write, WriteCalls, done, failed, rejected, wrapped,
  write_version,
}
use hbf.Overlay.History.{IsConsistent}
use hbf.Overlay.Tables.{max_version_fresh, has_version-le, has_version_one}
use hbf.Overlay.Effects.{
  registered-known, IsUnwritten-trans, IsWritten-after, registered-IsUnwritten, insert_file_id_inv,
  IsUnwritten-refl, appended-IsWritten, IsWritten, IsUnwritten, appended, registered,
}

-- `P` of the database after a completed write, `Q` of the one after a failed write.
pub data Ends (P Q : Db → Type 0) : Write → Type 0 where
  on_done : {db : Db} → P db → Ends P Q (done db)
  on_failed : {db : Db} → Q db → Ends P Q (failed db)
  on_rejected : Ends P Q rejected
  on_wrapped : Ends P Q wrapped

pub Ends-done : {P Q : Db → Type 0} {db : Db} → Ends P Q (done db) → P db
Ends-done (on_done h) = h

pub Ends-failed : {P Q : Db → Type 0} {db : Db} → Ends P Q (failed db) → Q db
Ends-failed (on_failed h) = h

-- The row that a write inserts.
abbrev row_of : ℕ → Bytes → Bytes → ℕ → ℕ → Version
row_of now path content id n = record {
  file_id = id;
  path = path;
  version_number = n;
  mtime = now;
  size = length content;
  content = content;
}

-- Version 1 of a file that has versions is refused by the primary key.
insert_version_cases :
    (v : Version) (db : Db)
    → IsConsistent db
    → (v.version_number ≡ max_version v.file_id db.file_versions + 1) ⊎ (v.version_number ≡ 1)
    → (insert_version v db ≡ none)
      ⊎ ((insert_version v db ≡ some (appended v db))
          × (v.version_number ≡ max_version v.file_id db.file_versions + 1))
unfolding insert_version
insert_version_cases v db h (inl next) =
    ground (arith, next, has_version-le v.file_id v.version_number db.file_versions)
insert_version_cases v db h (inr one) =
    ground (arith, one, has_version_one db.file_ids db.file_versions v.file_id h.history)

module _ {P Q : Db → Type 0} where
  pub Ends-if : (b : Bool) {m n : Write} → Ends P Q m → Ends P Q n → Ends P Q (if b then m else n)
  Ends-if true hm hn = hm
  Ends-if false hm hn = hn

  Ends-insert :
      (o : Option Db) (b : Bool) (db : Db)
      → Q db
      → ((db' : Db) → o ≡ some db' → P db')
      → Ends P Q (elim o [ none ↦ failed db | some db' ↦ if b then done db' else failed db ])
  Ends-insert none b db q p = on_failed q
  Ends-insert (some db') b db q p = Ends-if b (on_done (p db' refl)) (on_failed q)

  Ends-weaken :
      {P' Q' : Db → Type 0} {w : Write}
      → ((db : Db) → P' db → P db)
      → ((db : Db) → Q' db → Q db)
      → Ends P' Q' w
      → Ends P Q w
  Ends-weaken p q (on_done {db} h) = on_done (p db h)
  Ends-weaken p q (on_failed {db} h) = on_failed (q db h)
  Ends-weaken p q on_rejected = on_rejected
  Ends-weaken p q on_wrapped = on_wrapped

inserted-IsWritten :
    (now : ℕ) (path content : Bytes) (id n : ℕ) (db db' : Db)
    → IsConsistent db
    → select_file_id path db.file_ids ≡ some id
    → (n ≡ max_version id db.file_versions + 1) ⊎ (n ≡ 1)
    → insert_version (row_of now path content id n) db ≡ some db'
    → IsWritten path content db db'
inserted-IsWritten now path content id n db db' h known number e =
    elim (insert_version_cases (row_of now path content id n) db h number) [
      | inl refused ↦ cc
      | inr (inserted, next) ↦
          let written = appended-IsWritten (row_of now path content id n) db h known next refl in
          let same : appended (row_of now path content id n) db ≡ db' = cc in rw same at written
    ]

pub write_version-Ends :
    (calls : WriteCalls) (now : ℕ) (path content : Bytes) (id n : ℕ) (db : Db)
    → IsConsistent db
    → select_file_id path db.file_ids ≡ some id
    → (n ≡ max_version id db.file_versions + 1) ⊎ (n ≡ 1)
    → Ends
        (IsWritten path content db)
        (IsUnwritten db)
        (write_version calls now path content id n db)
unfolding write_version
write_version-Ends calls now path content id n db h known number =
    let unwritten = on_failed (IsUnwritten-refl db h) in
    Ends-if (not calls.prepare_insert) unwritten (
      Ends-if (ltb int_max (length content)) on_wrapped (
        Ends-insert (insert_version (row_of now path content id n) db) calls.step_insert db
          (IsUnwritten-refl db h)
          (λ db' e. inserted-IsWritten now path content id n db db' h known number e)))

write_new-Ends :
    (calls : WriteCalls) (now : ℕ) (path content : Bytes) (db : Db)
    → IsConsistent db
    → Ends (IsWritten path content db) (IsUnwritten db) (write_new calls now path content db)
unfolding write_new
write_new-Ends calls now path content db h =
    Ends-if (not calls.prepare_insert_id) (on_failed (IsUnwritten-refl db h))
      (with_id (insert_file_id path db) refl)
  where
    with_id :
        (o : Option Db)
        → insert_file_id path db ≡ o
        → Ends (IsWritten path content db) (IsUnwritten db) (elim o [
          | none ↦ failed db
          | some db' ↦
              if not calls.step_insert_id
              then failed db
              else if ltb int_max db.next_id
              then wrapped
              else write_version calls now path content db.next_id 1 db'
        ])
    with_id none e = on_failed (IsUnwritten-refl db h)
    with_id (some db') e =
        let (fresh, same) = insert_file_id_inv path db db' e in
        let u = registered-IsUnwritten path db h fresh in
        let number =
          max_version_fresh db.next_id db.file_ids db.file_versions db.next_id h.filed h.history in
        Ends-if (not calls.step_insert_id) (on_failed (IsUnwritten-refl db h)) (
          Ends-if (ltb int_max db.next_id) on_wrapped (
            subst
              (λ d.
                Ends (IsWritten path content db) (IsUnwritten db)
                  (write_version calls now path content db.next_id 1 d))
              (sym same)
              (Ends-weaken (λ after. IsWritten-after path content db (registered path db) after u)
                (λ after. IsUnwritten-trans db (registered path db) after u)
                (write_version-Ends calls now path content db.next_id 1 (registered path db)
                  u.consistent (registered-known path db h fresh) (inr refl)))))

write_next-Ends :
    (calls : WriteCalls) (now : ℕ) (path content : Bytes) (id : ℕ) (db : Db)
    → IsConsistent db
    → select_file_id path db.file_ids ≡ some id
    → Ends (IsWritten path content db) (IsUnwritten db) (write_next calls now path content id db)
unfolding write_next
write_next-Ends calls now path content id db h known =
    let next = max_version id db.file_versions + 1 in
    Ends-if (not calls.prepare_get_version) (on_failed (IsUnwritten-refl db h)) (
      Ends-if (not calls.step_get_version)
        (write_version-Ends calls now path content id 1 db h known (inr refl))
        (Ends-if (ltb int_max next) on_wrapped
          (write_version-Ends calls now path content id next db h known (inl refl))))

-- Whatever SQLite answers at each call, a completed write adds one version of its path, with its
-- content, and a failed write leaves every version; the tables stay consistent either way.
pub write_file-Ends :
    (calls : WriteCalls) (now : ℕ) (path content : Bytes) (db : Db)
    → IsConsistent db
    → Ends (IsWritten path content db) (IsUnwritten db) (write_file calls now path content db)
unfolding write_file
write_file-Ends calls now path content db h =
    Ends-if (not calls.prepare_get_id) (on_failed (IsUnwritten-refl db h)) (
      by_id (if calls.step_get_id then select_file_id path db.file_ids else none)
        (λ id. found_id id))
  where
    found_id :
        (id : ℕ)
        → (if calls.step_get_id then select_file_id path db.file_ids else none) ≡ some id
        → select_file_id path db.file_ids ≡ some id
    found_id id e = ground arith

    by_id :
        (o : Option ℕ)
        → ((id : ℕ) → o ≡ some id → select_file_id path db.file_ids ≡ some id)
        → Ends (IsWritten path content db) (IsUnwritten db) (elim o [
          | none ↦ write_new calls now path content db
          | some id ↦ if ltb int_max id then wrapped else write_next calls now path content id db
        ])
    by_id none known = write_new-Ends calls now path content db h
    by_id (some id) known =
        Ends-if (ltb int_max id) on_wrapped
          (write_next-Ends calls now path content id db h (known id refl))
