-- ===== src/Overlay/Effects.antt =====
-- What one insertion into the tables does: the version that is added, and the file id.
use hbf.Base.{
  ◌∙◌, bytes_eq_refl, ℕ, ◌+◌, ◌≡◌, refl, none, some, Option-cases, inl, inr, ◌∷◌, Bytes, length,
  bytes_eq, bytes_eq_iff, arith, if◌then◌else◌,
}
use hbf.Overlay.Schema.{
  count_versions, insert_file_id, Version, Db, select_file_id, max_version, meta_of, upsert_meta,
  newest_version,
}
use hbf.Overlay.Read.{select_newest}
use hbf.Overlay.History.{
  IsFiled, IsConsistent, select_meta, optional_meta, newest_version-is_max, newest_version-cons,
  select_meta-upsert_meta, select_file_id_inj,
}
use hbf.Overlay.Tables.{
  count_ids_lem, count_versions-eq-max_version, IsHistory-cons_id, max_version_fresh,
}

-- One version of `path` with `content` has been added on top of the unchanged history.
pub record IsWritten (path content : Bytes) (before after : Db) : Type 0 where
  pub consistent : IsConsistent after
  pub row : Version
  pub versions : after.file_versions ≡ row ∷ before.file_versions
  pub at_path : row.path ≡ path
  pub with_content : row.content ≡ content
  pub known : select_file_id path after.file_ids ≡ some row.file_id
  pub newest :
      (q : Bytes)
      → select_newest q after ≡ (if bytes_eq path q then some row else select_newest q before)
  pub counts :
      (q : Bytes)
      → count_versions q after.file_ids after.file_versions
        ≡ count_versions q before.file_ids before.file_versions + (if bytes_eq path q then 1 else 0)
  pub same_migrations : after.migrations ≡ before.migrations

-- No version has been added, and every path reads as before.
pub record IsUnwritten (before after : Db) : Type 0 where
  pub consistent : IsConsistent after
  pub versions : after.file_versions ≡ before.file_versions
  pub newest : (q : Bytes) → select_newest q after ≡ select_newest q before
  pub counts :
      (q : Bytes)
      → count_versions q after.file_ids after.file_versions
        ≡ count_versions q before.file_ids before.file_versions
  pub same_migrations : after.migrations ≡ before.migrations

pub IsUnwritten-refl : (db : Db) → IsConsistent db → IsUnwritten db db
IsUnwritten-refl db h = record {
  consistent = h;
  versions = refl;
  newest = λ q. refl;
  counts = λ q. refl;
  same_migrations = refl;
}

-- The database after the version has been inserted.
abbrev pub appended : Version → Db → Db
appended v db = record db {
  file_versions = v ∷ db.file_versions;
  latest_files_meta = upsert_meta (meta_of v) db.latest_files_meta;
}

module _ (v : Version) (db : Db) (h : IsConsistent db)
    (known : select_file_id v.path db.file_ids ≡ some v.file_id)
    (number : v.version_number ≡ max_version v.file_id db.file_versions + 1)
    (size : v.size ≡ length v.content) where
  appended-in_sync :
      (id : ℕ)
      → select_meta id (appended v db).latest_files_meta
        ≡ optional_meta (newest_version id (appended v db).file_versions)
  unfolding meta_of
  appended-in_sync id = elim (Option-cases (newest_version id db.file_versions)) [
    | inl n ↦ ground (
      arith,
      h.in_sync id,
      select_meta-upsert_meta (meta_of v) db.latest_files_meta id,
      newest_version-cons v db.file_versions id number,
    )
    | inr (w, n) ↦ ground (
      arith,
      h.in_sync id,
      newest_version-is_max id db.file_versions w n,
      select_meta-upsert_meta (meta_of v) db.latest_files_meta id,
      newest_version-cons v db.file_versions id number,
    )
  ]

  appended-IsConsistent : IsConsistent (appended v db)
  appended-IsConsistent = record {
    filed = h.filed;
    history = (known, number, size, h.history);
    in_sync = appended-in_sync;
  }

  appended-newest :
      (q : Bytes)
      → select_newest q (appended v db) ≡ (if bytes_eq v.path q then some v else select_newest q db)
  unfolding select_newest
  appended-newest q = elim (Option-cases (select_file_id q db.file_ids)) [
    | inl n ↦ ground (arith, bytes_eq_iff v.path q)
    | inr (id, n) ↦ ground (
      arith,
      bytes_eq_iff v.path q,
      newest_version-cons v db.file_versions id number,
      select_file_id_inj db.next_id db.file_ids v.path q v.file_id h.filed,
    )
  ]

  appended-counts :
      (q : Bytes)
      → count_versions q db.file_ids (v ∷ db.file_versions)
        ≡ count_versions q db.file_ids db.file_versions + (if bytes_eq v.path q then 1 else 0)
  unfolding count_versions
  appended-counts q = ground (
    arith,
    bytes_eq_iff v.path q,
    count_ids_lem db.next_id db.file_ids q v.file_id h.filed,
    select_file_id_inj db.next_id db.file_ids v.path q v.file_id h.filed,
  )

  pub appended-IsWritten : IsWritten v.path v.content db (appended v db)
  appended-IsWritten = record {
    consistent = appended-IsConsistent;
    row = v;
    versions = refl;
    at_path = refl;
    with_content = refl;
    known = known;
    newest = appended-newest;
    counts = appended-counts;
    same_migrations = refl;
  }

-- The database with a file id for a new path.
abbrev pub registered : Bytes → Db → Db
registered path db = record db {
  file_ids = record { file_id = db.next_id; path = path } ∷ db.file_ids;
  next_id = db.next_id + 1;
}

module _ (path : Bytes) (db : Db) (h : IsConsistent db)
    (fresh : select_file_id path db.file_ids ≡ none) where
  pub registered-IsUnwritten : IsUnwritten db (registered path db)
  registered-IsUnwritten = record {
    consistent = record {
      filed = (omega arith, fresh, h.filed);
      history = IsHistory-cons_id _ db.file_ids db.file_versions fresh h.history;
      in_sync = h.in_sync;
    };
    versions = refl;
    newest = λ q. reads q;
    counts = λ q. same_count q;
    same_migrations = refl;
  }
    where
      reads : (q : Bytes) → select_newest q (registered path db) ≡ select_newest q db
      reads q =
          unfold select_newest select_file_id in
          ground (
            arith,
            bytes_eq_iff path q,
            fresh,
            max_version_fresh db.next_id db.file_ids db.file_versions db.next_id h.filed h.history,
          )

      consistent-filed : IsFiled (db.next_id + 1) (registered path db).file_ids
      consistent-filed = (omega arith, fresh, h.filed)

      same_count :
          (q : Bytes)
          → count_versions q (registered path db).file_ids db.file_versions
            ≡ count_versions q db.file_ids db.file_versions
      same_count q =
          unfold select_file_id in
          ground (
            arith,
            bytes_eq_iff path q,
            fresh,
            count_versions-eq-max_version (db.next_id + 1) (registered path db).file_ids q
                db.file_versions consistent-filed
                (IsHistory-cons_id _ db.file_ids db.file_versions fresh h.history),
            count_versions-eq-max_version db.next_id db.file_ids q db.file_versions h.filed
                h.history,
            max_version_fresh db.next_id db.file_ids db.file_versions db.next_id h.filed h.history,
          )

  pub registered-known : select_file_id path (registered path db).file_ids ≡ some db.next_id
  unfolding select_file_id
  registered-known = rw (bytes_eq_refl path)

pub IsWritten-after :
    (path content : Bytes) (db mid after : Db)
    → IsUnwritten db mid
    → IsWritten path content mid after
    → IsWritten path content db after
IsWritten-after path content db mid after u w = record {
  consistent = w.consistent;
  row = w.row;
  versions = rw u.versions at w.versions;
  at_path = w.at_path;
  with_content = w.with_content;
  known = w.known;
  newest = λ q. rw (u.newest q) at (w.newest q);
  counts = λ q. rw (u.counts q) at (w.counts q);
  same_migrations = w.same_migrations ∙ u.same_migrations;
}

pub IsUnwritten-trans :
    (db mid after : Db) → IsUnwritten db mid → IsUnwritten mid after → IsUnwritten db after
IsUnwritten-trans db mid after u w = record {
  consistent = w.consistent;
  versions = w.versions ∙ u.versions;
  newest = λ q. w.newest q ∙ u.newest q;
  counts = λ q. w.counts q ∙ u.counts q;
  same_migrations = w.same_migrations ∙ u.same_migrations;
}

pub insert_file_id_inv :
    (path : Bytes) (db db' : Db)
    → insert_file_id path db ≡ some db'
    → (select_file_id path db.file_ids ≡ none) × (db' ≡ registered path db)
unfolding insert_file_id
insert_file_id_inv path db db' e = elim (Option-cases (select_file_id path db.file_ids)) [
  | inl n ↦ ground arith
  | inr (i, n) ↦ ground arith
]
