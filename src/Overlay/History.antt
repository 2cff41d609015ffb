-- ===== src/Overlay/History.antt =====
-- The well-formedness of the tables, and what the statements give on well-formed tables.
use hbf.Base.{
  ℕ, ◌+◌, ◌<◌, ◌≡◌, refl, Option, none, some, Option-cases, inl, inr, List, [], ◌∷◌, Bytes, length,
  bytes_eq_iff, arith, ◌==◌, leb, if◌then◌else◌,
}
use hbf.Overlay.Schema.{
  empty_db, FileId, Version, Meta, Db, select_file_id, max_version, meta_of, upsert_meta,
  newest_version,
}

-- Row ids fall below `next`, strictly down the table, and no path stands twice.
abbrev pub IsFiled : ℕ → List FileId → Type 0
IsFiled next [] = Unit {0}
IsFiled next (f ∷ fs) =
    (f.file_id < next) × (select_file_id f.path fs ≡ none) × IsFiled f.file_id fs

-- Every version belongs to its path's file id, has the number after those before it, and records
-- the size of its content.
abbrev pub IsHistory : List FileId → List Version → Type 0
IsHistory fs [] = Unit {0}
IsHistory fs (v ∷ vs) =
    (select_file_id v.path fs ≡ some v.file_id)
    × (v.version_number ≡ max_version v.file_id vs + 1)
    × (v.size ≡ length v.content)
    × IsHistory fs vs

-- The row of `latest_files_meta` with a given primary key.
unfoldable pub select_meta : ℕ → List Meta → Option Meta
select_meta id [] = none
select_meta id (m ∷ ms) = if m.file_id == id then some m else select_meta id ms

abbrev pub optional_meta : Option Version → Option Meta
optional_meta none = none
optional_meta (some v) = some (meta_of v)

-- The schema's promise: the materialised table holds the metadata of each file's newest version.
pub record IsConsistent (db : Db) : Type 0 where
  pub filed : IsFiled db.next_id db.file_ids
  pub history : IsHistory db.file_ids db.file_versions
  pub in_sync :
      (id : ℕ)
      → select_meta id db.latest_files_meta ≡ optional_meta (newest_version id db.file_versions)

pub empty_db-IsConsistent : IsConsistent empty_db
unfolding select_meta newest_version
empty_db-IsConsistent = record { filed = tt; history = tt; in_sync = λ id. refl }

pub select_file_id-lt :
    (next : ℕ) (fs : List FileId) (path : Bytes) (id : ℕ)
    → IsFiled next fs
    → select_file_id path fs ≡ some id
    → id < next
unfolding select_file_id
select_file_id-lt next [] path id h e = cc
select_file_id-lt next (f ∷ fs) path id h e = ground (arith, select_file_id-lt f.file_id fs path id)

-- Two paths with one file id are the same path.
pub select_file_id_inj :
    (next : ℕ) (fs : List FileId) (p q : Bytes) (id : ℕ)
    → IsFiled next fs
    → select_file_id p fs ≡ some id
    → select_file_id q fs ≡ some id
    → p ≡ q
unfolding select_file_id
select_file_id_inj next [] p q id h d e = cc
select_file_id_inj next (f ∷ fs) p q id h d e = ground (
  arith,
  bytes_eq_iff f.path p,
  bytes_eq_iff f.path q,
  select_file_id-lt f.file_id fs p id,
  select_file_id-lt f.file_id fs q id,
  select_file_id_inj f.file_id fs p q id,
)

pub max_version-newest_none :
    (id : ℕ) (vs : List Version) → newest_version id vs ≡ none → max_version id vs ≡ 0
unfolding newest_version max_version
max_version-newest_none id [] e = refl
max_version-newest_none id (v ∷ vs) e = elim (Option-cases (newest_version id vs)) [
  | inl n ↦ ground (arith, max_version-newest_none id vs n)
  | inr (w, n) ↦ ground arith
]

-- The row that ORDER BY version_number DESC LIMIT 1 gives has the maximum that the view joins on.
pub newest_version-is_max :
    (id : ℕ) (vs : List Version) (w : Version)
    → newest_version id vs ≡ some w
    → (w.version_number ≡ max_version id vs) × (w.file_id ≡ id)
unfolding newest_version max_version
newest_version-is_max id [] w e = cc
newest_version-is_max id (v ∷ vs) w e = elim (Option-cases (newest_version id vs)) [
  | inl n ↦ ground (arith, max_version-newest_none id vs n)
  | inr (x, n) ↦ ground (arith, newest_version-is_max id vs x n)
]

-- A version above all others of its file is the newest; other files keep theirs.
pub newest_version-cons :
    (v : Version) (vs : List Version) (id : ℕ)
    → v.version_number ≡ max_version v.file_id vs + 1
    → newest_version id (v ∷ vs) ≡ (if v.file_id == id then some v else newest_version id vs)
newest_version-cons v vs id e = elim (Option-cases (newest_version id vs)) [
  | inl n ↦ unfold newest_version in ground arith
  | inr (x, n) ↦ let m = newest_version-is_max id vs x n in unfold newest_version in ground arith
]

pub select_meta-upsert_meta :
    (m : Meta) (ms : List Meta) (id : ℕ)
    → select_meta id (upsert_meta m ms) ≡ (
        if m.file_id == id
        then (elim (select_meta id ms) [
          | none ↦ some m
          | some x ↦ if leb x.version_number m.version_number then some m else some x
        ])
        else select_meta id ms)
unfolding select_meta upsert_meta
select_meta-upsert_meta m [] id = ground arith
select_meta-upsert_meta m (x ∷ ms) id = ground (arith, select_meta-upsert_meta m ms id)
