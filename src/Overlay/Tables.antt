-- ===== src/Overlay/Tables.antt =====
-- The keys, the counts and the view `latest_files` on well-formed tables.
use hbf.Base.{
  ℕ, ◌+◌, ◌≤◌, ◌<◌, ◌≡◌, refl, ◌≢◌, true, Option, none, some, Option-cases, inl, inr, List, [], ◌∷◌,
  Bytes, bytes_eq, bytes_eq_iff, arith, ◌==◌, if◌then◌else◌,
}
use hbf.Overlay.Schema.{
  FileId, Version, select_file_id, max_version, has_version, newest_version, latest_file, count_ids,
  count_versions,
}
use hbf.Overlay.History.{
  IsFiled, IsHistory, select_file_id-lt, select_file_id_inj, newest_version-cons,
}

pub has_version-le :
    (id n : ℕ) (vs : List Version) → has_version id n vs ≡ true → n ≤ max_version id vs
unfolding has_version max_version
has_version-le id n [] e = cc
has_version-le id n (v ∷ vs) e = ground (arith, has_version-le id n vs)

-- Where a file has a version at all, it has version 1.
pub has_version_one :
    (fs : List FileId) (vs : List Version) (id : ℕ)
    → IsHistory fs vs
    → 0 < max_version id vs
    → has_version id 1 vs ≡ true
unfolding has_version max_version
has_version_one fs [] id h pos = absurd (omega arith)
has_version_one fs (v ∷ vs) id h pos = ground (arith, has_version_one fs vs id)

-- A file id for a new path disturbs no version.
pub IsHistory-cons_id :
    (f : FileId) (fs : List FileId) (vs : List Version)
    → select_file_id f.path fs ≡ none
    → IsHistory fs vs
    → IsHistory (f ∷ fs) vs
IsHistory-cons_id f fs [] fresh h = tt
IsHistory-cons_id f fs (v ∷ vs) fresh (at_path, number, size, h) =
    (known, number, size, IsHistory-cons_id f fs vs fresh h)
  where
    known : select_file_id v.path (f ∷ fs) ≡ some v.file_id
    known = unfold select_file_id in ground (arith, bytes_eq_iff f.path v.path)

-- A file id that no row has, has no version.
pub max_version_fresh :
    (next : ℕ) (fs : List FileId) (vs : List Version) (id : ℕ)
    → IsFiled next fs
    → IsHistory fs vs
    → next ≤ id
    → (max_version id vs ≡ 0) × (newest_version id vs ≡ none)
unfolding max_version newest_version
max_version_fresh next fs [] id d h le = (refl, refl)
max_version_fresh next fs (v ∷ vs) id d h le =
    ground (arith, select_file_id-lt next fs v.path v.file_id, max_version_fresh next fs vs id)

pub count_ids_lem :
    (next : ℕ) (fs : List FileId) (path : Bytes) (id : ℕ)
    → IsFiled next fs
    → count_ids id path fs
      ≡ (elim (select_file_id path fs) [ none ↦ 0 | some i ↦ if i == id then 1 else 0 ])
unfolding count_ids select_file_id
count_ids_lem next [] path id d = refl
count_ids_lem next (f ∷ fs) path id d =
    ground (arith, bytes_eq_iff f.path path, count_ids_lem f.file_id fs path id)

-- The joined count of a path's versions is the number of its newest version.
pub count_versions-eq-max_version :
    (next : ℕ) (fs : List FileId) (path : Bytes) (vs : List Version)
    → IsFiled next fs
    → IsHistory fs vs
    → count_versions path fs vs
      ≡ (elim (select_file_id path fs) [ none ↦ 0 | some id ↦ max_version id vs ])
unfolding count_versions max_version
count_versions-eq-max_version next fs path [] d h = elim (Option-cases (select_file_id path fs)) [
  | inl n ↦ rw n
  | inr (i, n) ↦ rw n
]
count_versions-eq-max_version next fs path (v ∷ vs) d h =
    ground
      (arith, count_ids_lem next fs path v.file_id, count_versions-eq-max_version next fs path vs)

latest_file-cons_other :
    (next : ℕ) (fs : List FileId) (v : Version) (all vs : List Version) (path : Bytes)
    → IsFiled next fs
    → select_file_id v.path fs ≡ some v.file_id
    → v.path ≢ path
    → IsHistory fs vs
    → latest_file (v ∷ all) path vs ≡ latest_file all path vs
unfolding latest_file max_version
latest_file-cons_other next fs v all [] path d known ne h = refl
latest_file-cons_other next fs v all (w ∷ vs) path d known ne h = ground (
  arith,
  bytes_eq_iff w.path path,
  select_file_id_inj next fs v.path w.path v.file_id,
  latest_file-cons_other next fs v all vs path,
)

latest_file-cons_self :
    (v : Version) (vs : List Version) (path : Bytes)
    → v.version_number ≡ max_version v.file_id vs + 1
    → latest_file (v ∷ vs) path (v ∷ vs)
      ≡ (if bytes_eq v.path path then some v else latest_file (v ∷ vs) path vs)
unfolding latest_file max_version
latest_file-cons_self v vs path number = ground arith

-- The view gives the newest version of the path's file id.
pub latest_file-eq-newest_version :
    (next : ℕ) (fs : List FileId) (path : Bytes) (vs : List Version)
    → IsFiled next fs
    → IsHistory fs vs
    → latest_file vs path vs
      ≡ (elim (select_file_id path fs) [ none ↦ none | some id ↦ newest_version id vs ])
latest_file-eq-newest_version next fs path [] d h =
    unfold latest_file newest_version in ground arith
latest_file-eq-newest_version next fs path (v ∷ vs) d (known, number, size, h) = ground (
  arith,
  bytes_eq_iff v.path path,
  latest_file-cons_self v vs path number,
  latest_file-cons_other next fs v vs vs path d known,
  latest_file-eq-newest_version next fs path vs d h,
  on_newest (select_file_id path fs) refl,
)
  where
    on_newest :
        (o : Option ℕ)
        → select_file_id path fs ≡ o
        → (elim o [ none ↦ none | some id ↦ newest_version id (v ∷ vs) ]) ≡ (
            if bytes_eq v.path path
            then some v
            else (elim o [ none ↦ none | some id ↦ newest_version id vs ]))
    on_newest none e = ground (arith, bytes_eq_iff v.path path)
    on_newest (some id) e = ground (
      arith,
      bytes_eq_iff v.path path,
      newest_version-cons v vs id number,
      select_file_id_inj next fs v.path path v.file_id,
    )
