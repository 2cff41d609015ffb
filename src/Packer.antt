-- ===== src/Packer.antt =====
-- tools/asset_packer.c: the bundle, its binary format and its arguments.
pub mod Words
pub mod Size
pub mod Order
pub mod Source
pub mod Constants
pub mod Reading
pub mod Program
use mathlib.Core.List.{Perm}
use hbf.Base.{
  ◌≡◌, ℕ, zero, suc, ◌+◌, ◌-◌, ◌*◌, ◌/◌, ◌%◌, ◌^◌, ◌<◌, Bool, true, false, ◌&&◌, ◌||◌, not, Option,
  none, some, List, [], ◌∷◌, ◌++◌, Bytes, codes, bytes_eq, length, take, drop, ltb, leb, ◌==◌,
  if◌then◌else◌,
}
use hbf.Packer.Words.{u32, u64, put_u32}

-- file_entry_t
pub record FileEntry : Type 0 where
  pub path : Bytes
  pub content : Bytes
  pub data_len : ℕ

-- bundle_t; `count` is the length of `entries`.
pub record Bundle : Type 0 where
  pub entries : List FileEntry
  pub capacity : ℕ

unfoldable pub bundle_init : Bool → ℕ → Option Bundle
bundle_init calloc capacity =
    if not calloc then none else some (record { entries = []; capacity = capacity })

-- Whether the path ends in ".js.map".
unfoldable pub should_skip_file : Bytes → Bool
should_skip_file path =
    let suffix = codes ".js.map" in
    if leb (length suffix) (length path)
    then bytes_eq (drop (length path - length suffix) path) suffix
    else false

abbrev pub max_file_size : ℕ
max_file_size = 100 * 1024 * 1024

-- What the C library answers for one file: whether it opens and seeks, what `ftell` gives (`none`
-- where that is negative), whether the allocations succeed, and the bytes that there are to read.
pub record FileCalls : Type 0 where
  pub opens : Bool
  pub seeks : Bool
  pub tell : Option ℕ
  pub malloc : Bool
  pub bytes : Bytes
  pub strdup : Bool

-- `none` is the -1; the bundle is then as it was. The memory that is freed then is not modelled.
unfoldable pub bundle_add_file : FileCalls → Bytes → Bundle → Option Bundle
bundle_add_file calls path bundle =
    if leb bundle.capacity (length bundle.entries)
    then none
    else if not calls.opens
    then none
    else if not calls.seeks
    then none
    else elim calls.tell [
      | none ↦ none
      | some file_size ↦
          if ltb max_file_size file_size
          then none
          else if not calls.malloc
          then none
          else if not (length (take file_size calls.bytes) == file_size)
          then none
          else if not calls.strdup
          then none
          else some (record bundle {
            entries =
                bundle.entries
                ++ record {
                  path = path;
                  content = take file_size calls.bytes;
                  data_len = u32 file_size;
                }
                  ∷ [];
          })
    ]

-- What `bundle_add_file` guarantees of an entry, and that its path's length is a `uint32_t`.
pub record IsPackable (e : FileEntry) : Type 0 where
  pub name_fits : length e.path < 2 ^ 32
  pub same_len : e.data_len ≡ length e.content
  pub data_fits : length e.content < 2 ^ 32

-- `strcmp(ea->path, eb->path) <= 0`
unfoldable pub path_le : Bytes → Bytes → Bool
path_le [] q = true
path_le (a ∷ p) [] = false
path_le (a ∷ p) (b ∷ q) = if a == b then path_le p q else ltb a b

abbrev pub IsOrdered : List FileEntry → Type 0
IsOrdered [] = Unit {0}
IsOrdered (e ∷ []) = Unit {0}
IsOrdered (e ∷ f ∷ es) = (path_le e.path f.path ≡ true) × IsOrdered (f ∷ es)

-- `qsort` with `compare_entries`: a permutation in the order of the paths. It need not be stable.
pub record Qsort : Type 0 where
  pub sort : List FileEntry → List FileEntry
  pub sort-perm : (es : List FileEntry) → Perm (sort es) es
  pub sort-IsOrdered : (es : List FileEntry) → IsOrdered (sort es)

-- for each entry: total_size += sizeof(uint32_t) + name_len + sizeof(uint32_t) + data_len
unfoldable pub total_size : ℕ → List FileEntry → ℕ
total_size acc [] = acc
total_size acc (e ∷ es) =
    let named = u64 (u64 (acc + 4) + u32 (length e.path)) in
    total_size (u64 (u64 (named + 4) + e.data_len)) es

-- name_len, name, data_len, data
unfoldable pub pack_entry : FileEntry → Bytes
pack_entry e =
    let name_len = u32 (length e.path) in
    put_u32 name_len ++ (take name_len e.path ++ (put_u32 e.data_len ++ take e.data_len e.content))

unfoldable pub pack_entries : List FileEntry → Bytes
unfolding pack_entry
pack_entries [] = []
pack_entries (e ∷ es) = pack_entry e ++ pack_entries es

-- The packed buffer and `*out_len`; `none` is the -1. `count` is a `uint32_t`.
unfoldable pub bundle_pack : Qsort → Bool → Bundle → Option (Bytes × ℕ)
unfolding pack_entries total_size
bundle_pack q malloc bundle =
    let sorted = q.sort bundle.entries in
    if not malloc
    then none
    else some (put_u32 (u32 (length sorted)) ++ pack_entries sorted, total_size 4 sorted)

-- zlib: `compress2` at a level, the bound on its output, and `uncompress` into a buffer of a size.
pub record Zlib : Type 0 where
  pub compress_bound : ℕ → ℕ
  pub compress : ℕ → Bytes → Bytes
  pub uncompress : ℕ → Bytes → Option Bytes

-- `none` is the -1. `malloc` says whether all memory is given, that which compress2 asks for itself
-- included; what is freed after a failure is not modelled.
unfoldable pub compress_bundle : Zlib → Bool → Bytes → ℕ → ℕ → Option Bytes
compress_bundle z malloc buffer data_len level =
    let compressed = z.compress level (take data_len buffer) in
    if not malloc
    then none
    else if ltb (z.compress_bound data_len) (length compressed)
    then none
    else some compressed
