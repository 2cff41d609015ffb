-- ===== src/Packer/Size.antt =====
-- The sizes of the packer: the buffer that it allocates is the one that it fills.
use hbf.Base.{
  ℕ, ◌+◌, ◌^◌, ◌≤◌, ◌<◌, ◌≡◌, ◌∙◌, ap, refl, Bool, some, List, [], ◌∷◌, ◌++◌, Bytes, length, take,
  All, arith, length-append, take-length, Option-cases, inl, inr,
}
use hbf.Packer.{
  FileEntry, Bundle, FileCalls, IsPackable, Qsort, bundle_add_file, max_file_size, pack_entry,
  pack_entries, total_size, bundle_pack,
}
use hbf.Packer.Words.{u32, u64, put_u32}

length-pack_entry :
    (e : FileEntry) → IsPackable e → length (pack_entry e) ≡ 8 + length e.path + length e.content
unfolding pack_entry put_u32
length-pack_entry e h =
    let name : u32 (length e.path) ≡ length e.path = omega (arith, h.name_fits) in
    rw (name, h.same_len, take-length e.path, take-length e.content, length-append) (omega arith)

-- The sum that the code computes in a `size_t` is the length of what it writes.
total_size_lem :
    (acc : ℕ) (es : List FileEntry)
    → All IsPackable es
    → acc + length (pack_entries es) < 2 ^ 64
    → total_size acc es ≡ acc + length (pack_entries es)
unfolding total_size pack_entries
total_size_lem acc [] hs fits = omega arith
total_size_lem acc (e ∷ es) (h, hs) fits =
    let whole : length (pack_entry e ++ pack_entries es)
        ≡ 8 + length e.path + length e.content + length (pack_entries es) =
      rw length-append (ap (λ n. n + length (pack_entries es)) (length-pack_entry e h)) in
    let at : u64 (u64 (u64 (u64 (acc + 4) + u32 (length e.path)) + 4) + e.data_len)
        ≡ acc + (8 + length e.path + length e.content) =
      omega (arith, whole, h.name_fits, h.same_len) in
    rw at (
      total_size_lem (acc + (8 + length e.path + length e.content)) es hs (omega (arith, whole))
      ∙ omega (arith, whole))

-- The size that `bundle_pack` allocates and returns is the number of bytes that it writes, where
-- the entries are packable and the sum is below 2^64.
pub bundle_pack-length :
    (q : Qsort) (malloc : Bool) (bundle : Bundle) (buffer : Bytes) (out_len : ℕ)
    → All IsPackable (q.sort bundle.entries)
    → 4 + length (pack_entries (q.sort bundle.entries)) < 2 ^ 64
    → bundle_pack q malloc bundle ≡ some (buffer, out_len)
    → out_len ≡ length buffer
unfolding bundle_pack put_u32
bundle_pack-length q malloc bundle buffer out_len hs fits returns =
    ground (arith, total_size_lem 4 (q.sort bundle.entries) hs fits)

-- A file that is added stays below the limit, is packable where its path is shorter than 2^32
-- bytes, and leaves the bundle within its capacity; the entries before it are kept.
pub bundle_add_file-IsPackable :
    (calls : FileCalls) (path : Bytes) (bundle bundle' : Bundle)
    → length path < 2 ^ 32
    → bundle_add_file calls path bundle ≡ some bundle'
    → (e : FileEntry) × IsPackable e
      × (e.path ≡ path)
      × (length e.content ≤ max_file_size)
      × (bundle'.entries ≡ bundle.entries ++ e ∷ [])
      × (length bundle'.entries ≤ bundle'.capacity)
unfolding bundle_add_file
bundle_add_file-IsPackable calls path bundle bundle' fits returns = elim (Option-cases calls.tell) [
  | inl e ↦ absurd (ground arith)
  | inr (n, e) ↦
      let small : n ≤ max_file_size = ground arith in
      let read : length (take n calls.bytes) ≡ n = ground arith in
      let below : length bundle.entries < bundle.capacity = ground arith in
      (
        record { path = path; content = take n calls.bytes; data_len = u32 n },
        record {
          name_fits = fits;
          same_len = omega (arith, small, read);
          data_fits = omega (arith, small, read);
        },
        refl,
        omega (arith, small, read),
        ground arith,
        ground (
          arith,
          length-append bundle.entries
              (record { path = path; content = take n calls.bytes; data_len = u32 n } ∷ []),
        ),
      )
]
