-- ===== src/Packer/Program/Files.antt =====
-- The arguments that name files, and the entries that they become.
use hbf.Base.{
  sym, ge→ltb, ==_refl, ◌%◌, ◌^◌, ℕ, ◌+◌, ◌≤◌, ◌<◌, ◌≡◌, ◌∙◌, ap, refl, true, false, Bool-cases,
  inl, inr, none, some, List, [], ◌∷◌, ◌++◌, Bytes, codes, bytes_eq, length, All, append_assoc,
  append-nil, length-append, take-length, leb, ltb, arith,
}
use hbf.Packer.{FileEntry, Bundle, FileCalls, bundle_add_file, should_skip_file, max_file_size}
use hbf.Packer.Program.{Options, file, is_option, arg_kind, level_of, count_file, scan, add_files}

-- One option with its value; a level comes with the number that it is read as.
pub data Setting : Type 0 where
  source_is : Bytes → Setting
  header_is : Bytes → Setting
  symbol_is : Bytes → Setting
  level_is : Bytes → ℕ → Setting

unfoldable pub arguments : List Setting → List Bytes
arguments [] = []
arguments (source_is value ∷ ss) = codes "--output-source" ∷ value ∷ arguments ss
arguments (header_is value ∷ ss) = codes "--output-header" ∷ value ∷ arguments ss
arguments (symbol_is value ∷ ss) = codes "--symbol-name" ∷ value ∷ arguments ss
arguments (level_is value n ∷ ss) = codes "--compression-level" ∷ value ∷ arguments ss

unfoldable pub apply : List Setting → Options → Options
apply [] o = o
apply (source_is value ∷ ss) o = apply ss (record o { output_source = some value })
apply (header_is value ∷ ss) o = apply ss (record o { output_header = some value })
apply (symbol_is value ∷ ss) o = apply ss (record o { symbol_name = value })
apply (level_is value n ∷ ss) o = apply ss (record o { compression_level = n })

abbrev pub IsSetting : Setting → Type 0
IsSetting (level_is value n) = level_of value ≡ some n
IsSetting s = Unit {0}

pub scan-arguments :
    (ss : List Setting) (rest : List Bytes) (o : Options)
    → All IsSetting ss
    → scan (arguments ss ++ rest) o ≡ scan rest (apply ss o)
unfolding scan arguments apply arg_kind bytes_eq
scan-arguments [] rest o hs = refl
scan-arguments (source_is value ∷ ss) rest o (h, hs) = scan-arguments ss rest _ hs
scan-arguments (header_is value ∷ ss) rest o (h, hs) = scan-arguments ss rest _ hs
scan-arguments (symbol_is value ∷ ss) rest o (h, hs) = scan-arguments ss rest _ hs
scan-arguments (level_is value n ∷ ss) rest o (h, hs) = rw (h, scan) (scan-arguments ss rest _ hs)

abbrev pub IsFile : Bytes → Type 0
IsFile arg = is_option arg ≡ false

arg_kind-file : (arg : Bytes) → IsFile arg → arg_kind arg ≡ file
unfolding arg_kind is_option bytes_eq
arg_kind-file [] h = refl
arg_kind-file (c ∷ cs) h = rw h refl

count_file_more :
    (first args : List Bytes) (o : Options)
    → o.files ≡ some first
    → count_file args o ≡ record o { num_files = o.num_files + 1 }
unfolding count_file
count_file_more first args o e = rw e

count_file_first :
    (args : List Bytes) (o : Options)
    → o.files ≡ none
    → count_file args o ≡ record o { files = some args; num_files = o.num_files + 1 }
unfolding count_file
count_file_first args o e = rw e

scan-more :
    (first fs : List Bytes) (o : Options)
    → o.files ≡ some first
    → All IsFile fs
    → scan fs o ≡ some (record o { num_files = o.num_files + length fs })
unfolding scan
scan-more first [] o e hs = ap (λ (n : ℕ). some (record o { num_files = n })) (omega arith)
scan-more first (f ∷ []) o e (h, hs) =
    rw (arg_kind-file f h, scan) (ap (λ (p : Options). some p) (count_file_more first (f ∷ []) o e))
scan-more first (f ∷ g ∷ fs) o e (h, hs) =
    rw (arg_kind-file f h, scan)
      (ap (scan (g ∷ fs)) (count_file_more first (f ∷ g ∷ fs) o e)
        ∙ scan-more first (g ∷ fs) (record o { num_files = o.num_files + 1 }) e hs
        ∙ ap (λ (n : ℕ). some (record o { num_files = n })) (omega arith))

-- The first file argument and all files behind it, where no option follows.
pub scan-files :
    (f : Bytes) (fs : List Bytes) (o : Options)
    → o.files ≡ none
    → All IsFile (f ∷ fs)
    → scan (f ∷ fs) o
      ≡ some (record o { files = some (f ∷ fs); num_files = o.num_files + length (f ∷ fs) })
unfolding scan
scan-files f [] o e (h, hs) =
    rw (arg_kind-file f h, scan) (ap (λ (p : Options). some p) (count_file_first (f ∷ []) o e))
scan-files f (g ∷ fs) o e (h, hs) =
    rw (arg_kind-file f h, scan)
      (ap (scan (g ∷ fs)) (count_file_first (f ∷ g ∷ fs) o e)
        ∙ scan-more (f ∷ g ∷ fs) (g ∷ fs)
            (record o { files = some (f ∷ g ∷ fs); num_files = o.num_files + 1 }) refl hs
        ∙ ap (λ (n : ℕ). some (record o { files = some (f ∷ g ∷ fs); num_files = n }))
            (omega arith))

-- A file that can be read whole and is below the size limit.
pub record IsReadable (c : FileCalls) : Type 0 where
  pub opens : c.opens ≡ true
  pub seeks : c.seeks ≡ true
  pub tell : c.tell ≡ some (length c.bytes)
  pub malloc : c.malloc ≡ true
  pub strdup : c.strdup ≡ true
  pub small : length c.bytes ≤ max_file_size

-- The entries of the files that are no source maps, in their order.
unfoldable pub entries_of : (ℕ → FileCalls) → ℕ → List Bytes → List FileEntry
entries_of calls i [] = []
entries_of calls i (f ∷ fs) = elim (should_skip_file f) [
  | true ↦ entries_of calls (i + 1) fs
  | false ↦
      record { path = f; content = (calls i).bytes; data_len = length (calls i).bytes }
      ∷ entries_of calls (i + 1) fs
]

entries_of_skipped :
    (calls : ℕ → FileCalls) (i : ℕ) (f : Bytes) (fs : List Bytes)
    → should_skip_file f ≡ true
    → entries_of calls i (f ∷ fs) ≡ entries_of calls (i + 1) fs
unfolding entries_of
entries_of_skipped calls i f fs e = rw (e, entries_of)

entries_of_kept :
    (calls : ℕ → FileCalls) (i : ℕ) (f : Bytes) (fs : List Bytes)
    → should_skip_file f ≡ false
    → entries_of calls i (f ∷ fs)
      ≡ record { path = f; content = (calls i).bytes; data_len = length (calls i).bytes }
        ∷ entries_of calls (i + 1) fs
unfolding entries_of
entries_of_kept calls i f fs e = rw (e, entries_of)

bundle_add_file-readable :
    (c : FileCalls) (path : Bytes) (b : Bundle)
    → IsReadable c
    → length b.entries < b.capacity
    → bundle_add_file c path b
      ≡ some (record b {
        entries =
            b.entries ++ record { path = path; content = c.bytes; data_len = length c.bytes } ∷ [];
      })
unfolding bundle_add_file
bundle_add_file-readable c path b r room =
    let free_slot : leb b.capacity (length b.entries) ≡ false = ground arith in
    let fits : ltb max_file_size (length c.bytes) ≡ false = ge→ltb _ _ r.small in
    let same : (length c.bytes % 2 ^ 32) ≡ length c.bytes = omega (arith, r.small) in
    rw (
      free_slot,
      r.opens,
      r.seeks,
      r.tell,
      fits,
      r.malloc,
      r.strdup,
      take-length c.bytes,
      ==_refl (length c.bytes),
      same,
    )

add_files_skipped :
    (calls : ℕ → FileCalls) (i : ℕ) (f : Bytes) (fs : List Bytes) (b : Bundle)
    → IsFile f
    → should_skip_file f ≡ true
    → add_files calls i (f ∷ fs) b ≡ add_files calls (i + 1) fs b
unfolding add_files
add_files_skipped calls i f fs b h e = rw (h, e, add_files)

add_files_added :
    (calls : ℕ → FileCalls) (i : ℕ) (f : Bytes) (fs : List Bytes) (b b' : Bundle)
    → IsFile f
    → should_skip_file f ≡ false
    → bundle_add_file (calls i) f b ≡ some b'
    → add_files calls i (f ∷ fs) b ≡ add_files calls (i + 1) fs b'
unfolding add_files
add_files_added calls i f fs b b' h e p = rw (h, e, p, add_files)

pub add_files-entries_of :
    (calls : ℕ → FileCalls) (i : ℕ) (fs : List Bytes) (b : Bundle)
    → All IsFile fs
    → ((j : ℕ) → IsReadable (calls j))
    → length b.entries + length fs ≤ b.capacity
    → add_files calls i fs b ≡ some (record b { entries = b.entries ++ entries_of calls i fs })
add_files-entries_of calls i [] b hs rs room =
    unfold add_files entries_of in
    ap (λ (es : List FileEntry). some (record b { entries = es })) (sym (append-nil b.entries))
add_files-entries_of calls i (f ∷ fs) b (h, hs) rs room = elim (Bool-cases (should_skip_file f)) [
  | inl e ↦
      add_files_skipped calls i f fs b h e
      ∙ add_files-entries_of calls (i + 1) fs b hs rs (omega arith)
      ∙ ap (λ (es : List FileEntry). some (record b { entries = b.entries ++ es }))
          (sym (entries_of_skipped calls i f fs e))
  | inr e ↦
      add_files_added calls i f fs b _ h e
        (bundle_add_file-readable (calls i) f b (rs i) (omega arith))
      ∙ add_files-entries_of calls (i + 1) fs _ hs rs (omega (arith, length-append b.entries))
      ∙ ap (λ (es : List FileEntry). some (record b { entries = es }))
          (append_assoc b.entries (_ ∷ []) (entries_of calls (i + 1) fs)
            ∙ ap (λ (es : List FileEntry). b.entries ++ es) (sym (entries_of_kept calls i f fs e)))
]
