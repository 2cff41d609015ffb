-- ===== src/Packer/Program/Outputs.antt =====
-- What the packer generates, and where.
use hbf.Base.{
  get_property, set_property, get_property-set_property, bytes_eq, if◌then◌else◌, ℕ, ◌+◌, ◌≤◌, ◌≡◌,
  ◌∙◌, ap, refl, true, false, none, some, List, [], ◌∷◌, ◌++◌, Bytes, length, take, All, ge→ltb,
  ◌==◌, arith,
}
use hbf.Packer.{Bundle, bundle_init, Qsort, bundle_pack, Zlib, compress_bundle}
use hbf.Packer.Source.{source_text, header_text, write_c_source}
use hbf.Packer.Program.{
  Options, defaults, scan, add_files, PackerExit, PackerCalls, finish, compress_and_write,
  pack_and_write, build, packer_main,
}
use hbf.Packer.Program.Files.{
  Setting, source_is, header_is, symbol_is, level_is, arguments, apply, IsSetting, scan-arguments,
  IsFile, scan-files, IsReadable, entries_of, add_files-entries_of,
}

apply-files :
    (ss : List Setting) (o : Options)
    → ((apply ss o).files ≡ o.files) × ((apply ss o).num_files ≡ o.num_files)
unfolding apply
apply-files [] o = (refl, refl)
apply-files (source_is value ∷ ss) o = apply-files ss _
apply-files (header_is value ∷ ss) o = apply-files ss _
apply-files (symbol_is value ∷ ss) o = apply-files ss _
apply-files (level_is value n ∷ ss) o = apply-files ss _

-- The calls all succeed.
pub record IsSmooth (calls : PackerCalls) : Type 0 where
  pub calloc : calls.calloc ≡ true
  pub readable : (i : ℕ) → IsReadable (calls.file_calls i)
  pub malloc_packed : calls.malloc_packed ≡ true
  pub malloc_compressed : calls.malloc_compressed ≡ true
  pub opens_source : calls.opens_source ≡ true
  pub opens_header : calls.opens_header ≡ true

-- zlib's promise for `compressBound`.
abbrev pub IsBound : Zlib → Type 0
IsBound z =
    (level n : ℕ) (bytes : Bytes) → length (z.compress level (take n bytes)) ≤ z.compress_bound n

-- The bundle of the files, in the order of the arguments.
abbrev pub bundle_of : PackerCalls → List Bytes → Bundle
bundle_of calls fs = record { entries = entries_of calls.file_calls 0 fs; capacity = length fs }

bundle_pack-some :
    (q : Qsort) (b : Bundle)
    → (packed : Bytes) × (n : ℕ) × (bundle_pack q true b ≡ some (packed, n))
unfolding bundle_pack
bundle_pack-some q b = (_, _, refl)

compress_bundle-some :
    (z : Zlib) (packed : Bytes) (n level : ℕ)
    → IsBound z
    → compress_bundle z true packed n level ≡ some (z.compress level (take n packed))
unfolding compress_bundle
compress_bundle-some z packed n level bound =
    rw (
      ge→ltb (z.compress_bound n) (length (z.compress level (take n packed)))
        (bound level n packed))

write_c_source-files :
    (output_source output_header symbol_name blob path : Bytes)
    → get_property path
        (write_c_source true true output_source output_header symbol_name blob).files
      ≡ (if bytes_eq output_header path
          then some (header_text symbol_name)
          else if bytes_eq output_source path
          then some (source_text symbol_name blob)
          else none)
unfolding write_c_source get_property
write_c_source-files output_source output_header symbol_name blob path =
    get_property-set_property path output_header (header_text symbol_name)
      (set_property output_source (source_text symbol_name blob) [])
    ∙ rw (get_property-set_property path output_source (source_text symbol_name blob) []) refl

-- The stages of the packer, where the calls succeed.
module _ (q : Qsort) (z : Zlib) (calls : PackerCalls) (smooth : IsSmooth calls)
    (output_source output_header : Bytes) (o : Options) where
  abbrev exits_with : Bytes → PackerExit
  exits_with blob = record {
    status = 0;
    generated = write_c_source true true output_source output_header o.symbol_name blob;
  }

  finish_lem :
      (blob : Bytes) → finish calls output_source output_header o.symbol_name blob ≡ exits_with blob
  unfolding finish write_c_source
  finish_lem blob = rw (smooth.opens_source, smooth.opens_header)

  pack_and_write_lem :
      (b : Bundle) (packed blob : Bytes) (n : ℕ)
      → bundle_pack q true b ≡ some (packed, n)
      → compress_bundle z true packed n o.compression_level ≡ some blob
      → pack_and_write q z calls output_source output_header o b ≡ exits_with blob
  unfolding pack_and_write compress_and_write
  pack_and_write_lem b packed blob n packs compresses =
      rw
        (
          smooth.malloc_packed, packs, smooth.malloc_compressed, compresses, pack_and_write,
          compress_and_write,
        )
        (finish_lem blob)

  build_lem :
      (args : List Bytes) (b : Bundle)
      → add_files calls.file_calls 0 args (record { entries = []; capacity = o.num_files }) ≡ some b
      → build q z calls output_source output_header o args
        ≡ pack_and_write q z calls output_source output_header o b
  unfolding build bundle_init
  build_lem args b adds =
      rw (smooth.calloc, adds, build)
        (λ i.
          pack_and_write q z (record calls { calloc = smooth.calloc i }) output_source output_header
            o b)

  packer_main-build :
      (args fs : List Bytes)
      → scan args defaults ≡ some o
      → o.output_source ≡ some output_source
      → o.output_header ≡ some output_header
      → (o.num_files == 0) ≡ false
      → o.files ≡ some fs
      → packer_main q z calls args ≡ build q z calls output_source output_header o fs
  unfolding packer_main
  packer_main-build args fs scans source header some_files files =
      rw (scans, source, header, some_files, files, packer_main)
        (λ i.
          build q z calls output_source output_header
            (record o { output_source = source i; output_header = header i; files = files i }) fs)

module _ (q : Qsort) (z : Zlib) (calls : PackerCalls) (ss : List Setting) (f : Bytes)
    (fs : List Bytes) (output_source output_header : Bytes) (bound : IsBound z)
    (settings : All IsSetting ss) (source : (apply ss defaults).output_source ≡ some output_source)
    (header : (apply ss defaults).output_header ≡ some output_header) (files : All IsFile (f ∷ fs))
    (smooth : IsSmooth calls) where
  -- The exit of the program, and the blob that it has written.
  pub packer_main_exits :
      (packed : Bytes) × (n : ℕ) × (blob : Bytes) × (bundle_pack q true (bundle_of calls (f ∷ fs))
        ≡ some (packed, n))
      × (compress_bundle z true packed n (apply ss defaults).compression_level ≡ some blob)
      × (packer_main q z calls (arguments ss ++ f ∷ fs) ≡ record {
        status = 0;
        generated =
            write_c_source true true output_source output_header
              (apply ss defaults).symbol_name
              blob;
      })
  packer_main_exits =
      let (packed, n, packs) = bundle_pack-some q (bundle_of calls (f ∷ fs)) in
      let blob = z.compress (apply ss defaults).compression_level (take n packed) in
      let compresses =
        compress_bundle-some z packed n (apply ss defaults).compression_level bound in
      (
        packed,
        n,
        blob,
        packs,
        compresses,
        packer_main-build q z calls smooth output_source output_header o (arguments ss ++ f ∷ fs)
              (f ∷ fs) scans source header counted refl
            ∙ build_lem q z calls smooth output_source output_header o (f ∷ fs)
                (bundle_of calls (f ∷ fs)) adds
            ∙ pack_and_write_lem q z calls smooth output_source output_header o
                (bundle_of calls (f ∷ fs)) packed blob n packs compresses,
      )
    where
      o : Options
      o = record (apply ss defaults) {
        files = some (f ∷ fs);
        num_files = (apply ss defaults).num_files + length (f ∷ fs);
      }

      number : o.num_files ≡ length (f ∷ fs)
      number = omega (arith, (apply-files ss defaults).1)

      counted : (o.num_files == 0) ≡ false
      counted = ground (arith, number)

      scans : scan (arguments ss ++ f ∷ fs) defaults ≡ some o
      scans =
          scan-arguments ss (f ∷ fs) defaults settings
          ∙ scan-files f fs (apply ss defaults) (apply-files ss defaults).0 files

      adds :
          add_files calls.file_calls 0 (f ∷ fs) (record { entries = []; capacity = o.num_files })
          ≡ some (bundle_of calls (f ∷ fs))
      adds =
          ap
            (λ (n : ℕ).
              add_files calls.file_calls 0 (f ∷ fs) (record { entries = []; capacity = n }))
            number
          ∙ add_files-entries_of calls.file_calls 0 (f ∷ fs)
              (record { entries = []; capacity = length (f ∷ fs) }) files smooth.readable
              (omega arith)

  -- Options with their values, the two outputs among them, and then files that can all be read: where
  -- all calls succeed, the packer exits with 0 and has written the header's text to the path of
  -- --output-header and, where that is another path, the source of the compressed bundle of exactly
  -- the files that are no source maps to the path of --output-source, and nothing else.
  pub packer_main_lem :
      (packed : Bytes) × (n : ℕ) × (blob : Bytes) × (bundle_pack q true (bundle_of calls (f ∷ fs))
        ≡ some (packed, n))
      × (compress_bundle z true packed n (apply ss defaults).compression_level ≡ some blob)
      × ((packer_main q z calls (arguments ss ++ f ∷ fs)).status ≡ 0)
      × ((path : Bytes)
          → get_property path (packer_main q z calls (arguments ss ++ f ∷ fs)).generated.files ≡ (
              if bytes_eq output_header path
              then some (header_text (apply ss defaults).symbol_name)
              else if bytes_eq output_source path
              then some (source_text (apply ss defaults).symbol_name blob)
              else none))
  packer_main_lem =
      let (packed, n, blob, packs, compresses, exits) = packer_main_exits in
      (
        packed,
        n,
        blob,
        packs,
        compresses,
        ap (λ e. e.status) exits,
        λ path.
            ap (λ e. get_property path e.generated.files) exits
            ∙ write_c_source-files output_source output_header (apply ss defaults).symbol_name blob
                path,
      )
