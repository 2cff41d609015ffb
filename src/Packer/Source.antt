-- ===== src/Packer/Source.antt =====
-- The C source and header that asset_packer.c writes for a bundle.
use mathlib.Core.List.{flatten}
use hbf.Base.{
  true, false, ℕ, ◌+◌, ◌-◌, ◌%◌, Bool, not, [], ◌∷◌, ◌++◌, Bytes, codes, length, ltb, ◌==◌, List,
  set_property, print_hex, print_size, if◌then◌else◌,
}

abbrev pub newline : Bytes
newline = 10 ∷ []

-- The body of the loop, at index `i`.
unfoldable pub write_byte : ℕ → ℕ → ℕ → Bytes
unfolding print_hex
write_byte data_len i byte =
    (if i % 12 == 0 then 10 ∷ 9 ∷ [] else [])
    ++ (codes "0x" ++ (print_hex byte ++ (if ltb i (data_len - 1) then codes ", " else [])))

-- for (i = 0; i < data_len; i++), from index `i` on.
unfoldable pub write_bytes : ℕ → ℕ → Bytes → Bytes
unfolding write_byte
write_bytes data_len i [] = []
write_bytes data_len i (byte ∷ bytes) =
    write_byte data_len i byte ++ write_bytes data_len (i + 1) bytes

-- What is written to the source file.
unfoldable pub source_text : Bytes → Bytes → Bytes
unfolding write_bytes print_size
source_text symbol_name bytes = flatten (
    codes "/* Auto-generated by asset_packer - do not edit */"
    ∷ newline
    ∷ newline
    ∷ codes "#include <stddef.h>"
    ∷ newline
    ∷ newline
    ∷ codes "const unsigned char "
    ∷ symbol_name
    ∷ codes "[] = {"
    ∷ write_bytes (length bytes) 0 bytes
    ∷ newline
    ∷ codes "};"
    ∷ newline
    ∷ newline
    ∷ codes "const size_t "
    ∷ symbol_name
    ∷ codes "_len = "
    ∷ print_size (length bytes)
    ∷ codes ";"
    ∷ newline
    ∷ [])

-- What is written to the header.
unfoldable pub header_text : Bytes → Bytes
header_text symbol_name = flatten (
    codes "/* Auto-generated by asset_packer - do not edit */"
    ∷ newline
    ∷ codes "#ifndef ASSETS_BLOB_H"
    ∷ newline
    ∷ codes "#define ASSETS_BLOB_H"
    ∷ newline
    ∷ newline
    ∷ codes "#include <stddef.h>"
    ∷ newline
    ∷ newline
    ∷ codes "extern const unsigned char "
    ∷ symbol_name
    ∷ codes "[];"
    ∷ newline
    ∷ codes "extern const size_t "
    ∷ symbol_name
    ∷ codes "_len;"
    ∷ newline
    ∷ newline
    ∷ codes "#endif /* ASSETS_BLOB_H */"
    ∷ newline
    ∷ [])

-- Whether the function returns 0, and the files that it has written, each path with its text.
pub record Generated : Type 0 where
  pub ok : Bool
  pub files : List (Bytes × Bytes)

-- `write_c_source(output_source, output_header, symbol_name, data, data_len)`, with whether each
-- file opens. A file that is opened with "w" loses what it held, also where both paths are the same
-- text; two texts that name one file otherwise are not told apart. What `fprintf` and `fclose`
-- return is not looked at; the text is taken to reach the file.
unfoldable pub write_c_source : Bool → Bool → Bytes → Bytes → Bytes → Bytes → Generated
unfolding source_text header_text
write_c_source opens_source opens_header output_source output_header symbol_name bytes =
    if not opens_source
    then (record { ok = false; files = [] })
    else let written = set_property output_source (source_text symbol_name bytes) [] in
      if not opens_header then (record { ok = false; files = written }) else (record {
        ok = true;
        files = set_property output_header (header_text symbol_name) written;
      })
