-- ===== src/Migrate/Parse.antt =====
-- The parser of the bundle against the packer: an entry reads back as it was packed.
use hbf.Base.{
  false, ◌^◌, ◌<◌, ◌≡◌, some, ◌++◌, Bytes, length, arith, append_assoc, length-append, take-append,
  drop-append, take-length, ltb, ge→ltb,
}
use hbf.Packer.{IsPackable, FileEntry, pack_entry}
use hbf.Packer.Words.{u32, put_u32, read_u32, read_u32-put_u32}
use hbf.Migrate.{Entry, read_field, read_entry}

abbrev pub entry_of : FileEntry → Entry
entry_of e = record { name = e.path; content = e.content }

-- A field reads back as it was written.
read_field_packed :
    (field rest : Bytes)
    → length field < 2 ^ 32
    → read_field (put_u32 (length field) ++ (field ++ rest)) ≡ some (field, rest)
unfolding read_field put_u32
read_field_packed field rest fits =
    let len : read_u32 (put_u32 (length field) ++ (field ++ rest)) ≡ length field =
      read_u32-put_u32 (length field) (field ++ rest) fits in
    let long : ltb (length (put_u32 (length field) ++ (field ++ rest))) 4 ≡ false =
      ge→ltb _ _ (omega arith) in
    let room : ltb (length (field ++ rest)) (length field) ≡ false =
      ge→ltb _ _ (rw length-append (omega arith)) in
    rw (long, len, room, take-append, drop-append)

pack_entry_fields :
    (e : FileEntry) (rest : Bytes)
    → IsPackable e
    → pack_entry e ++ rest
      ≡ put_u32 (length e.path) ++ (e.path ++ (put_u32 (length e.content) ++ (e.content ++ rest)))
unfolding pack_entry put_u32
pack_entry_fields e rest h =
    let name : u32 (length e.path) ≡ length e.path = omega (arith, h.name_fits) in
    rw (
      name,
      h.same_len,
      take-length e.path,
      take-length e.content,
      append_assoc e.path (put_u32 (length e.content) ++ e.content) rest,
    )

-- A packable entry reads back as it was packed, with whatever follows it left over.
pub read_entry-pack_entry :
    (e : FileEntry) (rest : Bytes)
    → IsPackable e
    → read_entry (pack_entry e ++ rest) ≡ some (entry_of e, rest)
unfolding read_entry
read_entry-pack_entry e rest h = rw (
  pack_entry_fields e rest h,
  read_entry,
  read_field_packed e.path (put_u32 (length e.content) ++ (e.content ++ rest)) h.name_fits,
  read_field_packed e.content rest h.data_fits,
)
