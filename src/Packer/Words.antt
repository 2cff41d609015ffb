-- ===== src/Packer/Words.antt =====
-- The 32-bit words of the bundle format, least significant byte first: written by `memcpy` of a
-- `uint32_t` on a little-endian machine, read by `read_u32` of hbf/db/overlay_fs.c.
use hbf.Base.{
  ◌∙◌, ℕ, ◌+◌, ◌*◌, ◌/◌, ◌%◌, ◌^◌, ◌<◌, ◌≡◌, [], ◌∷◌, ◌++◌, Bytes, IsByte, bit_or, bit_or_low,
  get_or, arith,
}

abbrev pub u32 : ℕ → ℕ
u32 n = n % 2 ^ 32

abbrev pub u64 : ℕ → ℕ
u64 n = n % 2 ^ 64

unfoldable pub put_u32 : ℕ → Bytes
put_u32 n = n % 256 ∷ n / 2 ^ 8 % 256 ∷ n / 2 ^ 16 % 256 ∷ n / 2 ^ 24 % 256 ∷ []

unfoldable pub read_u32 : Bytes → ℕ
read_u32 buf =
    bit_or
      (bit_or (bit_or (get_or buf 0 0) (u32 (get_or buf 1 0 * 2 ^ 8)))
        (u32 (get_or buf 2 0 * 2 ^ 16)))
      (u32 (get_or buf 3 0 * 2 ^ 24))

-- Four bytes as a number.
pub read_u32_bytes :
    (a b c d : ℕ) (rest : Bytes)
    → IsByte a
    → IsByte b
    → IsByte c
    → IsByte d
    → read_u32 (a ∷ b ∷ c ∷ d ∷ rest) ≡ a + b * 2 ^ 8 + c * 2 ^ 16 + d * 2 ^ 24
unfolding read_u32
read_u32_bytes a b c d rest ha hb hc hd =
    let room8 : b * 2 ^ 8 % 2 ^ 32 ≡ b * 2 ^ 8 = omega arith in
    let room16 : c * 2 ^ 16 % 2 ^ 32 ≡ c * 2 ^ 16 = omega arith in
    let room24 : d * 2 ^ 24 % 2 ^ 32 ≡ d * 2 ^ 24 = omega arith in
    rw (
      room8,
      room16,
      room24,
      bit_or_low 8 a b (omega arith),
      bit_or_low 16 (a + b * 2 ^ 8) c (omega arith),
      bit_or_low 24 (a + b * 2 ^ 8 + c * 2 ^ 16) d (omega arith),
    )

-- Reading gives back the word that was written, whatever follows.
pub read_u32-put_u32 : (n : ℕ) (rest : Bytes) → n < 2 ^ 32 → read_u32 (put_u32 n ++ rest) ≡ n
unfolding put_u32
read_u32-put_u32 n rest h =
    read_u32_bytes (n % 256) (n / 2 ^ 8 % 256) (n / 2 ^ 16 % 256) (n / 2 ^ 24 % 256) rest
      (omega arith) (omega arith) (omega arith) (omega arith)
    ∙ omega arith
