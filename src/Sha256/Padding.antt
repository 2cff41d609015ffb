-- ===== src/Sha256/Padding.antt =====
-- SHA-256 as the standard states it, apart from the buffer of the code: pad the whole message to
-- a multiple of 64 bytes, and fold the compression function over the blocks.
use hbf.Base.{
  ℕ, zero, suc, ◌+◌, ◌-◌, ◌*◌, ◌/◌, ◌^◌, ◌≡◌, ap, [], ◌∷◌, ◌++◌, Bytes, take, drop, length, arith,
  replicate, length-append, length-replicate, length-drop, take-append_le, drop-append_le, take_all,
}
use hbf.Sha256.{Words, u8, u64, sha256_transform, initial_state, digest}

-- A 64-bit number, most significant byte first.
unfoldable pub big_endian64 : ℕ → Bytes
big_endian64 n =
    u8 (n / 2 ^ 56)
    ∷ u8 (n / 2 ^ 48)
    ∷ u8 (n / 2 ^ 40)
    ∷ u8 (n / 2 ^ 32)
    ∷ u8 (n / 2 ^ 24)
    ∷ u8 (n / 2 ^ 16)
    ∷ u8 (n / 2 ^ 8)
    ∷ u8 n
    ∷ []

-- The blocks of a padded message of `n` bytes: room for the mark and the length.
unfoldable pub block_count : ℕ → ℕ
block_count n = (n + 8) / 64 + 1

unfoldable pub padding : ℕ → Bytes
padding n = 0x80 ∷ (replicate (64 * block_count n - n - 9) 0 ++ big_endian64 (u64 (n * 8)))

unfoldable pub pad : Bytes → Bytes
pad message = message ++ padding (length message)

-- The fold over the first `n` blocks of a message.
unfoldable pub compress : ℕ → Bytes → Words → Words
compress zero message s = s
compress (suc n) message s = compress n (drop 64 message) (sha256_transform s (take 64 message))

unfoldable pub sha256_standard : Bytes → Bytes
sha256_standard message =
    digest (compress (block_count (length message)) (pad message) initial_state)

-- One more block.
pub compress_snoc :
    (n : ℕ) (front block : Bytes) (s : Words)
    → length front ≡ n * 64
    → length block ≡ 64
    → compress (suc n) (front ++ block) s ≡ sha256_transform (compress n front s) block
unfolding compress
compress_snoc zero [] block s hf hb = ap (sha256_transform s) (take_all 64 block (omega arith))
compress_snoc zero (x ∷ front) block s hf hb = absurd (omega arith)
compress_snoc (suc n) front block s hf hb =
    let ih =
      compress_snoc n (drop 64 front) block (sha256_transform s (take 64 front))
        (rw length-drop (omega arith)) hb in
    rw (take-append_le 64 front block (omega arith), drop-append_le 64 front block (omega arith)) ih

-- The mark, the zeros and the length fill the message up to whole blocks.
pub length-padding : (n : ℕ) → n + length (padding n) ≡ 64 * block_count n
unfolding padding block_count big_endian64
length-padding n = rw (length-append, length-replicate) (omega arith)
