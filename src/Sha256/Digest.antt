-- ===== src/Sha256/Digest.antt =====
-- The form of a digest.
use hbf.Base.{◌≡◌, refl, Bytes, IsByte, All, length, bit_and_byte, arith}
use hbf.Sha256.{Words, Context, digest, sha256}

digest-IsByte : (w : Words) → All IsByte (digest w)
unfolding digest
digest-IsByte w = omega (arith, bit_and_byte)

-- A digest is 32 bytes.
pub sha256-IsByte :
    (ctx : Context) (message : Bytes)
    → All IsByte (sha256 ctx message) × (length (sha256 ctx message) ≡ 32)
unfolding sha256
sha256-IsByte ctx message = (digest-IsByte _, refl)
