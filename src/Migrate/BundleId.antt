-- ===== src/Migrate/BundleId.antt =====
-- The form of a bundle's id.
use hbf.Base.{
  ℕ, ◌*◌, ◌/◌, ◌%◌, ◌≤◌, ◌<◌, ◌≡◌, refl, ◌⊎◌, inl, inr, Bool-cases, ltb, ltb→lt, ltb→ge, [], ◌∷◌,
  Bytes, IsByte, All, length, hex_digit, arith,
}
use hbf.Sha256.{Context, sha256}
use hbf.Sha256.Digest.{sha256-IsByte}
use hbf.Migrate.{hex_bytes, compute_bundle_id}

-- A digit or a letter from a to f.
abbrev pub IsHex : ℕ → Type 0
IsHex c = ((b'0' ≤ c) × (c ≤ b'9')) ⊎ ((b'a' ≤ c) × (c ≤ b'f'))

hex_digit-IsHex : (d : ℕ) → d < 16 → IsHex (hex_digit d)
unfolding hex_digit
hex_digit-IsHex d h = elim (Bool-cases (ltb d 10)) [
  | inl e ↦ rw e (inl (omega (arith, ltb→lt d 10 e)))
  | inr e ↦ rw e (inr (omega (arith, ltb→ge d 10 e)))
]

hex_bytes-IsHex :
    (bs : Bytes)
    → All IsByte bs
    → All IsHex (hex_bytes bs) × (length (hex_bytes bs) ≡ 2 * length bs)
unfolding hex_bytes
hex_bytes-IsHex [] h = (tt, refl)
hex_bytes-IsHex (b ∷ bs) (h, hs) =
    let (digits, count) = hex_bytes-IsHex bs hs in
    (
      (hex_digit-IsHex (b / 16) (omega arith), (hex_digit-IsHex (b % 16) (omega arith), digits)),
      omega (arith, count),
    )

-- Whatever the bundle, its id is 64 lower-case hexadecimal digits, which with the NUL fill the
-- caller's array of 65 characters.
pub compute_bundle_id-IsHex :
    (ctx : Context) (blob : Bytes)
    → All IsHex (compute_bundle_id ctx blob) × (length (compute_bundle_id ctx blob) ≡ 64)
unfolding compute_bundle_id
compute_bundle_id-IsHex ctx blob =
    let (bytes, count) = sha256-IsByte ctx blob in
    let (digits, twice) = hex_bytes-IsHex (sha256 ctx blob) bytes in
    (digits, omega (arith, twice, count))
