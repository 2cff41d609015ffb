-- ===== src/Tests/Hashes.antt =====
-- The hashes of short inputs.
use hbf.Base.{◌%◌, ◌^◌, ◌≡◌, refl, true, some, [], ◌∷◌, Bytes, codes, length, take, replicate, All}
use hbf.Sha256.{Context, sha256, sha256_transform, initial_state}
use hbf.Sha256.Padding.{sha256_standard}
use hbf.Migrate.{compute_bundle_id}
use hbf.Migrate.BundleId.{IsHex, compute_bundle_id-IsHex}
use hbf.DnsHash.{hbf_dns_safe_hash}
use hbf.DnsHash.Digits.{IsDnsSafe, read36, big_endian, hbf_dns_safe_hash_lem}

-- A context as the stack may hold it.
abbrev pub stale : Context
stale = record { buffer = replicate 64 170; datalen = 9; bitlen = 3; state = initial_state }

abc-hash : sha256 stale (codes "abc") ≡ (
    0xba ∷ 0x78 ∷ 0x16 ∷ 0xbf ∷ 0x8f ∷ 0x01 ∷ 0xcf ∷ 0xea ∷ 0x41 ∷ 0x41 ∷ 0x40 ∷ 0xde ∷ 0x5d ∷ 0xae
    ∷ 0x22 ∷ 0x23 ∷ 0xb0 ∷ 0x03 ∷ 0x61 ∷ 0xa3 ∷ 0x96 ∷ 0x17 ∷ 0x7a ∷ 0x9c ∷ 0xb4 ∷ 0x10 ∷ 0xff
    ∷ 0x61 ∷ 0xf2 ∷ 0x00 ∷ 0x15 ∷ 0xad ∷ [])
unfolding sha256 sha256_transform
abc-hash = refl

hbf_dns_safe_hash_lem_example :
    (out : Bytes) × (hbf_dns_safe_hash stale (some (codes "abc")) true ≡ some out)
    × (length out ≡ 8)
    × All IsDnsSafe out
    × (read36 0 out ≡ big_endian 0 (take 8 (sha256_standard (codes "abc"))) % 36 ^ 8)
hbf_dns_safe_hash_lem_example = hbf_dns_safe_hash_lem stale (codes "abc") refl

compute_bundle_id-IsHex_example :
    All IsHex (compute_bundle_id stale (codes "abc"))
    × (length (compute_bundle_id stale (codes "abc")) ≡ 64)
compute_bundle_id-IsHex_example = compute_bundle_id-IsHex stale (codes "abc")
