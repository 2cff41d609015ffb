-- ===== src/DnsHash.antt =====
-- `hbf_dns_safe_hash` of hbf/shell/hash.c.
pub mod Digits
use hbf.Base.{
  ℕ, zero, suc, ◌+◌, ◌*◌, ◌/◌, ◌%◌, ◌^◌, Bool, true, false, Option, none, some, List, [], ◌∷◌,
  Bytes, codes, bit_or, get_or, if◌then◌else◌, not,
}
use hbf.Sha256.{Context, u64, sha256}

-- static const char base36[]
abbrev pub base36 : Bytes
base36 = codes "0123456789abcdefghijklmnopqrstuvwxyz"

-- num = (num << 8) | hash[i], with `n` rounds left.
unfoldable pub take_bytes : ℕ → ℕ → Bytes → ℕ → ℕ
take_bytes zero i hash num = num
take_bytes (suc n) i hash num =
    take_bytes n (i + 1) hash (bit_or (u64 (num * 2 ^ 8)) (get_or hash i 0))

-- output[i] = base36[num % 36]; num /= 36, from the last index down: `out` has what stands behind.
unfoldable pub put_digits : ℕ → ℕ → Bytes → Bytes
put_digits zero num out = out
put_digits (suc n) num out = put_digits n (num / 36) (get_or base36 (num % 36) 0 ∷ out)

-- `none` is the -1 for a NULL argument; the result is the output without its final NUL. The
-- context is the local variable `ctx`, with whatever was on the stack.
unfoldable pub hbf_dns_safe_hash : Context → Option Bytes → Bool → Option Bytes
unfolding take_bytes put_digits
hbf_dns_safe_hash ctx none output = none
hbf_dns_safe_hash ctx (some input) output =
    if not output then none else some (put_digits 8 (take_bytes 8 0 (sha256 ctx input) 0) [])
