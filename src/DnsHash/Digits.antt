-- ===== src/DnsHash/Digits.antt =====
-- The hash as a number written in base 36.
use hbf.Sha256.Digest.{sha256-IsByte}
use hbf.Base.{
  ℕ, zero, suc, ◌+◌, ◌-◌, ◌*◌, ◌/◌, ◌%◌, ◌^◌, ◌≤◌, ◌<◌, ◌≡◌, refl, ◌∙◌, ap, Bool, true, ◌&&◌, ◌||◌,
  some, [], ◌∷◌, Bytes, arith, ◌==◌, holds_below, holds_below_elim, bit_or, bit_or_low, bit_or_comm,
  get_or, leb, if◌then◌else◌, All, IsByte, length, take, ◌⊎◌,
}
use native.Mathlib.Nat.{pow-suc, one-le-pow}
use hbf.Sha256.{Context, u64, sha256}
use hbf.Sha256.Padding.{sha256_standard}
use hbf.Sha256.Finish.{sha256-eq-sha256_standard}
use hbf.DnsHash.{base36, take_bytes, put_digits, hbf_dns_safe_hash}

-- A digit or a lower-case letter.
abbrev pub IsDnsSafe : ℕ → Type 0
IsDnsSafe c = ((48 ≤ c) × (c ≤ 57)) ⊎ ((97 ≤ c) × (c ≤ 122))

-- The number that a digit stands for, and the number that a text stands for in base 36.
unfoldable pub digit_value : ℕ → ℕ
digit_value c = if leb c 57 then c - 48 else c - 87

unfoldable pub read36 : ℕ → Bytes → ℕ
unfolding digit_value
read36 acc [] = acc
read36 acc (c ∷ cs) = read36 (acc * 36 + digit_value c) cs

-- The bytes of a text as one number, the first most significant.
unfoldable pub big_endian : ℕ → Bytes → ℕ
big_endian acc [] = acc
big_endian acc (b ∷ bs) = big_endian (acc * 256 + b) bs

is_dns_safe : ℕ → Bool
is_dns_safe c = (leb 48 c && leb c 57) || (leb 97 c && leb c 122)

base36_check :
    holds_below 36 (λ d. digit_value (get_or base36 d 0) == d && is_dns_safe (get_or base36 d 0))
    ≡ true
unfolding holds_below digit_value is_dns_safe
base36_check = refl

base36_digit :
    (d : ℕ) → d < 36 → (digit_value (get_or base36 d 0) ≡ d) × IsDnsSafe (get_or base36 d 0)
base36_digit d h = split (get_or base36 d 0) (holds_below_elim 36 _ d base36_check h)
  where
    split :
        (c : ℕ) → (digit_value c == d && is_dns_safe c) ≡ true → (digit_value c ≡ d) × IsDnsSafe c
    split c e = unfold is_dns_safe in ground arith

read36_step : (acc c : ℕ) (cs : Bytes) → read36 acc (c ∷ cs) ≡ read36 (acc * 36 + digit_value c) cs
unfolding read36
read36_step acc c cs = refl

-- The text that `put_digits` writes is the number modulo a power of 36, read before `out`.
put_digits_lem :
    (n num : ℕ) (out : Bytes)
    → (q v : ℕ) × (num ≡ q * 36 ^ n + v)
      × (v < 36 ^ n)
      × ((acc : ℕ) → read36 acc (put_digits n num out) ≡ read36 (acc * 36 ^ n + v) out)
unfolding put_digits
put_digits_lem zero num out =
    (num, 0, omega arith, omega arith, λ acc. ap (λ a. read36 a out) (omega arith))
put_digits_lem (suc n) num out =
    let (q, v, e, lt, reads) = put_digits_lem n (num / 36) (get_or base36 (num % 36) 0 ∷ out) in
    let digit = (base36_digit (num % 36) (omega arith)).0 in
    (
      q,
      v * 36 + num % 36,
      omega (arith, e, ap (λ (t : ℕ). q * t) (pow-suc 36 n)),
      omega (arith, lt, pow-suc 36 n),
      λ acc.
          reads acc
          ∙ read36_step (acc * 36 ^ n + v) (get_or base36 (num % 36) 0) out
          ∙ ap (λ a. read36 a out) (omega (arith, digit, ap (λ (t : ℕ). acc * t) (pow-suc 36 n))),
    )

put_digits-IsDnsSafe :
    (n num : ℕ) (out : Bytes)
    → All IsDnsSafe out
    → All IsDnsSafe (put_digits n num out) × (length (put_digits n num out) ≡ n + length out)
unfolding put_digits
put_digits-IsDnsSafe zero num out h = (h, omega arith)
put_digits-IsDnsSafe (suc n) num out h =
    let (digit, safe) = base36_digit (num % 36) (omega arith) in
    let (all_safe, len) =
      put_digits-IsDnsSafe n (num / 36) (get_or base36 (num % 36) 0 ∷ out) (safe, h) in
    (all_safe, omega (arith, len))

-- The bytes at `i` and after, as far as `n` of them.
abbrev bytes_from : ℕ → ℕ → Bytes → Bytes
bytes_from zero i hash = []
bytes_from (suc n) i hash = get_or hash i 0 ∷ bytes_from n (i + 1) hash

get_or-IsByte : (hash : Bytes) (i : ℕ) → All IsByte hash → get_or hash i 0 < 256
get_or-IsByte [] i h = omega arith
get_or-IsByte (b ∷ bs) zero h = h.0
get_or-IsByte (b ∷ bs) (suc i) h = get_or-IsByte bs i h.1

-- One round, while the number has room for another byte.
shift_in : (num b : ℕ) → num < 2 ^ 56 → b < 256 → bit_or (u64 (num * 2 ^ 8)) b ≡ num * 256 + b
shift_in num b fits byte =
    let room : u64 (num * 2 ^ 8) ≡ num * 2 ^ 8 = omega arith in
    rw room (
      omega (
        arith,
        bit_or_comm (num * 2 ^ 8 + b) (num * 2 ^ 8) b (omega arith) (omega arith),
        bit_or_low 8 b num byte,
      ))

room_for_byte :
    (num b p : ℕ)
    → b < 256
    → 0 < p
    → (num + 1) * (p * 256) ≤ 2 ^ 64
    → (num < 2 ^ 56) × ((num * 256 + b + 1) * p ≤ 2 ^ 64)
room_for_byte num b p byte pos room = (omega (arith, first), omega (arith, second))
  where
    first : (num + 1) * 256 ≤ (num + 1) * (p * 256)
    first = grind arith

    second : (num * 256 + b + 1) * p ≤ (num * 256 + 256) * p
    second = grind arith

take_bytes_lem :
    (n i num : ℕ) (hash : Bytes)
    → All IsByte hash
    → (num + 1) * 256 ^ n ≤ 2 ^ 64
    → take_bytes n i hash num ≡ big_endian num (bytes_from n i hash)
unfolding take_bytes big_endian
take_bytes_lem zero i num hash h room = refl
take_bytes_lem (suc n) i num hash h room =
    let byte = get_or-IsByte hash i h in
    let (fits, rest) =
      room_for_byte num (get_or hash i 0) (256 ^ n) byte (one-le-pow n 256 (omega arith))
        (rw (pow-suc 256 n) at room) in
    rw (shift_in num (get_or hash i 0) fits byte)
      (take_bytes_lem n (i + 1) (num * 256 + get_or hash i 0) hash h rest)

-- A digest is 32 bytes, and has eight at its start.
pub sha256_shape :
    (ctx : Context) (input : Bytes)
    → All IsByte (sha256 ctx input)
      × (length (sha256 ctx input) ≡ 32)
      × (bytes_from 8 0 (sha256 ctx input) ≡ take 8 (sha256 ctx input))
unfolding sha256
sha256_shape ctx input = let shape = sha256-IsByte ctx input in (shape.0, shape.1, refl)

-- The eight characters are digits and lower-case letters, and as a number in base 36 they are the
-- first eight bytes of the SHA-256 of the input, modulo 36 ^ 8.
pub hbf_dns_safe_hash_lem :
    (ctx : Context) (input : Bytes)
    → length ctx.buffer ≡ 64
    → (out : Bytes) × (hbf_dns_safe_hash ctx (some input) true ≡ some out)
      × (length out ≡ 8)
      × All IsDnsSafe out
      × (read36 0 out ≡ big_endian 0 (take 8 (sha256_standard input)) % 36 ^ 8)
hbf_dns_safe_hash_lem ctx input room =
    let hash = sha256 ctx input in
    let num = take_bytes 8 0 hash 0 in
    let (bytes, _, first_eight) = sha256_shape ctx input in
    let (q, v, e, lt, reads) = put_digits_lem 8 num [] in
    let (safe, eight) = put_digits-IsDnsSafe 8 num [] tt in
    (
      put_digits 8 num [],
      unfold hbf_dns_safe_hash in refl,
      eight,
      safe,
      reads 0
          ∙ unfold read36 in
            omega (
              arith,
              e,
              lt,
              take_bytes_lem 8 0 0 hash bytes (omega arith),
              ap (big_endian 0) first_eight,
              ap (λ (h : Bytes). big_endian 0 (take 8 h))
                  (sha256-eq-sha256_standard ctx input room),
            ),
    )
