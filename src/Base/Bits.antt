-- ===== src/Base/Bits.antt =====
-- `|` with a field that lies above, and `&` with a byte mask, as arithmetic.
use Prim.Native.Nat.{
  ◌-◌, ℕ, zero, suc, ◌+◌, ◌*◌, ◌/◌, ◌%◌, ◌^◌, ◌≤◌, ◌<◌, min, max, bit_or, bit_and, digits,
}
use Prim.Native.Nat.{bit_or-bitwise, bit_and-bitwise}
use mathlib.Core.Path.{◌≡◌, refl, ap}
use native.Mathlib.Nat.{pow-suc, le_refl}
use mathlib.Core.Bool.{Bool, true, ◌&&◌}
use native.Mathlib.Omega.{arith}

module _ (z : ℕ → ℕ) (f : ℕ → ℕ → ℕ) where
  -- Fuel beyond the first number changes no digit.
  digits_stable : (n k a b : ℕ) → a ≤ n → a ≤ k → digits z f n a b ≡ digits z f k a b
  digits_stable zero zero a b p q = refl
  digits_stable zero (suc k) zero b p q = refl
  digits_stable zero (suc k) (suc a) b p q = absurd (omega arith)
  digits_stable (suc n) zero zero b p q = refl
  digits_stable (suc n) zero (suc a) b p q = absurd (omega arith)
  digits_stable (suc n) (suc k) zero b p q = refl
  digits_stable (suc n) (suc k) (suc a) b p q =
      omega (arith, digits_stable n k (suc a / 2) (b / 2) (omega arith) (omega arith))

-- The lowest binary digit and the others.
or_halves : (a b : ℕ) → bit_or a b ≡ 2 * bit_or (a / 2) (b / 2) + max (a % 2) (b % 2)
or_halves zero b = omega (arith, bit_or-bitwise 0 b, bit_or-bitwise 0 (b / 2))
or_halves (suc a) b = omega (
  arith,
  bit_or-bitwise (suc a) b,
  bit_or-bitwise (suc a / 2) (b / 2),
  digits_stable (λ y. y) max a (suc a / 2) (suc a / 2) (b / 2) (omega arith) (omega arith),
)

and_halves : (a b : ℕ) → bit_and a b ≡ 2 * bit_and (a / 2) (b / 2) + min (a % 2) (b % 2)
and_halves zero b = omega (arith, bit_and-bitwise 0 b, bit_and-bitwise 0 (b / 2))
and_halves (suc a) b = omega (
  arith,
  bit_and-bitwise (suc a) b,
  bit_and-bitwise (suc a / 2) (b / 2),
  digits_stable (λ y. 0) min a (suc a / 2) (suc a / 2) (b / 2) (omega arith) (omega arith),
)

zero-bit_or : (b : ℕ) → bit_or 0 b ≡ b
zero-bit_or b = bit_or-bitwise 0 b

-- A low field of `k` bits under a shifted one.
pub bit_or_low : (k a b : ℕ) → a < 2 ^ k → bit_or a (b * 2 ^ k) ≡ a + b * 2 ^ k
bit_or_low zero a b h = ground (arith, zero-bit_or (b * 1))
bit_or_low (suc k) a b h =
    let doubled : b * 2 ^ suc k ≡ 2 * (b * 2 ^ k) =
      omega (arith, ap (λ (t : ℕ). b * t) (pow-suc 2 k)) in
    let half : b * 2 ^ suc k / 2 ≡ b * 2 ^ k = omega arith in
    let ih = bit_or_low k (a / 2) b (omega (arith, pow-suc 2 k)) in
    rw doubled (omega (arith, or_halves a (2 * (b * 2 ^ k)), ap (bit_or (a / 2)) (half_of b k), ih))
  where
    half_of : (b k : ℕ) → 2 * (b * 2 ^ k) / 2 ≡ b * 2 ^ k
    half_of b k = omega arith

pub bit_or_comm : (n a b : ℕ) → a ≤ n → b ≤ n → bit_or a b ≡ bit_or b a
bit_or_comm zero zero zero p q = refl
bit_or_comm zero (suc a) b p q = absurd (omega arith)
bit_or_comm zero zero (suc b) p q = absurd (omega arith)
bit_or_comm (suc n) a b p q =
    omega (
      arith,
      or_halves a b,
      or_halves b a,
      bit_or_comm n (a / 2) (b / 2) (omega arith) (omega arith),
    )

and_zero : (n a : ℕ) → a ≤ n → bit_and a 0 ≡ 0
and_zero n zero h = refl
and_zero zero (suc a) h = absurd (omega arith)
and_zero (suc n) (suc a) h =
    omega (arith, and_halves (suc a) 0, and_zero n (suc a / 2) (omega arith))

and_mask_cut : (k hi lo : ℕ) → lo < 2 ^ k → bit_and (lo + hi * 2 ^ k) (2 ^ k - 1) ≡ lo
and_mask_cut zero hi lo h = omega (arith, and_zero _ (lo + hi * 2 ^ 0) (le_refl _))
and_mask_cut (suc k) hi lo h = ground (
  arith,
  and_halves (lo + hi * 2 ^ suc k) (2 ^ suc k - 1),
  ap (λ (t : ℕ). hi * t) (pow-suc 2 k),
  pow-suc 2 k,
  and_mask_cut k hi (lo / 2) (omega (arith, pow-suc 2 k)),
)

-- `x & 0xff`
pub bit_and_byte : (a : ℕ) → bit_and a 0xff ≡ a % 256
bit_and_byte a =
    let cut : a % 256 + a / 256 * 2 ^ 8 ≡ a = omega arith in
    rw cut at (and_mask_cut 8 (a / 256) (a % 256) (omega arith))

-- Over a small range a Boolean statement is checked value by value.
unfoldable pub holds_below : ℕ → (ℕ → Bool) → Bool
holds_below zero p = true
holds_below (suc n) p = p n && holds_below n p

pub holds_below_elim : (n : ℕ) (p : ℕ → Bool) (x : ℕ) → holds_below n p ≡ true → x < n → p x ≡ true
unfolding holds_below
holds_below_elim zero p x h lt = absurd (omega arith)
holds_below_elim (suc n) p x h lt = ground (arith, holds_below_elim n p x)
