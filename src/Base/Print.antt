-- ===== src/Base/Print.antt =====
-- The numbers that the printf family writes, and what they read back as.
use Prim.Native.Nat.{ℕ, zero, suc, ◌+◌, ◌-◌, ◌*◌, ◌/◌, ◌%◌, ◌^◌, ◌<◌}
use mathlib.Core.Path.{◌≡◌, refl}
use mathlib.Core.Logic.{inl, inr}
use mathlib.Core.List.{[], ◌∷◌, ◌++◌}
use native.Mathlib.Nat.{pow-suc}
use native.Mathlib.Omega.{arith}
use hbf.Base.Tests.{ltb, if◌then◌else◌, Bool-cases}
use hbf.Base.Text.{Bytes}

-- A digit of "%x".
unfoldable pub hex_digit : ℕ → ℕ
hex_digit d = if ltb d 10 then 48 + d else 87 + d

-- "%02x" of a byte.
unfoldable pub print_hex : ℕ → Bytes
unfolding hex_digit
print_hex b = hex_digit (b / 16) ∷ hex_digit (b % 16) ∷ []

-- "%zu", with at most `fuel` digits.
unfoldable pub print_digits : ℕ → ℕ → Bytes
print_digits zero n = []
print_digits (suc fuel) n =
    let rest = print_digits fuel (n / 10) in
    if ltb n 10 then (48 + n) ∷ [] else rest ++ (48 + n % 10) ∷ []

-- A `size_t` has at most twenty digits.
unfoldable pub print_size : ℕ → Bytes
unfolding print_digits
print_size n = print_digits 20 n

-- The digit that a character of "%x" stands for.
unfoldable pub hex_value : ℕ → ℕ
hex_value c = if ltb c 58 then c - 48 else c - 87

pub hex_value-hex_digit : (d : ℕ) → d < 16 → hex_value (hex_digit d) ≡ d
unfolding hex_value hex_digit
hex_value-hex_digit d h = ground arith

-- The number that decimal digits stand for.
unfoldable pub read10 : ℕ → Bytes → ℕ
read10 acc [] = acc
read10 acc (c ∷ cs) = read10 (acc * 10 + (c - 48)) cs

read10-snoc : (acc c : ℕ) (cs : Bytes) → read10 acc (cs ++ c ∷ []) ≡ read10 acc cs * 10 + (c - 48)
unfolding read10
read10-snoc acc c [] = refl
read10-snoc acc c (d ∷ cs) = read10-snoc (acc * 10 + (d - 48)) c cs

pub read10-print_digits : (fuel n : ℕ) → n < 10 ^ fuel → read10 0 (print_digits fuel n) ≡ n
read10-print_digits zero n h = unfold print_digits read10 in omega arith
read10-print_digits (suc fuel) n h =
    last (read10-print_digits fuel (n / 10) (omega (arith, pow-suc 10 fuel)))
  where
    last : read10 0 (print_digits fuel (n / 10)) ≡ n / 10 → read10 0 (print_digits (suc fuel) n) ≡ n
    last ih = elim (Bool-cases (ltb n 10)) [
      | inl e ↦ unfold print_digits in rw e (unfold read10 in omega arith)
      | inr e ↦
          unfold print_digits in
          rw e (rw (read10-snoc 0 (48 + n % 10) (print_digits fuel (n / 10)), ih) (omega arith))
    ]
