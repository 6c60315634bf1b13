-- ===== src/Base/Bits.antt =====
-- The bitwise or of a byte and a number with nothing in its lowest byte is their sum.
use Prim.Native.Nat.{
  ℕ, zero, suc, ◌+◌, ◌*◌, ◌/◌, ◌%◌, ◌≤◌, ◌<◌, max, bit_or, digits, bit_or-bitwise,
}
use mathlib.Core.Path.{◌≡◌, refl}
use native.Mathlib.Omega.{arith}

-- The recursion behind bit_or, with a count of digits to go.
abbrev or_digits : ℕ → ℕ → ℕ → ℕ
or_digits count a b = digits (λ b. b) max count a b

count_enough : (a b c d : ℕ) → a ≤ c → a ≤ d → or_digits c a b ≡ or_digits d a b
count_enough zero b zero zero p q = refl
count_enough zero b zero (suc d) p q = refl
count_enough zero b (suc c) zero p q = refl
count_enough zero b (suc c) (suc d) p q = refl
count_enough (suc a) b zero d p q = absurd (omega arith)
count_enough (suc a) b (suc c) zero p q = absurd (omega arith)
count_enough (suc a) b (suc c) (suc d) p q =
    omega (arith, count_enough (suc a / 2) (b / 2) c d (omega arith) (omega arith))

lowest_digit : (a b : ℕ) → bit_or a b ≡ bit_or (a / 2) (b / 2) * 2 + max (a % 2) (b % 2)
lowest_digit zero b = omega (arith, bit_or-bitwise 0 b, bit_or-bitwise 0 (b / 2))
lowest_digit (suc a) b =
    let tail = suc a / 2 in
    omega (
      arith,
      bit_or-bitwise (suc a) b,
      bit_or-bitwise tail (b / 2),
      count_enough tail (b / 2) a tail (omega arith) (omega arith),
    )

bit_or-zero_below : (bound a : ℕ) → a ≤ bound → bit_or a 0 ≡ a
bit_or-zero_below bound zero h = refl
bit_or-zero_below zero (suc a) h = absurd (omega arith)
bit_or-zero_below (suc bound) (suc a) h =
    omega (arith, lowest_digit (suc a) 0, bit_or-zero_below bound (suc a / 2) (omega arith))

-- One digit: an even number and the low digit of another.
bit_or-even : (a b : ℕ) → bit_or (a * 2) b ≡ bit_or a (b / 2) * 2 + b % 2
bit_or-even a b =
    let half : a * 2 / 2 ≡ a = omega arith in
    let digits_apart = lowest_digit (a * 2) b in ground (arith, digits_apart, half)

bit_or_nibble : (a b : ℕ) → bit_or (a * 16) b ≡ bit_or a (b / 16) * 16 + b % 16
bit_or_nibble a b = ground (
  arith,
  bit_or-even (a * 8) b,
  bit_or-even (a * 4) (b / 2),
  bit_or-even (a * 2) (b / 2 / 2),
  bit_or-even a (b / 2 / 2 / 2),
)

pub bit_or_byte : (a b : ℕ) → b < 256 → bit_or (a * 256) b ≡ a * 256 + b
bit_or_byte a b h =
    ground (arith, bit_or_nibble (a * 16) b, bit_or_nibble a (b / 16), bit_or-zero_below a a)
