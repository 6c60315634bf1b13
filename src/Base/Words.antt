-- ===== src/Base/Words.antt =====
-- `unsigned long` is 32 bits wide on the ESP32, and its arithmetic wraps.
use Prim.Native.Nat.{ℕ, ◌+◌, ◌-◌, ◌*◌, ◌%◌, ◌≤◌, ◌<◌}
use mathlib.Core.Path.{◌≡◌}
use native.Mathlib.Omega.{arith}

abbrev pub u32_mod : ℕ
u32_mod = 4294967296

abbrev pub add32 : ℕ → ℕ → ℕ
add32 a b = (a + b) % u32_mod

abbrev pub sub32 : ℕ → ℕ → ℕ
sub32 a b = (a + u32_mod - b) % u32_mod

abbrev pub mul32 : ℕ → ℕ → ℕ
mul32 a b = a * b % u32_mod

-- The difference of two clock readings is exact while the clock has not wrapped in between.
pub sub32-eq-sub : (a b : ℕ) → b ≤ a → a < u32_mod → sub32 a b ≡ a - b
sub32-eq-sub a b h k = omega arith
