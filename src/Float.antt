-- ===== src/Float.antt =====
-- C++ `float`, which has no counterpart here: an interface of the operations that the program uses.
-- Comparisons are Boolean and all false at NaN, so `lt a b` and `not (le b a)` are different tests.
pub mod Laws
pub mod Milli
use evse_sync_charge.Base.{ℕ, ℤ, Bool}

pub record Float (F : Type 0) : Type 0 where
  pub lt : F → F → Bool
  pub le : F → F → Bool
  pub eq : F → F → Bool
  pub add : F → F → F
  pub sub : F → F → F
  pub mul : F → F → F
  pub div : F → F → F
  pub fabs : F → F
  -- `lit n k` is the literal n / 10^k: `lit 6 0` is 6.0f and `lit 69 1` is 6.90f.
  pub lit : ℕ → ℕ → F
  -- (float)z, (int)f, and (uint32_t)roundf(f).
  pub of_int : ℤ → F
  pub to_int : F → ℤ
  pub round : F → ℕ
