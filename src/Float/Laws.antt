-- ===== src/Float/Laws.antt =====
-- What the proofs assume of the floating-point operations: facts of IEEE 754 single precision with
-- rounding to nearest, at the constants of the program.
use evse_sync_charge.Base.{◌≡◌, true, false}
use evse_sync_charge.Float.{Float}

module _ {F : Type 0} ⦃fl : Float F⦄ where
  infix 4 ◌≼◌
  abbrev pub ◌≼◌ : F → F → Type 0
  x ≼ y = fl.le x y ≡ true

  -- NaN is the value that is not `<=` itself.
  abbrev pub IsNum : F → Type 0
  IsNum x = x ≼ x

  -- NaN is in no order to any value.
  abbrev pub IsNan : F → Type 0
  IsNan x =
      (y : F)
      → (fl.lt x y ≡ false)
        × (fl.lt y x ≡ false)
        × (fl.le x y ≡ false)
        × (fl.le y x ≡ false)
        × (fl.eq x y ≡ false)

-- Comparisons, and the operations of the pilot's duty cycle, which are monotone with rounding.
pub record IsRounded (F : Type 0) ⦃fl : Float F⦄ : Type 0 where
  pub refl_of_le : (x y : F) → x ≼ y → (x ≼ x) × (y ≼ y)
  pub le_trans : (x y z : F) → x ≼ y → y ≼ z → x ≼ z
  pub le_of_lt : (x y : F) → fl.lt x y ≡ true → x ≼ y
  pub le_of_not_lt : (x y : F) → x ≼ x → y ≼ y → fl.lt x y ≡ false → y ≼ x
  pub le_of_not_le : (x y : F) → x ≼ x → y ≼ y → fl.le x y ≡ false → y ≼ x
  pub lt_of_lt_le : (x y z : F) → fl.lt x y ≡ true → y ≼ z → fl.lt x z ≡ true
  pub lt_irrefl : (x : F) → fl.lt x x ≡ false
  pub le_zero_six : fl.lit 0 0 ≼ fl.lit 6 0
  pub le_six_eighty : fl.lit 6 0 ≼ fl.lit 80 0
  pub le_six_fifty_one : fl.lit 6 0 ≼ fl.lit 51 0
  pub le_85_96 : fl.lit 85 0 ≼ fl.lit 96 0
  pub le_10_844 : fl.lit 10 0 ≼ fl.add (fl.div (fl.lit 51 0) (fl.lit 25 1)) (fl.lit 64 0)
  -- Division by the positive constants 0.6f and 2.5f, and the addition of 64.0f, are monotone.
  pub div_low_mono : (x y : F) → x ≼ y → fl.div x (fl.lit 6 1) ≼ fl.div y (fl.lit 6 1)
  pub div_high_mono : (x y : F) → x ≼ y → fl.div x (fl.lit 25 1) ≼ fl.div y (fl.lit 25 1)
  pub add_64_mono : (x y : F) → x ≼ y → fl.add x (fl.lit 64 0) ≼ fl.add y (fl.lit 64 0)
  -- The results 6 / 0.6f = 10, 51 / 0.6f = 85 and 80 / 2.5f + 64 = 96 round to these literals.
  pub six_low : fl.div (fl.lit 6 0) (fl.lit 6 1) ≡ fl.lit 10 0
  pub fifty_one_low : fl.div (fl.lit 51 0) (fl.lit 6 1) ≡ fl.lit 85 0
  pub eighty_high : fl.add (fl.div (fl.lit 80 0) (fl.lit 25 1)) (fl.lit 64 0) ≡ fl.lit 96 0
