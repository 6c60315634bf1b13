-- ===== src/Pilot/Duty.antt =====
-- The duty cycle that stands for a current.
use evse_sync_charge.Base.{◌≡◌, inl, inr, true, false, Bool-cases, arith}
use evse_sync_charge.Float.{Float}
use evse_sync_charge.Float.Laws.{IsRounded, ◌≼◌, IsNum}
use evse_sync_charge.Pilot.{constrain, amps_to_duty, min_current, max_current, low_range_max_amps}

module _ {F : Type 0} ⦃fl : Float F⦄ (laws : IsRounded F) where
  pub constrain_bounds :
      (amps : F)
      → IsNum amps
      → let r = constrain amps min_current max_current in (min_current ≼ r) × (r ≼ max_current)
  unfolding constrain
  constrain_bounds amps n = ground (
    arith,
    laws.le_of_not_lt amps min_current n,
    laws.le_of_not_lt max_current amps,
    laws.le_six_eighty,
    laws.refl_of_le min_current max_current,
    laws.refl_of_le amps max_current,
  )

  low_duty_bounds :
      (x : F)
      → min_current ≼ x
      → x ≼ low_range_max_amps
      → let d = fl.div x (fl.lit 6 1) in (fl.lit 10 0 ≼ d) × (d ≼ fl.lit 96 0)
  low_duty_bounds x l h =
      let below : fl.div x (fl.lit 6 1) ≼ fl.lit 85 0 =
        rw laws.fifty_one_low at (laws.div_low_mono _ _ h) in
      (
        rw laws.six_low at (laws.div_low_mono _ _ l),
        laws.le_trans _ (fl.lit 85 0) _ below laws.le_85_96,
      )

  high_duty_bounds :
      (x : F)
      → min_current ≼ x
      → x ≼ max_current
      → fl.le x low_range_max_amps ≡ false
      → let d = fl.add (fl.div x (fl.lit 25 1)) (fl.lit 64 0) in
        (fl.lit 10 0 ≼ d) × (d ≼ fl.lit 96 0)
  high_duty_bounds x l m h =
      let num = (laws.refl_of_le _ _ l).1 in
      let fifty_one = (laws.refl_of_le _ _ laws.le_six_fifty_one).1 in
      let above = laws.le_of_not_le _ _ num fifty_one h in
      let from_51 = laws.add_64_mono _ _ (laws.div_high_mono _ _ above) in
      (
        laws.le_trans _ _ _ laws.le_10_844 from_51,
        rw laws.eighty_high at (laws.add_64_mono _ _ (laws.div_high_mono _ _ m)),
      )

  -- For every current but NaN the duty cycle lies between 10 % and 96 %, the range in which SAE J1772
  -- signals a current.
  pub amps_to_duty_bounds :
      (amps : F)
      → IsNum amps
      → (fl.lit 10 0 ≼ amps_to_duty amps) × (amps_to_duty amps ≼ fl.lit 96 0)
  unfolding amps_to_duty
  amps_to_duty_bounds amps n =
      let (low, high) = constrain_bounds amps n in
      elim (Bool-cases (fl.le (constrain amps min_current max_current) low_range_max_amps)) [
        | inl e ↦ rw e (low_duty_bounds _ low e)
        | inr e ↦ rw e (high_duty_bounds _ low high e)
      ]

  -- Every current below 6 A is signalled as 6 A: the duty cycle is 10 %.
  pub amps_to_duty_low :
      (amps : F) → fl.lt amps min_current ≡ true → amps_to_duty amps ≡ fl.lit 10 0
  unfolding amps_to_duty constrain
  amps_to_duty_low amps h = ground (arith, laws.six_low, laws.le_six_fifty_one)
