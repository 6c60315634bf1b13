-- ===== src/Charge/Range.antt =====
-- The range of the current limit.
use evse_sync_charge.Base.{ℕ, ◌≡◌, false, arith}
use evse_sync_charge.Float.{Float}
use evse_sync_charge.Float.Laws.{IsRounded, IsNan}
use evse_sync_charge.Charge.{Evse}
use evse_sync_charge.Charge.Limit.{apply_current_limit, clamp_amps, set_current_limit}
use evse_sync_charge.Charge.Loop.{ramp_target, throttle_alive}

module _ {F : Type 0} ⦃fl : Float F⦄ where
  apply-limit :
      (now : ℕ) (s : Evse F)
      → let r = apply_current_limit now s in
        (r.current_limit ≡ s.current_limit) × (r.settings ≡ s.settings)
  unfolding apply_current_limit
  apply-limit now s = ground arith

  -- Neither below 0 A nor above the maximum.
  abbrev pub IsWithin : F → F → Type 0
  IsWithin maximum amps = (fl.lt amps (fl.lit 0 0) ≡ false) × (fl.lt maximum amps ≡ false)

  -- A limit within 0 A and a non-negative configured maximum stays within them whatever value, NaN
  -- included, setCurrentLimit is given.
  pub set_limit-IsWithin :
      IsRounded F
      → (now : ℕ) (amps : F) (s : Evse F) → fl.lt s.settings.max_current (fl.lit 0 0) ≡ false
      → IsWithin s.settings.max_current s.current_limit
      → IsWithin s.settings.max_current (set_current_limit now amps s).current_limit
  unfolding set_current_limit
  set_limit-IsWithin laws now amps s m v =
      let limit = clamp_amps s.settings.max_current amps in
      ground (
        arith,
        laws.lt_irrefl (fl.lit 0 0),
        laws.lt_irrefl s.settings.max_current,
        apply-limit now (record s { current_limit = limit }),
      )

  -- NaN passes both clamps of setCurrentLimit and becomes the current limit.
  pub set_limit_nan :
      (now : ℕ) (amps : F) (s : Evse F)
      → IsNan amps
      → (set_current_limit now amps s).current_limit ≡ amps
  unfolding set_current_limit
  set_limit_nan now amps s n = ground (
    arith,
    n (fl.lit 0 0),
    n s.settings.max_current,
    n s.current_limit,
    apply-limit now (record s { current_limit = amps }),
  )

  -- ThrottleAlive never takes the current limit below 6 A: if the limit and the configured maximum
  -- are not below 6 A before its step, the limit is not below 6 A after it.
  pub throttle_floor :
      IsRounded F
      → (now applied : ℕ) (s : Evse F) → fl.lt s.settings.max_current (fl.lit 6 0) ≡ false
      → fl.lt s.current_limit (fl.lit 6 0) ≡ false
      → fl.lt (throttle_alive now applied s).current_limit (fl.lit 6 0) ≡ false
  unfolding throttle_alive set_current_limit
  throttle_floor laws now applied s m v =
      let target = ramp_target s.current_limit in
      let limit = clamp_amps s.settings.max_current target in
      ground (
        arith,
        laws.lt_irrefl (fl.lit 6 0),
        laws.lt_of_lt_le target (fl.lit 0 0) (fl.lit 6 0),
        laws.le_zero_six,
        apply-limit applied (record s { current_limit = limit }),
      )
