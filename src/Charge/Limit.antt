-- ===== src/Charge/Limit.antt =====
-- The current limit: `applyCurrentLimit`, `checkResumeFromLowLimit` and the setters that apply it.
use evse_sync_charge.Base.{ℕ, ◌-◌, Bool, true, false, not, ◌&&◌, leb, if◌then◌else◌}
use evse_sync_charge.Float.{Float}
use evse_sync_charge.Types.{is_charging}
use evse_sync_charge.Relay
use evse_sync_charge.Pilot
use evse_sync_charge.Pilot.{min_current}
use evse_sync_charge.Charge.{Evse, is_connected, asks_power}

-- The time since the pause, 0 if the clock reads less than at the pause.
abbrev pub elapsed_since : ℕ → ℕ → ℕ
elapsed_since since now = if leb since now then now - since else 0

module _ {F : Type 0} ⦃fl : Float F⦄ where
  unfoldable pub open_relay : Evse F → Evse F
  unfolding Relay.request_open
  open_relay s = record s { relay = Relay.request_open s.relay }

  unfoldable pub close_relay : Evse F → Evse F
  unfolding Relay.request_close
  close_relay s = record s { relay = Relay.request_close s.relay }

  unfoldable pub pilot_standby : Evse F → Evse F
  unfolding Pilot.standby
  pilot_standby s = record s { pilot = Pilot.standby s.pilot }

  unfoldable pub pilot_limit : Evse F → Evse F
  unfolding Pilot.current_limit
  pilot_limit s = record s { pilot = Pilot.current_limit s.current_limit s.pilot }

  -- The relay follows the vehicle's request for power.
  unfoldable pub follow_vehicle : Evse F → Evse F
  unfolding open_relay close_relay
  follow_vehicle s =
      if is_charging s.state && asks_power s.vehicle_state then close_relay s else open_relay s

  -- The branch `currentLimit >= MIN_CURRENT` of a charging session with a vehicle.
  unfoldable pub apply_sufficient : ℕ → Evse F → Evse F
  unfolding pilot_limit follow_vehicle
  apply_sufficient now s =
      if s.paused_at_low_limit
      then (if leb s.settings.low_limit_resume_delay_ms (elapsed_since s.paused_since now)
          then follow_vehicle (record (pilot_limit s) { paused_at_low_limit = false })
          else s)
      else follow_vehicle (pilot_limit s)

  -- The branch below MIN_CURRENT: a pause, or throttling.
  unfoldable pub apply_low : ℕ → Evse F → Evse F
  unfolding pilot_limit open_relay
  apply_low now s =
      if s.settings.disable_at_low_limit
      then (let paused = open_relay (pilot_limit s) in
          if paused.paused_at_low_limit
          then paused
          else record paused { paused_at_low_limit = true; paused_since = now })
      else record (pilot_limit s) { paused_at_low_limit = false }

  -- At most one reading of the clock is made, whichever branch is taken.
  unfoldable pub apply_current_limit : ℕ → Evse F → Evse F
  unfolding apply_sufficient apply_low pilot_standby open_relay
  apply_current_limit now s =
      if s.current_test
      then open_relay s
      else if not (is_charging s.state)
      then open_relay (pilot_standby s)
      else if is_connected s.vehicle_state
      then (if fl.le min_current s.current_limit then apply_sufficient now s else apply_low now s)
      else record (pilot_standby (open_relay s)) { paused_at_low_limit = false }

  -- `applied` is the reading that applyCurrentLimit makes.
  unfoldable pub check_resume_from_low_limit : ℕ → ℕ → Evse F → Evse F
  check_resume_from_low_limit now applied s =
      if s.paused_at_low_limit && fl.le min_current s.current_limit
      then (if leb s.settings.low_limit_resume_delay_ms (elapsed_since s.paused_since now)
          then apply_current_limit applied s
          else s)
      else s

  -- The two clamps at the head of setCurrentLimit.
  unfoldable pub clamp_amps : F → F → F
  clamp_amps maximum amps =
      let raised = if fl.lt amps (fl.lit 0 0) then fl.lit 0 0 else amps in
      if fl.lt maximum raised then maximum else raised

  unfoldable pub set_current_limit : ℕ → F → Evse F → Evse F
  unfolding clamp_amps
  set_current_limit now amps s =
      let clamped = clamp_amps s.settings.max_current amps in
      if not (fl.eq clamped s.current_limit)
      then apply_current_limit now (record s { current_limit = clamped })
      else s

  unfoldable pub set_allow_below_6_amp_charging : ℕ → Bool → Evse F → Evse F
  set_allow_below_6_amp_charging now allow s =
      apply_current_limit now
        (record s { settings = record (s.settings) { disable_at_low_limit = not allow } })
