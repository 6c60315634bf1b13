-- ===== src/Charge/Manage.antt =====
-- `updateVehicleState` and the state machine `managePwmAndRelay`.
use evse_sync_charge.Base.{ℕ, ℤ, true, false, not, ◌&&◌, List, Option, if◌then◌else◌}
use evse_sync_charge.Float.{Float}
use evse_sync_charge.Types.{
  VehicleState, not_connected, connected, vehicle_ready, ventilation_required, no_power,
  vehicle_error, is_charging, same_vehicle,
}
use evse_sync_charge.Pilot.Read
use evse_sync_charge.Charge.{Evse, is_connected, is_fault, notify_vehicle}
use evse_sync_charge.Charge.Limit.{
  open_relay, close_relay, pilot_standby, pilot_limit, apply_current_limit,
}
use evse_sync_charge.Charge.Control.{stop_charging}

module _ {F : Type 0} ⦃fl : Float F⦄ where
  -- A charging session ends when the vehicle's state is none of B, C and D.
  unfoldable pub evict : Evse F → Evse F
  evict s = if not (is_connected s.vehicle_state) && is_charging s.state then stop_charging s else s

  -- The part of updateVehicleState under `newState != vehicleState`, at the new state.
  unfoldable pub enter_vehicle_state : ℕ → VehicleState → Evse F → Evse F
  unfolding notify_vehicle
  enter_vehicle_state now v s =
      notify_vehicle (apply_current_limit now (evict (record s { vehicle_state = v })))

  -- `cali` and `frames` are what Pilot::read gets from the hardware.
  unfoldable pub update_vehicle_state : Option (ℕ → ℤ) → List (List ℕ) → ℕ → Evse F → Evse F
  update_vehicle_state cali frames now s =
      let pilot' = Read.read cali frames s.pilot in
      let s' = record s { pilot = pilot' } in
      if same_vehicle pilot'.last_vehicle_state s.vehicle_state
      then s'
      else enter_vehicle_state now pilot'.last_vehicle_state s'

  -- The detection of vehicle state transitions.
  unfoldable pub track_faults : Evse F → Evse F
  track_faults s =
      if same_vehicle s.vehicle_state s.last_managed_vehicle_state
      then s
      else (let tracked = record s { last_managed_vehicle_state = s.vehicle_state } in
          if is_fault s.vehicle_state
          then (if s.error_lockout
              then tracked
              else (let locked = record tracked { error_lockout = true } in
                  if is_charging s.state then stop_charging locked else locked))
          else if same_vehicle s.vehicle_state not_connected && s.error_lockout
          then record tracked { error_lockout = false; rcm_tripped = false }
          else tracked)

  -- The `switch`, by the vehicle state.
  unfoldable pub drive_outputs : VehicleState → Evse F → Evse F
  unfolding open_relay close_relay pilot_standby pilot_limit
  drive_outputs not_connected s = open_relay (pilot_standby s)
  drive_outputs connected s = open_relay (if not (is_charging s.state) then pilot_standby s else s)
  drive_outputs vehicle_ready s =
      if is_charging s.state then pilot_limit (close_relay s) else open_relay (pilot_standby s)
  drive_outputs ventilation_required s =
      if is_charging s.state then close_relay (pilot_limit s) else open_relay (pilot_standby s)
  drive_outputs no_power s = open_relay (pilot_standby s)
  drive_outputs vehicle_error s = open_relay (pilot_standby s)

  unfoldable pub manage_pwm_and_relay : Evse F → Evse F
  unfolding open_relay
  manage_pwm_and_relay s =
      if s.current_test
      then open_relay s
      else (let tracked = track_faults s in drive_outputs tracked.vehicle_state tracked)
