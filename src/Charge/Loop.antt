-- ===== src/Charge/Loop.antt =====
-- `EvseCharge::loop`, one pass, by its parts in the order of the code.
use evse_sync_charge.Base.{
  ℕ, ℤ, Bool, true, not, ◌&&◌, List, Option, ltb, leb, sub32, mul32, if◌then◌else◌,
}
use evse_sync_charge.Float.{Float}
use evse_sync_charge.Types.{is_charging}
use evse_sync_charge.Relay
use evse_sync_charge.Rcm
use evse_sync_charge.Charge.{Evse, is_connected}
use evse_sync_charge.Charge.Limit.{open_relay, set_current_limit, check_resume_from_low_limit}
use evse_sync_charge.Charge.Control.{StartReadings, fail_self_test, start_charging, stop_charging}
use evse_sync_charge.Charge.Manage.{update_vehicle_state, manage_pwm_and_relay}

-- What one pass reads, in the order of the code: the monitor's input pin; the clock at the periodic
-- self-test, its edge and the clock after it; the clock in Relay::loop; the pilot's calibration
-- and samples and the clock where the new vehicle state is applied; the clock in
-- checkResumeFromLowLimit; the clock at the boot recovery and the readings of its start; and the
-- clock of ThrottleAlive.
pub record LoopReadings : Type 0 where
  pub rcm_level : Bool
  pub periodic_now : ℕ
  pub periodic_edge : Bool
  pub periodic_tested : ℕ
  pub relay_checked : ℕ
  pub relay_switched : ℕ
  pub cali : Option (ℕ → ℤ)
  pub frames : List (List ℕ)
  pub vehicle_applied : ℕ
  pub resume_now : ℕ
  pub resume_applied : ℕ
  pub boot_now : ℕ
  pub boot_start : StartReadings
  pub throttle_now : ℕ
  pub throttle_applied : ℕ

-- RCM_TEST_INTERVAL, 24 hours.
abbrev pub rcm_test_interval : ℕ
rcm_test_interval = 86400000

module _ {F : Type 0} ⦃fl : Float F⦄ where
  -- The emergency stop.
  unfoldable pub trip : Evse F → Evse F
  unfolding open_relay
  trip s = record (stop_charging (open_relay s)) { rcm_tripped = true; error_lockout = true }

  unfoldable pub check_rcm : Bool → Evse F → Evse F
  unfolding Rcm.is_triggered
  check_rcm level s =
      if s.rcm_enabled
      then (let (triggered, rcm') = Rcm.is_triggered level s.rcm in
          let polled = record s { rcm = rcm' } in if triggered then trip polled else polled)
      else s

  unfoldable pub periodic_self_test : ℕ → Bool → ℕ → Evse F → Evse F
  unfolding Rcm.self_test
  periodic_self_test now edge tested s =
      if s.rcm_enabled
        && not (is_charging s.state)
        && ltb rcm_test_interval (sub32 now s.last_rcm_test_time)
      then (let (passed, rcm') = Rcm.self_test edge s.rcm in
          if passed
          then record s { rcm = rcm'; last_rcm_test_time = tested }
          else fail_self_test (record s { rcm = rcm' }))
      else s

  unfoldable pub relay_loop : ℕ → ℕ → Evse F → Evse F
  unfolding Relay.loop
  relay_loop checked switched s = record s { relay = Relay.loop checked switched s.relay }

  -- The auto-start after a power loss.
  unfoldable pub boot_recovery : ℕ → StartReadings → Evse F → Evse F
  boot_recovery now t s =
      if not s.boot_recovery_checked
        && not s.error_lockout
        && not s.rcm_tripped
        && not s.user_paused
      then (if ltb 5000 now
          then record (if not (is_charging s.state) && is_connected s.vehicle_state
              then start_charging t s
              else s) { boot_recovery_checked = true }
          else s)
      else s

  -- One step down of the ramp, 1 A but not below 6 A.
  unfoldable pub ramp_target : F → F
  ramp_target limit =
      let next = fl.sub limit (fl.lit 1 0) in if fl.lt next (fl.lit 6 0) then fl.lit 6 0 else next

  unfoldable pub throttle_alive : ℕ → ℕ → Evse F → Evse F
  unfolding ramp_target
  throttle_alive now applied s =
      if ltb 0 s.throttle_alive_timeout && is_charging s.state
      then (if ltb (mul32 s.throttle_alive_timeout 1000) (sub32 now s.last_throttle_alive_time)
          then (if fl.lt (fl.lit 6 0) s.current_limit
                && leb 5000 (sub32 now s.last_throttle_ramp_time)
              then record (set_current_limit applied (ramp_target s.current_limit) s) {
                last_throttle_ramp_time = now;
              }
              else s)
          else record s { last_throttle_ramp_time = sub32 now 5000 })
      else s

  -- The part that watches the residual current.
  unfoldable pub loop_guard : LoopReadings → Evse F → Evse F
  loop_guard t s =
      periodic_self_test t.periodic_now t.periodic_edge t.periodic_tested (check_rcm t.rcm_level s)

  -- The relay, the vehicle and the state machine.
  unfoldable pub loop_drive : LoopReadings → Evse F → Evse F
  loop_drive t s =
      let switched = relay_loop t.relay_checked t.relay_switched s in
      let updated = update_vehicle_state t.cali t.frames t.vehicle_applied switched in
      check_resume_from_low_limit t.resume_now t.resume_applied (manage_pwm_and_relay updated)

  unfoldable pub loop : LoopReadings → Evse F → Evse F
  loop t s =
      let driven = loop_drive t (loop_guard t s) in
      throttle_alive t.throttle_now t.throttle_applied
        (boot_recovery t.boot_now t.boot_start driven)
