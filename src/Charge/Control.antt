-- ===== src/Charge/Control.antt =====
-- The commands: start, stop, pause, the current test, and the external safety lockout.
use evse_sync_charge.Base.{ℕ, Bool, true, false, not, ◌&&◌, if◌then◌else◌}
use evse_sync_charge.Float.{Float}
use evse_sync_charge.Types.{ready, charging, is_charging}
use evse_sync_charge.Rcm
use evse_sync_charge.Pilot
use evse_sync_charge.Pilot.{min_current}
use evse_sync_charge.Charge.{Evse, is_connected, notify_state}
use evse_sync_charge.Charge.Limit.{open_relay, pilot_standby, apply_current_limit}

-- What startCharging reads: whether the self-test's edge comes, and the clock at the end of the
-- self-test, for `started`, for `lastThrottleAliveTime` and in applyCurrentLimit.
pub record StartReadings : Type 0 where
  pub edge : Bool
  pub tested : ℕ
  pub begun : ℕ
  pub alive : ℕ
  pub applied : ℕ

module _ {F : Type 0} ⦃fl : Float F⦄ where
  -- A failed self-test: trip, lock out, open the relay.
  unfoldable pub fail_self_test : Evse F → Evse F
  unfolding open_relay
  fail_self_test s = open_relay (record s { rcm_tripped = true; error_lockout = true })

  -- From "Start charging now" to the end.
  unfoldable pub begin_session : StartReadings → Evse F → Evse F
  unfolding notify_state
  begin_session t s =
      let begun = record s {
        state = charging;
        started = t.begun;
        user_paused = false;
        last_throttle_alive_time = t.alive;
        current_limit = if s.settings.soft_start then min_current else s.current_limit;
      } in
      notify_state (apply_current_limit t.applied begun)

  -- The pre-charge self-test and what follows it.
  unfoldable pub test_and_begin : StartReadings → Evse F → Evse F
  unfolding Rcm.self_test
  test_and_begin t s =
      if s.rcm_enabled
      then (let (passed, rcm') = Rcm.self_test t.edge s.rcm in
          if not passed
          then fail_self_test (record s { rcm = rcm' })
          else begin_session t (record s { rcm = rcm'; last_rcm_test_time = t.tested }))
      else begin_session t s

  -- From the test `state == STATE_CHARGING` on, with no lockout in force.
  unfoldable pub start_unlocked : StartReadings → Evse F → Evse F
  start_unlocked t s =
      if is_charging s.state
      then s
      else if not (is_connected s.vehicle_state)
      then s
      else test_and_begin t s

  unfoldable pub start_charging : StartReadings → Evse F → Evse F
  start_charging t s =
      if s.error_lockout
      then (if is_connected s.vehicle_state && not s.rcm_tripped
          then start_unlocked t (record s { error_lockout = false })
          else s)
      else start_unlocked t s

  unfoldable pub stop_charging : Evse F → Evse F
  unfolding open_relay pilot_standby notify_state
  stop_charging s =
      let halted = open_relay (pilot_standby s) in
      if not (is_charging halted.state)
      then record halted { user_paused = false }
      else notify_state (record halted { state = ready; user_paused = false })

  unfoldable pub pause_charging : Evse F → Evse F
  unfolding open_relay pilot_standby notify_state
  pause_charging s =
      if is_charging s.state
      then notify_state
          (record (open_relay (pilot_standby s)) { state = ready; user_paused = true })
      else s

  unfoldable pub enable_current_test : Bool → Evse F → Evse F
  unfolding pilot_standby
  enable_current_test enable s =
      if enable && is_charging s.state
      then s
      else pilot_standby (record s { current_test = enable })

  unfoldable pub set_current_test : F → Evse F → Evse F
  unfolding Pilot.current_limit
  set_current_test amps s = if not s.current_test then s else record s {
    pilot = Pilot.current_limit (if fl.lt amps min_current then min_current else amps) s.pilot;
  }

  unfoldable pub set_safety_lockout : Bool → Evse F → Evse F
  unfolding open_relay
  set_safety_lockout true s =
      if s.error_lockout
      then s
      else (let locked = record s { error_lockout = true } in
          open_relay (if is_charging locked.state then stop_charging locked else locked))
  set_safety_lockout false s = record s { error_lockout = false }
