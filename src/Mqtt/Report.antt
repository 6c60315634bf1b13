-- ===== src/Mqtt/Report.antt =====
-- The state reporting of `loop`, and the loop.
use evse_sync_charge.Base.{Bool, false, not, ◌&&◌, ◌||◌, Option, none, some, if◌then◌else◌}
use evse_sync_charge.Float.{Float}
use evse_sync_charge.Types.{ChargeState, VehicleState, same_vehicle}
use evse_sync_charge.Telnet.{same_flag}
use evse_sync_charge.Charge.{Evse}
use evse_sync_charge.Mqtt.{
  Mqtt, Connection, publish, reconnect, same_state, state, vehicle_state, current_limit, current,
  pwm_duty, rcm_fault, rcm_state,
}

abbrev pub is_last_state : ChargeState → Option ChargeState → Bool
is_last_state s none = false
is_last_state s (some l) = same_state s l

abbrev pub is_last_vehicle : VehicleState → Option VehicleState → Bool
is_last_vehicle v none = false
is_last_vehicle v (some l) = same_vehicle v l

module _ {F : Type 0} where
  unfoldable pub report_state : Evse F → Mqtt F → Mqtt F
  unfolding publish
  report_state s m =
      if is_last_state s.state m.last_state
      then m
      else record (publish (state s.state) m) { last_state = some s.state }

  unfoldable pub report_vehicle : Evse F → Mqtt F → Mqtt F
  unfolding publish
  report_vehicle s m =
      if is_last_vehicle s.vehicle_state m.last_vehicle_state
      then m
      else record (publish (vehicle_state s.vehicle_state) m) {
        last_vehicle_state = some s.vehicle_state;
      }

  unfoldable pub report_tripped : Evse F → Mqtt F → Mqtt F
  unfolding publish
  report_tripped s m =
      if same_flag s.rcm_tripped m.last_rcm_tripped
      then m
      else record (publish (rcm_fault s.rcm_tripped) m) { last_rcm_tripped = s.rcm_tripped }

  unfoldable pub report_enabled : Evse F → Mqtt F → Mqtt F
  unfolding publish
  report_enabled s m =
      if same_flag s.rcm_enabled m.last_rcm_enabled
      then m
      else record (publish (rcm_state s.rcm_enabled) m) { last_rcm_enabled = s.rcm_enabled }

module _ {F : Type 0} ⦃fl : Float F⦄ where
  unfoldable pub report_limit : Evse F → Mqtt F → Mqtt F
  unfolding publish
  report_limit s m =
      if fl.eq s.current_limit m.last_current_limit
      then m
      else record (publish (current_limit s.current_limit) m) {
        last_current_limit = s.current_limit;
      }

  unfoldable pub report_current : Evse F → Mqtt F → Mqtt F
  unfolding publish
  report_current s m =
      let c = s.actual_current in
      if fl.eq c.l1 m.last_current_l1
        && fl.eq c.l2 m.last_current_l2
        && fl.eq c.l3 m.last_current_l3
      then m
      else record (publish (current c.l1 c.l2 c.l3) m) {
        last_current_l1 = c.l1;
        last_current_l2 = c.l2;
        last_current_l3 = c.l3;
      }

  unfoldable pub report_duty : Evse F → Mqtt F → Mqtt F
  unfolding publish
  report_duty s m =
      let duty = s.pilot.current_duty_percent in
      if fl.eq duty m.last_pwm_duty
      then m
      else record (publish (pwm_duty duty) m) { last_pwm_duty = duty }

  unfoldable pub report : Evse F → Mqtt F → Mqtt F
  unfolding report_state report_vehicle report_limit report_current report_duty report_tripped
      report_enabled
  report s m = report_enabled s (
      report_tripped s
        (report_duty s (report_current s (report_limit s (report_vehicle s (report_state s m))))))

  -- The library's loop, which delivers messages, is left out: a message is a call of mqtt_callback.
  unfoldable pub loop : Connection → Evse F → Mqtt F → Mqtt F
  unfolding reconnect report
  loop c s m = if not m.has_host || not c.wifi then m else report s (reconnect c s m)
