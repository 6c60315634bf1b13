-- ===== src/Mqtt/Values.antt =====
-- What the client reports: each value once for each change.
use evse_sync_charge.Base.{◌≡◌, true, arith}
use evse_sync_charge.Float.{Float}
use evse_sync_charge.Telnet.{same_flag}
use evse_sync_charge.Charge.{Evse}
use evse_sync_charge.Mqtt.{Mqtt}
use evse_sync_charge.Mqtt.Report.{
  is_last_state, is_last_vehicle, report_state, report_vehicle, report_limit, report_current,
  report_duty, report_tripped, report_enabled, report,
}

module _ {F : Type 0} ⦃fl : Float F⦄ where
  -- The last values agree with the controller's, by the comparisons of the code.
  pub record IsReported (s : Evse F) (m : Mqtt F) : Type 0 where
    pub state_reported : is_last_state s.state m.last_state ≡ true
    pub vehicle_reported : is_last_vehicle s.vehicle_state m.last_vehicle_state ≡ true
    pub limit_reported : fl.eq s.current_limit m.last_current_limit ≡ true
    pub l1_reported : fl.eq s.actual_current.l1 m.last_current_l1 ≡ true
    pub l2_reported : fl.eq s.actual_current.l2 m.last_current_l2 ≡ true
    pub l3_reported : fl.eq s.actual_current.l3 m.last_current_l3 ≡ true
    pub duty_reported : fl.eq s.pilot.current_duty_percent m.last_pwm_duty ≡ true
    pub tripped_reported : same_flag s.rcm_tripped m.last_rcm_tripped ≡ true
    pub enabled_reported : same_flag s.rcm_enabled m.last_rcm_enabled ≡ true

  -- No value of the controller's that is reported is NaN.
  pub record IsComparable (s : Evse F) : Type 0 where
    pub limit_same : fl.eq s.current_limit s.current_limit ≡ true
    pub l1_same : fl.eq s.actual_current.l1 s.actual_current.l1 ≡ true
    pub l2_same : fl.eq s.actual_current.l2 s.actual_current.l2 ≡ true
    pub l3_same : fl.eq s.actual_current.l3 s.actual_current.l3 ≡ true
    pub duty_same : fl.eq s.pilot.current_duty_percent s.pilot.current_duty_percent ≡ true

  -- Each part of the report brings its own value up to date and keeps those before it so.
  report_state-Reported :
      (s : Evse F) (m : Mqtt F)
      → IsComparable s
      → let r = report_state s m in (is_last_state s.state r.last_state ≡ true)
  unfolding report_state
  report_state-Reported s m c = ground arith

  report_vehicle-Reported :
      (s : Evse F) (m : Mqtt F)
      → IsComparable s
      → (is_last_state s.state m.last_state ≡ true)
      → let r = report_vehicle s m in
        (is_last_state s.state r.last_state ≡ true)
        × (is_last_vehicle s.vehicle_state r.last_vehicle_state ≡ true)
  unfolding report_vehicle
  report_vehicle-Reported s m c h = ground arith

  report_limit-Reported :
      (s : Evse F) (m : Mqtt F)
      → IsComparable s
      → (is_last_state s.state m.last_state ≡ true)
        × (is_last_vehicle s.vehicle_state m.last_vehicle_state ≡ true)
      → let r = report_limit s m in
        (is_last_state s.state r.last_state ≡ true)
        × (is_last_vehicle s.vehicle_state r.last_vehicle_state ≡ true)
        × (fl.eq s.current_limit r.last_current_limit ≡ true)
  unfolding report_limit
  report_limit-Reported s m c h = ground arith

  report_current-Reported :
      (s : Evse F) (m : Mqtt F)
      → IsComparable s
      → (is_last_state s.state m.last_state ≡ true)
        × (is_last_vehicle s.vehicle_state m.last_vehicle_state ≡ true)
        × (fl.eq s.current_limit m.last_current_limit ≡ true)
      → let r = report_current s m in
        (is_last_state s.state r.last_state ≡ true)
        × (is_last_vehicle s.vehicle_state r.last_vehicle_state ≡ true)
        × (fl.eq s.current_limit r.last_current_limit ≡ true)
        × (fl.eq s.actual_current.l1 r.last_current_l1 ≡ true)
        × (fl.eq s.actual_current.l2 r.last_current_l2 ≡ true)
        × (fl.eq s.actual_current.l3 r.last_current_l3 ≡ true)
  unfolding report_current
  report_current-Reported s m c h = ground arith

  report_duty-Reported :
      (s : Evse F) (m : Mqtt F)
      → IsComparable s
      → (is_last_state s.state m.last_state ≡ true)
        × (is_last_vehicle s.vehicle_state m.last_vehicle_state ≡ true)
        × (fl.eq s.current_limit m.last_current_limit ≡ true)
        × (fl.eq s.actual_current.l1 m.last_current_l1 ≡ true)
        × (fl.eq s.actual_current.l2 m.last_current_l2 ≡ true)
        × (fl.eq s.actual_current.l3 m.last_current_l3 ≡ true)
      → let r = report_duty s m in
        (is_last_state s.state r.last_state ≡ true)
        × (is_last_vehicle s.vehicle_state r.last_vehicle_state ≡ true)
        × (fl.eq s.current_limit r.last_current_limit ≡ true)
        × (fl.eq s.actual_current.l1 r.last_current_l1 ≡ true)
        × (fl.eq s.actual_current.l2 r.last_current_l2 ≡ true)
        × (fl.eq s.actual_current.l3 r.last_current_l3 ≡ true)
        × (fl.eq s.pilot.current_duty_percent r.last_pwm_duty ≡ true)
  unfolding report_duty
  report_duty-Reported s m c h = ground arith

  report_tripped-Reported :
      (s : Evse F) (m : Mqtt F)
      → IsComparable s
      → (is_last_state s.state m.last_state ≡ true)
        × (is_last_vehicle s.vehicle_state m.last_vehicle_state ≡ true)
        × (fl.eq s.current_limit m.last_current_limit ≡ true)
        × (fl.eq s.actual_current.l1 m.last_current_l1 ≡ true)
        × (fl.eq s.actual_current.l2 m.last_current_l2 ≡ true)
        × (fl.eq s.actual_current.l3 m.last_current_l3 ≡ true)
        × (fl.eq s.pilot.current_duty_percent m.last_pwm_duty ≡ true)
      → let r = report_tripped s m in
        (is_last_state s.state r.last_state ≡ true)
        × (is_last_vehicle s.vehicle_state r.last_vehicle_state ≡ true)
        × (fl.eq s.current_limit r.last_current_limit ≡ true)
        × (fl.eq s.actual_current.l1 r.last_current_l1 ≡ true)
        × (fl.eq s.actual_current.l2 r.last_current_l2 ≡ true)
        × (fl.eq s.actual_current.l3 r.last_current_l3 ≡ true)
        × (fl.eq s.pilot.current_duty_percent r.last_pwm_duty ≡ true)
        × (same_flag s.rcm_tripped r.last_rcm_tripped ≡ true)
  unfolding report_tripped
  report_tripped-Reported s m c h = ground arith

  report_enabled-Reported :
      (s : Evse F) (m : Mqtt F)
      → IsComparable s
      → (is_last_state s.state m.last_state ≡ true)
        × (is_last_vehicle s.vehicle_state m.last_vehicle_state ≡ true)
        × (fl.eq s.current_limit m.last_current_limit ≡ true)
        × (fl.eq s.actual_current.l1 m.last_current_l1 ≡ true)
        × (fl.eq s.actual_current.l2 m.last_current_l2 ≡ true)
        × (fl.eq s.actual_current.l3 m.last_current_l3 ≡ true)
        × (fl.eq s.pilot.current_duty_percent m.last_pwm_duty ≡ true)
        × (same_flag s.rcm_tripped m.last_rcm_tripped ≡ true)
      → let r = report_enabled s m in
        (is_last_state s.state r.last_state ≡ true)
        × (is_last_vehicle s.vehicle_state r.last_vehicle_state ≡ true)
        × (fl.eq s.current_limit r.last_current_limit ≡ true)
        × (fl.eq s.actual_current.l1 r.last_current_l1 ≡ true)
        × (fl.eq s.actual_current.l2 r.last_current_l2 ≡ true)
        × (fl.eq s.actual_current.l3 r.last_current_l3 ≡ true)
        × (fl.eq s.pilot.current_duty_percent r.last_pwm_duty ≡ true)
        × (same_flag s.rcm_tripped r.last_rcm_tripped ≡ true)
        × (same_flag s.rcm_enabled r.last_rcm_enabled ≡ true)
  unfolding report_enabled
  report_enabled-Reported s m c h = ground arith

  -- Reporting brings the last values up to date with the controller, if no value is NaN.
  pub report-IsReported : (s : Evse F) (m : Mqtt F) → IsComparable s → IsReported s (report s m)
  unfolding report
  report-IsReported s m c =
      let m1 = report_state s m in
      let m2 = report_vehicle s m1 in
      let m3 = report_limit s m2 in
      let m4 = report_current s m3 in
      let m5 = report_duty s m4 in
      let m6 = report_tripped s m5 in
      let h1 = report_state-Reported s m c in
      let h2 = report_vehicle-Reported s m1 c h1 in
      let h3 = report_limit-Reported s m2 c h2 in
      let h4 = report_current-Reported s m3 c h3 in
      let h5 = report_duty-Reported s m4 c h4 in
      let h6 = report_tripped-Reported s m5 c h5 in
      let (a, b, d, e, f, g, i, j, k) = report_enabled-Reported s m6 c h6 in
      record {
        state_reported = a;
        vehicle_reported = b;
        limit_reported = d;
        l1_reported = e;
        l2_reported = f;
        l3_reported = g;
        duty_reported = i;
        tripped_reported = j;
        enabled_reported = k;
      }
