-- ===== src/Mqtt/Settled.antt =====
-- With the last values up to date, a report is silent.
use evse_sync_charge.Base.{◌<◌, ◌≡◌, refl, sub32, true, false, arith}
use evse_sync_charge.Float.{Float}
use evse_sync_charge.Charge.{Evse}
use evse_sync_charge.Mqtt.{Mqtt, Connection, reconnect, sync}
use evse_sync_charge.Mqtt.Report.{
  report_state, report_vehicle, report_limit, report_current, report_duty, report_tripped,
  report_enabled, report, loop,
}
use evse_sync_charge.Mqtt.Values.{IsReported, IsComparable, report-IsReported}

module _ {F : Type 0} ⦃fl : Float F⦄ where
  -- With the last values up to date, no part of the report publishes or changes anything.
  report_state_settled : (s : Evse F) (m : Mqtt F) → IsReported s m → report_state s m ≡ m
  unfolding report_state
  report_state_settled s m r = rw (r.state_reported) refl

  report_vehicle_settled : (s : Evse F) (m : Mqtt F) → IsReported s m → report_vehicle s m ≡ m
  unfolding report_vehicle
  report_vehicle_settled s m r = rw (r.vehicle_reported) refl

  report_limit_settled : (s : Evse F) (m : Mqtt F) → IsReported s m → report_limit s m ≡ m
  unfolding report_limit
  report_limit_settled s m r = rw (r.limit_reported) refl

  report_current_settled : (s : Evse F) (m : Mqtt F) → IsReported s m → report_current s m ≡ m
  unfolding report_current
  report_current_settled s m r = rw (r.l1_reported, r.l2_reported, r.l3_reported) refl

  report_duty_settled : (s : Evse F) (m : Mqtt F) → IsReported s m → report_duty s m ≡ m
  unfolding report_duty
  report_duty_settled s m r = rw (r.duty_reported) refl

  report_tripped_settled : (s : Evse F) (m : Mqtt F) → IsReported s m → report_tripped s m ≡ m
  unfolding report_tripped
  report_tripped_settled s m r = rw (r.tripped_reported) refl

  report_enabled_settled : (s : Evse F) (m : Mqtt F) → IsReported s m → report_enabled s m ≡ m
  unfolding report_enabled
  report_enabled_settled s m r = rw (r.enabled_reported) refl

  -- With the last values up to date, reporting publishes nothing and changes nothing.
  pub report_settled : (s : Evse F) (m : Mqtt F) → IsReported s m → report s m ≡ m
  unfolding report
  report_settled s m r =
      rw
        (
          report_state_settled s m r,
          report_vehicle_settled s m r,
          report_limit_settled s m r,
          report_current_settled s m r,
          report_duty_settled s m r,
          report_tripped_settled s m r,
        )
        (report_enabled_settled s m r)

  -- A pass that reconnects while the last values are up to date publishes what follows a connect and
  -- nothing more, so the state's topic gets the word online and not the state.
  pub loop-reconnects :
      (c : Connection) (s : Evse F) (m : Mqtt F)
      → m.has_host ≡ true
      → c.wifi ≡ true
      → c.connects ≡ true
      → m.connected ≡ false
      → 5000 < sub32 c.now m.last_attempt
      → IsReported s m
      → (loop c s m).published ≡ (sync s m).published
  unfolding loop reconnect
  loop-reconnects c s m h w k n l r =
      ground (arith, report_settled s (record (sync s m) { last_attempt = c.attempted }))

  -- If no value of the controller's that is reported is NaN, a second report publishes nothing and
  -- changes nothing.
  pub report_once : (s : Evse F) (m : Mqtt F) → IsComparable s → report s (report s m) ≡ report s m
  report_once s m c = report_settled s (report s m) (report-IsReported s m c)
