-- ===== src/Mqtt/Command.antt =====
-- `mqttCallback`, the messages that the client receives. Their topics differ in their last parts, so
-- each is a constructor. `String::toLowerCase`, `toFloat` and `toInt` are section parameters.
use Prim.Native.String.{String}
use text.Mathlib.Text.{◌==◌ as str_eq}
use evse_sync_charge.Base.{ℕ, ℤ, pos, negsuc, ◌==◌, Bool, true, false, ◌||◌, ltb, if◌then◌else◌}
use evse_sync_charge.Float.{Float}
use evse_sync_charge.Telnet.{same_flag}
use evse_sync_charge.Pilot.{duty_to_amps}
use evse_sync_charge.Charge.{Evse, set_rcm_enabled, signal_throttle_alive}
use evse_sync_charge.Charge.Limit.{set_current_limit, set_allow_below_6_amp_charging}
use evse_sync_charge.Charge.Control.{
  StartReadings, start_charging, stop_charging, enable_current_test, set_current_test,
}
use evse_sync_charge.Mqtt.{
  Mqtt, publish, allow_below_6_amp, test_enabled, test_disabled, test_duty, failsafe,
  failsafe_timeout,
}

pub data Topic : Type 0 where
  command set_current set_allow_below_6_amp_charging_topic current_test set_failsafe
        set_failsafe_timeout rcm_config other :
      Topic

-- The clock where a limit is applied, the clock in signalThrottleAlive, and what startCharging reads.
pub record CallbackReadings : Type 0 where
  pub applied : ℕ
  pub alive : ℕ
  pub start : StartReadings

-- Whether the text, in lower case, switches something on.
abbrev pub is_on : String → Bool
is_on s = str_eq s "1" || str_eq s "on" || str_eq s "true" || str_eq s "enable"

-- val < 10 and val > 3600, of a long.
unfoldable pub clamp_timeout : ℤ → ℕ
clamp_timeout (pos n) = if ltb n 10 then 10 else if ltb 3600 n then 3600 else n
clamp_timeout (negsuc n) = 10

module _ {F : Type 0} where
  unfoldable pub change_failsafe : Bool → Mqtt F → Mqtt F
  unfolding publish
  change_failsafe enabled m =
      if same_flag m.fs_enabled enabled
      then m
      else record (publish (failsafe enabled) (record m { fs_enabled = enabled })) {
        config_failsafe = (enabled, m.fs_timeout);
      }

  unfoldable pub change_timeout : ℕ → Mqtt F → Mqtt F
  unfolding publish
  change_timeout seconds m =
      if m.fs_timeout == seconds
      then m
      else record (publish (failsafe_timeout seconds) (record m { fs_timeout = seconds })) {
        config_failsafe = (m.fs_enabled, seconds);
      }

module _ {F : Type 0} ⦃fl : Float F⦄ where
  unfoldable pub clamp_duty : F → F
  clamp_duty duty =
      let raised = if fl.lt duty (fl.lit 0 0) then fl.lit 0 0 else duty in
      if fl.lt (fl.lit 100 0) raised then fl.lit 100 0 else raised

module _ (lower : String → String) {F : Type 0} ⦃fl : Float F⦄ (to_float : String → F)
    (to_int : String → ℤ) where
  unfoldable pub test_message : String → Mqtt F × Evse F → Mqtt F × Evse F
  unfolding publish clamp_duty
  test_message msg (m, s) =
      let low = lower msg in
      if str_eq low "on" || str_eq low "enable"
      then (publish test_enabled m, enable_current_test true s)
      else if str_eq low "off" || str_eq low "disable"
      then (publish test_disabled m, enable_current_test false s)
      else (let duty = clamp_duty (to_float msg) in
          let amps = duty_to_amps duty in
          (publish (test_duty duty amps) m, set_current_test amps (enable_current_test true s)))

  unfoldable pub mqtt_callback :
      CallbackReadings → Topic → String → Mqtt F × Evse F → Mqtt F × Evse F
  unfolding publish set_rcm_enabled signal_throttle_alive
  mqtt_callback t command msg (m, s) =
      if str_eq msg "start"
      then (m, signal_throttle_alive t.alive (start_charging t.start s))
      else if str_eq msg "stop"
      then (m, stop_charging s)
      else (m, s)
  mqtt_callback t set_current msg (m, s) =
      (m, signal_throttle_alive t.alive (set_current_limit t.applied (to_float msg) s))
  mqtt_callback t set_allow_below_6_amp_charging_topic msg (m, s) =
      let on = is_on (lower msg) in
      (publish (allow_below_6_amp on) m, set_allow_below_6_amp_charging t.applied on s)
  mqtt_callback t current_test msg c = test_message msg c
  mqtt_callback t set_failsafe msg (m, s) = (change_failsafe (is_on (lower msg)) m, s)
  mqtt_callback t set_failsafe_timeout msg (m, s) =
      (change_timeout (clamp_timeout (to_int msg)) m, s)
  mqtt_callback t rcm_config msg (m, s) =
      let on = is_on (lower msg) in (record m { config_rcm = on }, set_rcm_enabled on s)
  mqtt_callback t other msg c = c
