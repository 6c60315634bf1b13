-- ===== src/Main.antt =====
-- EVSE-SyncCharge/EVSE-SyncCharge.ino: what the sketch does with the parts: the status LED, the task
-- of the controller, the hardware's initialisation with the gate on the safety lockout, the card
-- callback, the MQTT failsafe and the feed of OCPP; in modules of their own, the setup and the wait
-- for WiFi. WiFi, OTA and the watchdog are libraries or are left out; logging is left out.
pub mod Led
pub mod Gate
pub mod Reach
pub mod Ota
pub mod Wifi
pub mod Name
pub mod Setup
pub mod Restart
pub mod Device
pub mod Whole
pub mod Running
pub mod Persist
use evse_sync_charge.Base.{
  ℕ, ◌==◌, Bool, true, false, not, ◌&&◌, ◌||◌, Option, none, some, ltb, add32, sub32, mul32,
  if◌then◌else◌,
}
use evse_sync_charge.Float.{Float}
use evse_sync_charge.Types.{
  ChargingSettings, charging, is_charging, VehicleState, not_connected, no_power, vehicle_error,
  same_vehicle,
}
use evse_sync_charge.Boot.{is_boot_count_high}
use evse_sync_charge.Rcm
use evse_sync_charge.Pilot
use evse_sync_charge.Charge
use evse_sync_charge.Charge.{Evse, is_connected}
use evse_sync_charge.Charge.Control.{
  StartReadings, start_charging, stop_charging, set_safety_lockout,
}
use evse_sync_charge.Charge.Loop.{LoopReadings}
use evse_sync_charge.Charge.Loop
use evse_sync_charge.Led.{
  EvseLedState, led_ready, led_connected, led_charging, led_error, led_wifi_config, led_solar_idle,
  led_safety_lockout, led_rfid_ok, led_rfid_reject,
}
use evse_sync_charge.Ocpp.{Ocpp, set_connector_data}

-- g_rfidFeedbackUntil and g_rfidFeedbackState.
pub record Feedback : Type 0 where
  pub until : ℕ
  pub shown : EvseLedState

-- What the initialisation takes: evse.setup's results and clock, the settings, rcmEnabled, whether
-- the monitor's semaphore is made and the edge of its self-test comes, and the boot register.
pub record Init (F : Type 0) : Type 0 where
  pub channel : Bool
  pub handle_made : Bool
  pub configured : Bool
  pub begun : Bool
  pub now : ℕ
  pub settings : ChargingSettings F
  pub rcm_enabled : Bool
  pub semaphore : Bool
  pub edge : Bool
  pub register : ℕ

module _ {F : Type 0} ⦃fl : Float F⦄ where
  -- The state that updateLedState gives to the LED: at the clock's reading, with the boot counter's
  -- register and the fallback access point's flag.
  unfoldable pub update_led_state : ℕ → Feedback → ℕ → Bool → Evse F → EvseLedState
  update_led_state now feedback register fallback_ap s =
      if ltb now feedback.until
      then feedback.shown
      else if same_vehicle s.vehicle_state vehicle_error || same_vehicle s.vehicle_state no_power
      then led_error
      else if is_boot_count_high register
      then led_safety_lockout
      else if fallback_ap
      then led_wifi_config
      else if fl.lt s.current_limit (fl.lit 6 0) && is_connected s.vehicle_state
      then led_solar_idle
      else if is_charging s.state
      then led_charging
      else if is_connected s.vehicle_state
      then led_connected
      else led_ready

  -- The body of the task's endless loop: with the OTA flag the task deletes itself. Otherwise the
  -- result has the delay in milliseconds that follows the controller's pass.
  unfoldable pub evse_loop_task : Bool → LoopReadings → Evse F → Option (Evse F × ℕ)
  evse_loop_task true t s = none
  evse_loop_task false t s =
      let r = Loop.loop t s in
      some (r, if same_vehicle r.vehicle_state not_connected then 50 else 3)

  -- evse.setup, setRcmEnabled, and the monitor's begin and self-test if it is enabled; with whether
  -- the self-test passed.
  unfoldable pub test_rcm : Init F → Evse F → Bool × Evse F
  unfolding Charge.setup Charge.set_rcm_enabled Rcm.begin Rcm.self_test
  test_rcm i s =
      let set =
        Charge.set_rcm_enabled i.rcm_enabled
          (Charge.setup i.channel i.handle_made i.configured i.begun i.now i.settings s) in
      if i.rcm_enabled
      then (let (passed, rcm') = Rcm.self_test i.edge (Rcm.begin i.semaphore set.rcm) in
          (passed, record set { rcm = rcm' }))
      else (true, set)

  unfoldable pub init_hardware : Init F → Evse F → Evse F
  unfolding test_rcm set_safety_lockout
  init_hardware i s =
      let (passed, tested) = test_rcm i s in
      if not (is_boot_count_high i.register)
      then (if passed then set_safety_lockout false tested else tested)
      else tested

  -- The callback of the card reader, with the clock at the feedback.
  unfoldable pub on_card_scanned : Bool → StartReadings → ℕ → Feedback × Evse F → Feedback × Evse F
  unfolding start_charging stop_charging
  on_card_scanned authorized t now (f, s) =
      if authorized
      then (
        record { until = add32 now 2000; shown = led_rfid_ok },
        if is_charging s.state then stop_charging s else start_charging t s,
      )
      else (record { until = add32 now 2000; shown = led_rfid_reject }, s)

  -- The heartbeat and failsafe of the loop: mqttEnabled, whether the client is connected, the
  -- failsafe's setting and timeout, the clock, lastMqttSeen.
  unfoldable pub mqtt_failsafe :
      (mqtt_enabled connected enabled : Bool) → ℕ → ℕ → ℕ × Evse F → ℕ × Evse F
  unfolding stop_charging
  mqtt_failsafe mqtt_enabled connected enabled timeout now (seen, s) =
      if mqtt_enabled && connected
      then (now, s)
      else if enabled && ltb (mul32 timeout 1000) (sub32 now seen)
      then (seen, if is_charging s.state then stop_charging s else s)
      else (seen, s)

  -- The feed of OCPP: ocppEnabled, the clock in the test and after it, lastOcppUpdate.
  unfoldable pub feed_ocpp : Bool → ℕ → ℕ → Evse F → ℕ × Ocpp F → ℕ × Ocpp F
  unfolding set_connector_data
  feed_ocpp enabled now stamped s (updated, o) =
      if enabled && ltb 1000 (sub32 now updated)
      then (let ac = s.actual_current in
          let total = fl.add (fl.add ac.l1 ac.l2) ac.l3 in
          (
            stamped,
            set_connector_data total (fl.lit 230 0) (fl.mul total (fl.lit 230 0)) (fl.lit 0 0) o,
          ))
      else (updated, o)

  -- The callback of an OTA update's start.
  unfoldable pub on_ota_start : Evse F → Evse F
  unfolding stop_charging Pilot.stop
  on_ota_start s =
      let stopped = stop_charging s in record stopped { pilot = Pilot.stop stopped.pilot }
