-- ===== src/Main/Ota.antt =====
-- The contactor's output pin during an OTA update, whose start deletes the controller's task.
use Prim.Native.String.{String}
use evse_sync_charge.Base.{
  ℕ, ◌≡◌, refl, ◌∙◌, ℤ, Bool, true, false, ◌&&◌, none, some, List, [], ◌∷◌, arith,
}
use evse_sync_charge.Float.{Float}
use evse_sync_charge.Types.{ready}
use evse_sync_charge.Charge.{Evse}
use evse_sync_charge.Charge.Control.{StartReadings, stop_charging}
use evse_sync_charge.Charge.Power.{start-pin}
use evse_sync_charge.Charge.Contactor.{leaves_pin, all_leave, and_parts, exec-pin, run-pin}
use evse_sync_charge.Rfid.Scan.{ScanReadings}
use evse_sync_charge.Ocpp.Handler.{
  HandlerReadings, Event, disconnected, connected, text_frame, other as other_event,
}
use evse_sync_charge.Ocpp.Server
use evse_sync_charge.Ocpp.Server.{call_commands, ws_event-run}
use evse_sync_charge.Mqtt.Command.{
  Topic, CallbackReadings, command, set_current, set_allow_below_6_amp_charging_topic, current_test,
  set_failsafe, set_failsafe_timeout, rcm_config, other,
}
use evse_sync_charge.Mqtt.Failsafe
use evse_sync_charge.Mqtt.Failsafe.{callback-run, test_commands}
use evse_sync_charge.Main.{mqtt_failsafe, evse_loop_task, on_card_scanned, on_ota_start}
use evse_sync_charge.Main.Reach.{
  Firmware, Input, task, boot_loop, scan, mqtt_message, mqtt_loop, ocpp_event, ocpp_loop, failsafe,
  feed, ota_start, web, scan_card, handle,
}

module _ {F : Type 0} where
  -- Any call but a command of the web pages that initialises the controller or passes its loop.
  unfoldable pub leaves_contactor : Input F → Bool
  leaves_contactor (web c) = leaves_pin c
  leaves_contactor _ = true

  unfoldable pub all_leave_contactor : List (Input F) → Bool
  all_leave_contactor [] = true
  all_leave_contactor (n ∷ ns) = leaves_contactor n && all_leave_contactor ns

module _ (lower : String → String) {F : Type 0} ⦃fl : Float F⦄ (to_float : String → F)
    (to_int : String → ℤ) where
  callback-leaves :
      (t : CallbackReadings) (topic : Topic) (msg : String)
      → all_leave (Failsafe.commands lower to_float to_int t topic msg) ≡ true
  unfolding all_leave leaves_pin Failsafe.commands test_commands
  callback-leaves t command msg = ground arith
  callback-leaves t set_current msg = refl
  callback-leaves t set_allow_below_6_amp_charging_topic msg = refl
  callback-leaves t current_test msg = ground arith
  callback-leaves t set_failsafe msg = refl
  callback-leaves t set_failsafe_timeout msg = refl
  callback-leaves t rcm_config msg = refl
  callback-leaves t other msg = refl

module _ {F : Type 0} ⦃fl : Float F⦄ where
  event-leaves : (t : HandlerReadings) (e : Event F) → all_leave (Server.commands t e) ≡ true
  unfolding all_leave leaves_pin Server.commands call_commands
  event-leaves t disconnected = refl
  event-leaves t connected = refl
  event-leaves t (text_frame none) = refl
  event-leaves t (text_frame (some m)) = ground arith
  event-leaves t other_event = refl

  failsafe-pin :
      (mqtt_enabled online enabled : Bool) (timeout now seen : ℕ) (s : Evse F)
      → (mqtt_failsafe mqtt_enabled online enabled timeout now (seen, s)).1.relay.pin ≡ s.relay.pin
  unfolding mqtt_failsafe stop_charging
  failsafe-pin mqtt_enabled online enabled timeout now seen s = ground arith

module _ (lower upper : String → String) (text_of : ℕ → String) {F : Type 0} ⦃fl : Float F⦄
    (to_float : String → F) (to_int : String → ℤ) where
  abbrev act : Input F → Firmware F → Firmware F
  act = handle lower upper text_of to_float to_int

  unfoldable pub handle_all : List (Input F) → Firmware F → Firmware F
  handle_all [] f = f
  handle_all (n ∷ ns) f = handle_all ns (act n f)

  scan-pin :
      (r : ScanReadings) (t : StartReadings) (now : ℕ) (f : Firmware F)
      → (scan_card lower upper text_of to_float to_int r t now f).evse.relay.pin ≡ f.evse.relay.pin
  unfolding scan_card on_card_scanned stop_charging
  scan-pin r t now f = ground (arith, start-pin t f.evse)

  handle-pin :
      (n : Input F) (f : Firmware F)
      → f.ota_updating ≡ true
      → leaves_contactor n ≡ true
      → (act n f).evse.relay.pin ≡ f.evse.relay.pin
  unfolding handle evse_loop_task leaves_contactor on_ota_start stop_charging
  handle-pin (task t) f o h = ground arith
  handle-pin (boot_loop now) f o h = refl
  handle-pin (scan r t now) f o h = scan-pin r t now f
  handle-pin (mqtt_message t topic msg) f o h =
      rw (callback-run lower to_float to_int t topic msg f.mqtt f.evse) (
        run-pin (Failsafe.commands lower to_float to_int t topic msg) f.evse
          (callback-leaves lower to_float to_int t topic msg))
  handle-pin (mqtt_loop c) f o h = refl
  handle-pin (ocpp_event t e) f o h =
      rw (ws_event-run text_of t e f.ocpp f.evse)
        (run-pin (Server.commands t e) f.evse (event-leaves t e))
  handle-pin (ocpp_loop now stamped) f o h = refl
  handle-pin (failsafe mqtt_enabled now) f o h =
      failsafe-pin mqtt_enabled f.mqtt.connected f.mqtt.config_failsafe.0 f.mqtt.config_failsafe.1
        now f.mqtt_seen f.evse
  handle-pin (feed enabled now stamped) f o h = refl
  handle-pin ota_start f o h = ground arith
  handle-pin (web c) f o h = exec-pin c f.evse h

  handle-updating :
      (n : Input F) (f : Firmware F) → f.ota_updating ≡ true → (act n f).ota_updating ≡ true
  unfolding handle scan_card evse_loop_task
  handle-updating (task t) f o = ground arith
  handle-updating (boot_loop now) f o = o
  handle-updating (scan r t now) f o = ground arith
  handle-updating (mqtt_message t topic msg) f o = o
  handle-updating (mqtt_loop c) f o = o
  handle-updating (ocpp_event t e) f o = o
  handle-updating (ocpp_loop now stamped) f o = o
  handle-updating (failsafe mqtt_enabled now) f o = o
  handle-updating (feed enabled now stamped) f o = o
  handle-updating ota_start f o = refl
  handle-updating (web c) f o = o

  handle_all-pin :
      (ns : List (Input F)) (f : Firmware F)
      → f.ota_updating ≡ true
      → all_leave_contactor ns ≡ true
      → (handle_all ns f).evse.relay.pin ≡ f.evse.relay.pin
  unfolding handle_all all_leave_contactor
  handle_all-pin [] f o h = refl
  handle_all-pin (n ∷ ns) f o h =
      let (a, b) = and_parts (leaves_contactor n) (all_leave_contactor ns) h in
      handle_all-pin ns (act n f) (handle-updating n f o) b ∙ handle-pin n f o a

  -- The start of an OTA update ends the session and asks the contactor to open, but whatever calls
  -- follow, except commands of the web pages that initialise the controller or pass its loop, the
  -- contactor's output pin stays as it was when the update began: a closed contactor stays closed.
  pub ota-pin :
      (ns : List (Input F)) (f : Firmware F)
      → all_leave_contactor ns ≡ true
      → let g = act ota_start f in
        (g.evse.state ≡ ready)
        × (g.evse.relay.desired ≡ false)
        × ((handle_all ns g).evse.relay.pin ≡ f.evse.relay.pin)
  unfolding handle on_ota_start stop_charging
  ota-pin ns f h =
      let g = act ota_start f in let pin = handle_all-pin ns g refl h in ground (arith, pin)
