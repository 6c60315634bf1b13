-- ===== src/Main/Reach.antt =====
-- The firmware after its setup as a state machine: what its two tasks do, one call at a time and in
-- any order, over the state of the parts. What a web request does to the controller is taken to be
-- any command of it; the requests themselves are in the module Web.
use Prim.Native.String.{String}
use evse_sync_charge.Base.{ℕ, ◌≡◌, refl, ℤ, Bool, true, false, none, some, [], ◌∷◌, arith}
use evse_sync_charge.Float.{Float}
use evse_sync_charge.Types.{ChargingSettings, charging}
use evse_sync_charge.Charge
use evse_sync_charge.Charge.Control.{set_safety_lockout}
use evse_sync_charge.Charge.Pass.{loop-IsSafe}
use evse_sync_charge.Charge.{Evse, asks_power}
use evse_sync_charge.Charge.Loop.{LoopReadings}
use evse_sync_charge.Charge.Control.{StartReadings}
use evse_sync_charge.Charge.Session.{IsSafe, start-IsSafe, stop-IsSafe}
use evse_sync_charge.Charge.Run.{Command, stop, pilot_stop, exec, run, constructed, run-IsSafe}
use evse_sync_charge.Boot
use evse_sync_charge.Rfid.{Rfid}
use evse_sync_charge.Rfid.Scan
use evse_sync_charge.Rfid.Scan.{ScanReadings, Report}
use evse_sync_charge.Ocpp.{Ocpp}
use evse_sync_charge.Ocpp.Handler
use evse_sync_charge.Ocpp.Handler.{HandlerReadings, Event, ws_event}
use evse_sync_charge.Ocpp.Server
use evse_sync_charge.Ocpp.Server.{ws_event-run}
use evse_sync_charge.Mqtt.{Mqtt, Connection}
use evse_sync_charge.Mqtt.Command.{Topic, CallbackReadings, mqtt_callback}
use evse_sync_charge.Mqtt.Report
use evse_sync_charge.Mqtt.Failsafe
use evse_sync_charge.Mqtt.Failsafe.{callback-run}
use evse_sync_charge.Main.{
  Feedback, Init, init_hardware, test_rcm, evse_loop_task, on_card_scanned, mqtt_failsafe,
  feed_ocpp, on_ota_start,
}

pub record Firmware (F : Type 0) : Type 0 where
  pub evse : Evse F
  pub mqtt : Mqtt F
  pub ocpp : Ocpp F
  pub rfid : Rfid
  pub feedback : Feedback
  pub register : ℕ
  pub mqtt_seen : ℕ
  pub ocpp_updated : ℕ
  pub ota_updating : Bool

-- The calls, with what each takes from outside.
pub data Input (F : Type 0) : Type 0 where
  task : LoopReadings → Input F
  boot_loop : ℕ → Input F
  scan : ScanReadings → StartReadings → ℕ → Input F
  mqtt_message : CallbackReadings → Topic → String → Input F
  mqtt_loop : Connection → Input F
  ocpp_event : HandlerReadings → Event F → Input F
  ocpp_loop : ℕ → ℕ → Input F
  failsafe : Bool → ℕ → Input F
  feed : Bool → ℕ → ℕ → Input F
  ota_start : Input F
  web : Command F → Input F

module _ (lower upper : String → String) (text_of : ℕ → String) {F : Type 0} ⦃fl : Float F⦄
    (to_float : String → F) (to_int : String → ℤ) where
  -- The card reader's loop with the callback that the setup registers.
  unfoldable pub scan_card : ScanReadings → StartReadings → ℕ → Firmware F → Firmware F
  unfolding on_card_scanned
  scan_card r t now f =
      let (rfid', report) = Scan.loop upper r f.rfid in
      elim report [
        | none ↦ record f { rfid = rfid' }
        | some (uid, authorized) ↦
            (let (feedback', evse') = on_card_scanned authorized t now (f.feedback, f.evse) in
              record f { rfid = rfid'; feedback = feedback'; evse = evse' })
      ]

  unfoldable pub handle : Input F → Firmware F → Firmware F
  unfolding scan_card
  handle (task t) f = elim (evse_loop_task f.ota_updating t f.evse) [
    | none ↦ f
    | some (evse', delay) ↦ record f { evse = evse' }
  ]
  handle (boot_loop now) f = record f { register = Boot.loop now f.register }
  handle (scan r t now) f = scan_card r t now f
  handle (mqtt_message t topic msg) f =
      let (mqtt', evse') = mqtt_callback lower to_float to_int t topic msg (f.mqtt, f.evse) in
      record f { mqtt = mqtt'; evse = evse' }
  handle (mqtt_loop c) f = record f { mqtt = Report.loop c f.evse f.mqtt }
  handle (ocpp_event t e) f =
      let (ocpp', evse') = ws_event text_of t e (f.ocpp, f.evse) in
      record f { ocpp = ocpp'; evse = evse' }
  handle (ocpp_loop now stamped) f = record f { ocpp = Handler.loop text_of now stamped f.ocpp }
  handle (failsafe mqtt_enabled now) f =
      let (enabled, timeout) = f.mqtt.config_failsafe in
      let (seen, evse') =
        mqtt_failsafe mqtt_enabled f.mqtt.connected enabled timeout now (f.mqtt_seen, f.evse) in
      record f { mqtt_seen = seen; evse = evse' }
  handle (feed enabled now stamped) f =
      let (updated, ocpp') = feed_ocpp enabled now stamped f.evse (f.ocpp_updated, f.ocpp) in
      record f { ocpp_updated = updated; ocpp = ocpp' }
  handle ota_start f = record f { evse = on_ota_start f.evse; ota_updating = true }
  handle (web c) f = record f { evse = exec c f.evse }

  -- The states after the initialisation of a constructed controller, and after any calls.
  pub data IsReachable : Firmware F → Type 0 where
    initialised :
        (defaults : ChargingSettings F) (allocated : Bool) (i : Init F) (f : Firmware F)
        → f.evse ≡ init_hardware i (constructed defaults allocated)
        → IsReachable f
    called : (n : Input F) (f : Firmware F) → IsReachable f → IsReachable (handle n f)

  task-IsSafe :
      (t : LoopReadings) (f : Firmware F) → IsSafe f.evse → IsSafe (handle (task t) f).evse
  unfolding handle evse_loop_task
  task-IsSafe t f v = ground (arith, loop-IsSafe t f.evse v)

  scan-IsSafe :
      (r : ScanReadings) (t : StartReadings) (now : ℕ) (f : Firmware F)
      → IsSafe f.evse
      → IsSafe (scan_card r t now f).evse
  unfolding scan_card on_card_scanned
  scan-IsSafe r t now f v = ground (arith, start-IsSafe t f.evse v, stop-IsSafe f.evse v.0)

  failsafe-IsSafe :
      (mqtt_enabled : Bool) (now : ℕ) (f : Firmware F)
      → IsSafe f.evse
      → IsSafe (handle (failsafe mqtt_enabled now) f).evse
  unfolding handle mqtt_failsafe
  failsafe-IsSafe mqtt_enabled now f v = ground (arith, stop-IsSafe f.evse v.0)

  handle-IsSafe : (n : Input F) (f : Firmware F) → IsSafe f.evse → IsSafe (handle n f).evse
  unfolding handle run exec on_ota_start
  handle-IsSafe (task t) f v = task-IsSafe t f v
  handle-IsSafe (boot_loop now) f v = v
  handle-IsSafe (scan r t now) f v = scan-IsSafe r t now f v
  handle-IsSafe (mqtt_message t topic msg) f v =
      rw (callback-run lower to_float to_int t topic msg f.mqtt f.evse)
        (run-IsSafe (Failsafe.commands lower to_float to_int t topic msg) f.evse v)
  handle-IsSafe (mqtt_loop c) f v = v
  handle-IsSafe (ocpp_event t e) f v =
      rw (ws_event-run text_of t e f.ocpp f.evse) (run-IsSafe (Server.commands t e) f.evse v)
  handle-IsSafe (ocpp_loop now stamped) f v = v
  handle-IsSafe (failsafe mqtt_enabled now) f v = failsafe-IsSafe mqtt_enabled now f v
  handle-IsSafe (feed enabled now stamped) f v = v
  handle-IsSafe ota_start f v = run-IsSafe (stop ∷ pilot_stop ∷ []) f.evse v
  handle-IsSafe (web c) f v = run-IsSafe (c ∷ []) f.evse v

  initialised-IsSafe :
      (defaults : ChargingSettings F) (allocated : Bool) (i : Init F)
      → IsSafe (init_hardware i (constructed defaults allocated))
  unfolding init_hardware test_rcm set_safety_lockout constructed Charge.setup
      Charge.set_rcm_enabled
  initialised-IsSafe defaults allocated i = ground arith

  reachable-IsSafe : (f : Firmware F) → IsReachable f → IsSafe f.evse
  reachable-IsSafe _ (initialised defaults allocated i f e) =
      rw e (initialised-IsSafe defaults allocated i)
  reachable-IsSafe _ (called n f r) = handle-IsSafe n f (reachable-IsSafe f r)

  -- In every state that the firmware reaches from its initialisation by passes of the controller's
  -- task, card scans, MQTT and OCPP messages, the failsafe, an OTA start and commands of the web pages,
  -- the contactor is asked to close only in a charging session with a vehicle in state C or D, no
  -- safety lockout and no current test.
  pub reachable-closed :
      (f : Firmware F)
      → IsReachable f
      → f.evse.relay.desired ≡ true
      → (f.evse.state ≡ charging)
        × (asks_power f.evse.vehicle_state ≡ true)
        × (f.evse.error_lockout ≡ false)
        × (f.evse.current_test ≡ false)
  reachable-closed f r h =
      let v = reachable-IsSafe f r in
      let (c, e) = v.0.closed_charging h in (c, v.1 h, v.0.charging_unlocked refl c, e)
