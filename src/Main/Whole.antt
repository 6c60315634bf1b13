-- ===== src/Main/Whole.antt =====
-- The parts of a pass, the controller's task and the setup keep the controller's invariant.
use Prim.Native.String.{String}
use evse_sync_charge.Base.{ℕ, ℤ, ◌≡◌, refl, Bool, true, false, List, [], ◌∷◌, arith}
use evse_sync_charge.Float.{Float}
use evse_sync_charge.Types.{ChargingSettings}
use evse_sync_charge.Prefs.{Preferences}
use evse_sync_charge.Config.{load_config}
use evse_sync_charge.Charge
use evse_sync_charge.Charge.{Evse, preinit_hard, set_throttle_alive_timeout}
use evse_sync_charge.Charge.Control.{StartReadings, set_safety_lockout}
use evse_sync_charge.Charge.Loop.{LoopReadings}
use evse_sync_charge.Charge.Session.{IsSafe, start-IsSafe, stop-IsSafe}
use evse_sync_charge.Charge.Pass.{loop-IsSafe}
use evse_sync_charge.Charge.Run.{stop, pilot_stop, exec, run, constructed, run-IsSafe}
use evse_sync_charge.Rfid.Scan.{ScanReadings}
use evse_sync_charge.Telnet.Input.{Credentials, Visit}
use evse_sync_charge.Ocpp.Handler.{HandlerReadings, Event}
use evse_sync_charge.Ocpp.Server
use evse_sync_charge.Ocpp.Server.{ws_event-run}
use evse_sync_charge.Mqtt.{Connection, reconnect}
use evse_sync_charge.Mqtt.Failsafe
use evse_sync_charge.Mqtt.Failsafe.{callback-run}
use evse_sync_charge.Web.{Site}
use evse_sync_charge.Main.{
  Init, init_hardware, test_rcm, evse_loop_task, on_card_scanned, mqtt_failsafe, on_ota_start,
}
use evse_sync_charge.Main.Setup.{Board, SetupReadings, setup, load, connect, apply_mqtt_config}
use evse_sync_charge.Main.Device.{
  Device, Delivery, Pass, deliver, deliver_all, mqtt_pass, receive_all, ocpp_pass, scan_pass,
  telnet_pass, ota_pass, watch_pass, task,
}

module _ (lower : String → String) {F P : Type 0} ⦃fl : Float F⦄ (to_float : String → F)
    (to_int : String → ℤ) (pr : Preferences F P) where
  deliver-IsSafe :
      (x : Delivery) (w : Site F P)
      → IsSafe w.evse
      → IsSafe (deliver lower to_float to_int pr x w).evse
  unfolding deliver
  deliver-IsSafe (t, (topic, msg)) w v =
      rw (callback-run lower to_float to_int t topic msg w.mqtt w.evse)
        (run-IsSafe (Failsafe.commands lower to_float to_int t topic msg) w.evse v)

  deliver_all-IsSafe :
      (xs : List Delivery) (w : Site F P)
      → IsSafe w.evse
      → IsSafe (deliver_all lower to_float to_int pr xs w).evse
  unfolding deliver_all
  deliver_all-IsSafe [] w v = v
  deliver_all-IsSafe (x ∷ xs) w v = deliver_all-IsSafe xs _ (deliver-IsSafe x w v)

  pub mqtt_pass-IsSafe :
      (c : Connection) (xs : List Delivery) (w : Site F P)
      → IsSafe w.evse
      → IsSafe (mqtt_pass lower to_float to_int pr c xs w).evse
  unfolding mqtt_pass
  mqtt_pass-IsSafe c xs w v =
      let reconnected = record w { mqtt = reconnect c w.evse w.mqtt } in
      ground (arith, deliver_all-IsSafe xs reconnected v)

module _ (text_of : ℕ → String) {F P : Type 0} ⦃fl : Float F⦄ where
  receive_all-IsSafe :
      (es : List (HandlerReadings × Event F)) (w : Site F P)
      → IsSafe w.evse
      → IsSafe (receive_all text_of es w).evse
  unfolding receive_all
  receive_all-IsSafe [] w v = v
  receive_all-IsSafe ((t, e) ∷ es) w v =
      receive_all-IsSafe es _
        (rw (ws_event-run text_of t e w.ocpp w.evse) (run-IsSafe (Server.commands t e) w.evse v))

  pub ocpp_pass-IsSafe :
      (es : List (HandlerReadings × Event F)) (now stamped : ℕ) (w : Site F P)
      → IsSafe w.evse
      → IsSafe (ocpp_pass text_of es now stamped w).evse
  unfolding ocpp_pass
  ocpp_pass-IsSafe es now stamped w v = ground (arith, receive_all-IsSafe es w v)

module _ (upper : String → String) {F P : Type 0} ⦃fl : Float F⦄ where
  pub scan_pass-IsSafe :
      (r : ScanReadings) (t : StartReadings) (shown : ℕ) (d : Device F P)
      → IsSafe d.board.site.evse
      → IsSafe (scan_pass upper r t shown d).board.site.evse
  unfolding scan_pass on_card_scanned
  scan_pass-IsSafe r t shown d v =
      let s = d.board.site.evse in ground (arith, start-IsSafe t s v, stop-IsSafe s v.0)

module _ {F P : Type 0} ⦃fl : Float F⦄ where
  pub telnet_pass-evse :
      (credentials : String → String → Credentials) (visit : Visit) (w : Site F P)
      → (telnet_pass credentials visit w).evse ≡ w.evse
  unfolding telnet_pass
  telnet_pass-evse credentials visit w = refl

  pub ota_pass-IsSafe :
      (starts : Bool) (w : Site F P) → IsSafe w.evse → IsSafe (ota_pass starts w).evse
  unfolding ota_pass on_ota_start run exec
  ota_pass-IsSafe true w v = run-IsSafe (stop ∷ pilot_stop ∷ []) w.evse v
  ota_pass-IsSafe false w v = v

  pub watch_pass-IsSafe :
      (p : Pass F) (d : Device F P)
      → IsSafe d.board.site.evse
      → IsSafe (watch_pass p d).board.site.evse
  unfolding watch_pass mqtt_failsafe
  watch_pass-IsSafe p d v = ground (arith, stop-IsSafe d.board.site.evse v.0)

  pub task-IsSafe :
      (t : LoopReadings) (now : ℕ) (d : Device F P)
      → IsSafe d.board.site.evse
      → IsSafe (task t now d).board.site.evse
  unfolding task evse_loop_task
  task-IsSafe t now d v = ground (arith, loop-IsSafe t d.board.site.evse v)

module _ {F : Type 0} ⦃fl : Float F⦄ where
  init-IsSafe : (i : Init F) (s : Evse F) → IsSafe s → IsSafe (init_hardware i s)
  unfolding init_hardware test_rcm set_safety_lockout Charge.setup Charge.set_rcm_enabled
  init-IsSafe i s v = ground arith

  constructed_preinit-IsSafe :
      (defaults : ChargingSettings F) (allocated : Bool) (seconds : ℕ)
      → IsSafe (set_throttle_alive_timeout seconds (preinit_hard (constructed defaults allocated)))
  unfolding constructed preinit_hard set_throttle_alive_timeout
  constructed_preinit-IsSafe defaults allocated seconds = ground arith

module _ {F P : Type 0} ⦃fl : Float F⦄ where
  connect-evse : (wifi : Bool) (b : Board F P) → (connect wifi b).site.evse ≡ b.site.evse
  unfolding connect apply_mqtt_config
  connect-evse wifi b = ground arith

  -- A start of the chip, whatever the stores hold.
  pub setup-IsSafe :
      (pr : Preferences F P) (t : SetupReadings) (b : Board F P) (defaults : ChargingSettings F)
      (allocated : Bool)
      → b.site.evse ≡ constructed defaults allocated
      → IsSafe (setup pr t b).site.evse
  unfolding setup load
  setup-IsSafe pr t b defaults allocated e =
      let c = load_config pr b.site.stored in
      let w = (connect t.wifi (load pr b)).site in
      let loaded : w.evse
          ≡ set_throttle_alive_timeout c.solar_stop_timeout (preinit_hard b.site.evse) =
        connect-evse t.wifi (load pr b) in
      init-IsSafe _ w.evse
        (rw loaded (rw e (constructed_preinit-IsSafe defaults allocated c.solar_stop_timeout)))
