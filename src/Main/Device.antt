-- ===== src/Main/Device.antt =====
-- The running firmware: a pass of the sketch's `loop`, a pass of the controller's task, and the starts
-- of the chip, over the state of all the parts. In a pass of the loop the calls come in the order of
-- the sketch. The web server, the MQTT library and the web socket deliver any number of requests,
-- messages and events in their turn. The retries of WiFi and the DNS server change no state of the
-- parts and are left out.
use Prim.Native.String.{String}
use evse_sync_charge.Base.{
  ℕ, ℤ, ◌==◌, Bool, true, false, not, ◌&&◌, ◌||◌, Option, none, some, List, [], ◌∷◌, if◌then◌else◌,
}
use evse_sync_charge.Float.{Float}
use evse_sync_charge.Prefs.{Preferences}
use evse_sync_charge.Config.{AppConfig, save_config}
use evse_sync_charge.Boot
use evse_sync_charge.Charge.Control.{StartReadings}
use evse_sync_charge.Charge.Loop.{LoopReadings}
use evse_sync_charge.Rfid.Scan
use evse_sync_charge.Rfid.Scan.{ScanReadings}
use evse_sync_charge.Telnet.{same_flag}
use evse_sync_charge.Telnet.Input
use evse_sync_charge.Telnet.Input.{Credentials, Visit}
use evse_sync_charge.Mqtt.{Mqtt, Connection, reconnect}
use evse_sync_charge.Mqtt.Command.{
  Topic, set_failsafe, set_failsafe_timeout, rcm_config, CallbackReadings, mqtt_callback,
}
use evse_sync_charge.Mqtt.Report.{report}
use evse_sync_charge.Ocpp.Handler
use evse_sync_charge.Ocpp.Handler.{HandlerReadings, Event, ws_event}
use evse_sync_charge.Web.{Site, Request, restarts}
use evse_sync_charge.Web.Routes.{WebReadings, Route, serve_all}
use evse_sync_charge.Led.{set_state}
use evse_sync_charge.Main.{
  Feedback, evse_loop_task, update_led_state, on_card_scanned, mqtt_failsafe, feed_ocpp,
  on_ota_start,
}
use evse_sync_charge.Main.Setup.{Board}

pub record Device (F P : Type 0) : Type 0 where
  pub board : Board F P
  pub feedback : Feedback
  -- The static variables of the loop.
  pub mqtt_seen : ℕ
  pub ocpp_updated : ℕ

-- A message on a topic.
abbrev pub Delivery : Type 0
Delivery = CallbackReadings × (Topic × String)

-- What a pass of the loop takes, in the order of its calls.
pub record Pass (F : Type 0) : Type 0 where
  pub boot_now : ℕ
  -- In the fallback, whether WiFi is connected.
  pub recovered : Bool
  pub requests : List (Route × (WebReadings × Request))
  pub restart_now : ℕ
  pub scan : ScanReadings
  pub scan_start : StartReadings
  pub scan_shown : ℕ
  pub visit : Visit
  pub connection : Connection
  pub messages : List Delivery
  pub events : List (HandlerReadings × Event F)
  pub heartbeat_now : ℕ
  pub heartbeat_sent : ℕ
  pub ota_start : Bool
  pub failsafe_now : ℕ
  pub feed_now : ℕ
  pub feed_stamped : ℕ

module _ {F : Type 0} where
  -- Whether the callback of a message calls the sketch's, which saves the configuration.
  abbrev pub saves : Topic → Mqtt F → Mqtt F → Bool
  saves set_failsafe before after = not (same_flag before.fs_enabled after.fs_enabled)
  saves set_failsafe_timeout before after = not (before.fs_timeout == after.fs_timeout)
  saves rcm_config before after = true
  saves _ before after = false

  -- The fields of the configuration that the sketch's callbacks set.
  abbrev pub called_back : Mqtt F → AppConfig F → AppConfig F
  called_back m c = record c {
    mqtt_failsafe_enabled = m.config_failsafe.0;
    mqtt_failsafe_timeout = m.config_failsafe.1;
    rcm_enabled = m.config_rcm;
  }

module _ {F P : Type 0} where
  abbrev pub with_site : Site F P → Device F P → Device F P
  with_site w d = record d { board = record d.board { site = w } }

  unfoldable pub telnet_pass : (String → String → Credentials) → Visit → Site F P → Site F P
  telnet_pass credentials v w =
      let k = credentials w.config.www_user w.config.www_pass in
      record w { telnet = Input.loop k v w.telnet }

module _ (lower : String → String) {F P : Type 0} ⦃fl : Float F⦄ (to_float : String → F)
    (to_int : String → ℤ) (pr : Preferences F P) where
  -- One message, with what the sketch's callbacks do.
  unfoldable pub deliver : Delivery → Site F P → Site F P
  deliver (t, (topic, msg)) w =
      let (m, s) = mqtt_callback lower to_float to_int t topic msg (w.mqtt, w.evse) in
      let c = called_back m w.config in
      record w {
        mqtt = m;
        evse = s;
        config = c;
        stored = if saves topic w.mqtt m then save_config pr c w.stored else w.stored;
      }

  unfoldable pub deliver_all : List Delivery → Site F P → Site F P
  deliver_all [] w = w
  deliver_all (x ∷ xs) w = deliver_all xs (deliver x w)

  -- EvseMqttController::loop, with the messages that the library's loop delivers.
  unfoldable pub mqtt_pass : Connection → List Delivery → Site F P → Site F P
  mqtt_pass c xs w =
      if not w.mqtt.has_host || not c.wifi
      then w
      else (let v = deliver_all xs (record w { mqtt = reconnect c w.evse w.mqtt }) in
          record v { mqtt = report v.evse v.mqtt })

module _ (text_of : ℕ → String) {F P : Type 0} ⦃fl : Float F⦄ where
  unfoldable pub receive_all : List (HandlerReadings × Event F) → Site F P → Site F P
  receive_all [] w = w
  receive_all ((t, e) ∷ es) w =
      let (o, s) = ws_event text_of t e (w.ocpp, w.evse) in
      receive_all es (record w { ocpp = o; evse = s })

  -- OCPPHandler::loop, with the events that the socket's loop delivers.
  unfoldable pub ocpp_pass : List (HandlerReadings × Event F) → ℕ → ℕ → Site F P → Site F P
  ocpp_pass es now stamped w =
      let v = if w.ocpp.enabled then receive_all es w else w in
      record v { ocpp = Handler.loop text_of now stamped v.ocpp }

module _ (upper : String → String) {F P : Type 0} ⦃fl : Float F⦄ where
  -- The card reader's loop with the sketch's callback.
  unfoldable pub scan_pass : ScanReadings → StartReadings → ℕ → Device F P → Device F P
  scan_pass r t shown d =
      let w = d.board.site in
      let (reader, report) = Scan.loop upper r w.rfid in
      elim report [
        | none ↦ with_site (record w { rfid = reader }) d
        | some (uid, authorized) ↦
            (let (feedback', evse') = on_card_scanned authorized t shown (d.feedback, w.evse) in
              record (with_site (record w { rfid = reader; evse = evse' }) d) {
                feedback = feedback';
              })
      ]

module _ {F P : Type 0} ⦃fl : Float F⦄ where
  -- ArduinoOTA.handle().
  unfoldable pub ota_pass : Bool → Site F P → Site F P
  ota_pass starts w =
      if starts then record w { evse = on_ota_start w.evse; ota_updating = true } else w

  -- The heartbeat and the failsafe, and the feed of OCPP.
  unfoldable pub watch_pass : Pass F → Device F P → Device F P
  watch_pass p d =
      let w = d.board.site in
      let c = w.config in
      let (seen, evse') =
        mqtt_failsafe c.mqtt_enabled w.mqtt.connected c.mqtt_failsafe_enabled
          c.mqtt_failsafe_timeout p.failsafe_now (d.mqtt_seen, w.evse) in
      let (updated, ocpp') =
        feed_ocpp c.ocpp_enabled p.feed_now p.feed_stamped evse' (d.ocpp_updated, w.ocpp) in
      record (with_site (record w { evse = evse'; ocpp = ocpp' }) d) {
        mqtt_seen = seen;
        ocpp_updated = updated;
      }

  -- A pass of the controller's task: with the OTA flag it is deleted. The LED's state is set at the
  -- clock's reading; its frame, which follows, is in Led.Loop.
  unfoldable pub task : LoopReadings → ℕ → Device F P → Device F P
  task t now d =
      let b = d.board in
      let w = b.site in
      elim (evse_loop_task w.ota_updating t w.evse) [
        | none ↦ d
        | some (evse', delay) ↦
            (let led_state = update_led_state now d.feedback b.register b.fallback_ap evse' in
              with_site (record w { evse = evse'; led = set_state led_state w.led }) d)
      ]

module _ (lower upper : String → String) (text_of : ℕ → String) {F P : Type 0} ⦃fl : Float F⦄
    (to_float : String → F) (to_int : String → ℤ) (pr : Preferences F P) where
  -- What follows the web server's calls, up to the failsafe.
  unfoldable pub network_pass : (String → String → Credentials) → Pass F → Device F P → Device F P
  network_pass credentials p d =
      let scanned = scan_pass upper p.scan p.scan_start p.scan_shown d in
      let w = telnet_pass credentials p.visit scanned.board.site in
      let v =
        if w.config.mqtt_enabled
        then mqtt_pass lower to_float to_int pr p.connection p.messages w
        else w in
      let u =
        if v.config.ocpp_enabled
        then ocpp_pass text_of p.events p.heartbeat_now p.heartbeat_sent v
        else v in
      with_site (ota_pass p.ota_start u) scanned

  -- A pass of the sketch's loop; none where the chip restarts.
  unfoldable pub loop : (String → String → Credentials) → Pass F → Device F P → Option (Device F P)
  loop credentials p d =
      let b = d.board in
      let site' = serve_all upper to_float to_int pr p.requests b.site in
      let served = record d {
        board = record b { register = Boot.loop p.boot_now b.register; site = site' };
      } in
      if b.fallback_ap && p.recovered || restarts p.restart_now site'
      then none
      else some (watch_pass p (network_pass credentials p served))
