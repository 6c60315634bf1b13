-- ===== src/Main/Running.antt =====
-- The states of the running firmware, from the starts of the chip on, where each call runs to its end
-- before another begins, and what holds in all of them.
use Prim.Native.String.{String}
use evse_sync_charge.Base.{ℕ, ℤ, ◌≡◌, refl, Bool, true, false, some, List, arith, if◌then◌else◌}
use evse_sync_charge.Float.{Float}
use evse_sync_charge.Types.{ChargingSettings, charging}
use evse_sync_charge.Prefs.{Preferences}
use evse_sync_charge.Boot
use evse_sync_charge.Charge.{asks_power}
use evse_sync_charge.Charge.Control.{StartReadings}
use evse_sync_charge.Charge.Loop.{LoopReadings}
use evse_sync_charge.Charge.Session.{IsSafe}
use evse_sync_charge.Charge.Run.{constructed}
use evse_sync_charge.Rfid.Scan.{ScanReadings}
use evse_sync_charge.Telnet.Input.{Credentials, Visit}
use evse_sync_charge.Mqtt.{Connection}
use evse_sync_charge.Ocpp.Handler.{HandlerReadings, Event}
use evse_sync_charge.Web.{Site, Request}
use evse_sync_charge.Web.Routes.{WebReadings, Route, serve_all}
use evse_sync_charge.Web.Commands.{serve_all-IsSafe}
use evse_sync_charge.Main.Setup.{Board, SetupReadings, setup}
use evse_sync_charge.Main.Device.{
  Device, Delivery, Pass, with_site, mqtt_pass, ocpp_pass, scan_pass, telnet_pass, ota_pass,
  watch_pass, network_pass, loop, task,
}
use evse_sync_charge.Main.Whole.{
  mqtt_pass-IsSafe, ocpp_pass-IsSafe, scan_pass-IsSafe, telnet_pass-evse, ota_pass-IsSafe,
  watch_pass-IsSafe, task-IsSafe, setup-IsSafe,
}

-- One call of a pass of the sketch's loop, or a pass of the controller's task.
pub data Call (F : Type 0) : Type 0 where
  serves : List (Route × (WebReadings × Request)) → Call F
  scans : ScanReadings → StartReadings → ℕ → Call F
  visits : Visit → Call F
  reports : Connection → List Delivery → Call F
  receives : List (HandlerReadings × Event F) → ℕ → ℕ → Call F
  updates : Bool → Call F
  watches : Pass F → Call F
  tasks : LoopReadings → ℕ → Call F

if-IsSafe :
    {F P : Type 0} (b : Bool) (x y : Site F P)
    → IsSafe x.evse
    → IsSafe y.evse
    → IsSafe (if b then x else y).evse
if-IsSafe true x y v w = v
if-IsSafe false x y v w = w

module _ (lower upper : String → String) (text_of : ℕ → String) {F P : Type 0} ⦃fl : Float F⦄
    (to_float : String → F) (to_int : String → ℤ) (pr : Preferences F P)
    (credentials : String → String → Credentials) where
  unfoldable pub make : Call F → Device F P → Device F P
  make (serves rs) d = with_site (serve_all upper to_float to_int pr rs d.board.site) d
  make (scans r t shown) d = scan_pass upper r t shown d
  make (visits v) d = with_site (telnet_pass credentials v d.board.site) d
  make (reports c xs) d = with_site (mqtt_pass lower to_float to_int pr c xs d.board.site) d
  make (receives es now stamped) d = with_site (ocpp_pass text_of es now stamped d.board.site) d
  make (updates starts) d = with_site (ota_pass starts d.board.site) d
  make (watches p) d = watch_pass p d
  make (tasks t now) d = task t now d

  -- The states after a start of the chip with any stores, calls in any order, so also with passes of
  -- the controller's task between the calls of a pass of the loop, and passes of the loop.
  pub data IsRunning : Device F P → Type 0 where
    started :
        (defaults : ChargingSettings F) (allocated : Bool) (t : SetupReadings) (b : Board F P)
        (d : Device F P)
        → b.site.evse ≡ constructed defaults allocated
        → d.board ≡ setup pr t b
        → IsRunning d
    made : (c : Call F) (d : Device F P) → IsRunning d → IsRunning (make c d)
    looped :
        (p : Pass F) (d e : Device F P)
        → IsRunning d
        → loop lower upper text_of to_float to_int pr credentials p d ≡ some e
        → IsRunning e

  make-IsSafe :
      (c : Call F) (d : Device F P) → IsSafe d.board.site.evse → IsSafe (make c d).board.site.evse
  unfolding make
  make-IsSafe (serves rs) d v = serve_all-IsSafe upper to_float to_int pr rs d.board.site v
  make-IsSafe (scans r t shown) d v = scan_pass-IsSafe upper r t shown d v
  make-IsSafe (visits visit) d v = rw (telnet_pass-evse credentials visit d.board.site) v
  make-IsSafe (reports c xs) d v = mqtt_pass-IsSafe lower to_float to_int pr c xs d.board.site v
  make-IsSafe (receives es now stamped) d v = ocpp_pass-IsSafe text_of es now stamped d.board.site v
  make-IsSafe (updates starts) d v = ota_pass-IsSafe starts d.board.site v
  make-IsSafe (watches p) d v = watch_pass-IsSafe p d v
  make-IsSafe (tasks t now) d v = task-IsSafe t now d v

  network-IsSafe :
      (p : Pass F) (d : Device F P)
      → IsSafe d.board.site.evse
      → IsSafe (network_pass lower upper text_of to_float to_int pr credentials p d).board.site.evse
  unfolding network_pass
  network-IsSafe p d v =
      let s = scan_pass upper p.scan p.scan_start p.scan_shown d in
      let w = telnet_pass credentials p.visit s.board.site in
      let x = mqtt_pass lower to_float to_int pr p.connection p.messages w in
      let scanned : IsSafe w.evse =
        rw (telnet_pass-evse credentials p.visit s.board.site)
          (scan_pass-IsSafe upper p.scan p.scan_start p.scan_shown d v) in
      let reported : IsSafe x.evse =
        mqtt_pass-IsSafe lower to_float to_int pr p.connection p.messages w scanned in
      let v' = if w.config.mqtt_enabled then x else w in
      ota_pass-IsSafe p.ota_start _ (
        if-IsSafe v'.config.ocpp_enabled _ _
          (ocpp_pass-IsSafe text_of p.events p.heartbeat_now p.heartbeat_sent v'
            (if-IsSafe w.config.mqtt_enabled x w reported scanned))
          (if-IsSafe w.config.mqtt_enabled x w reported scanned))

  loop-IsSafe :
      (p : Pass F) (d e : Device F P)
      → IsSafe d.board.site.evse
      → loop lower upper text_of to_float to_int pr credentials p d ≡ some e
      → IsSafe e.board.site.evse
  unfolding loop
  loop-IsSafe p d e v h =
      let b = d.board in
      let site' = serve_all upper to_float to_int pr p.requests b.site in
      let served = record d {
        board = record b { register = Boot.loop p.boot_now b.register; site = site' };
      } in
      let reached = network_pass lower upper text_of to_float to_int pr credentials p served in
      let safe =
        watch_pass-IsSafe p reached (
          network-IsSafe p served
            (serve_all-IsSafe upper to_float to_int pr p.requests b.site v)) in
      let left : e ≡ watch_pass p reached = ground arith in rw left safe

  IsRunning-IsSafe : (d : Device F P) → IsRunning d → IsSafe d.board.site.evse
  IsRunning-IsSafe _ (started defaults allocated t b d e g) =
      rw g (setup-IsSafe pr t b defaults allocated e)
  IsRunning-IsSafe _ (made c d r) = make-IsSafe c d (IsRunning-IsSafe d r)
  IsRunning-IsSafe _ (looped p d e r h) = loop-IsSafe p d e (IsRunning-IsSafe d r) h

  -- Where each call runs to its end before a call of the other task begins, so in particular no pass of
  -- the controller's task falls into the wait of a start: after a start of the chip with whatever the
  -- stores hold, and after any calls and passes of the two tasks, with any requests, messages, events,
  -- cards and readings, the contactor is asked to close only in a charging session with a vehicle in
  -- state C or D, no safety lockout and no current test.
  pub running-closed :
      (d : Device F P)
      → IsRunning d
      → let s = d.board.site.evse in
        s.relay.desired ≡ true
        → (s.state ≡ charging)
          × (asks_power s.vehicle_state ≡ true)
          × (s.error_lockout ≡ false)
          × (s.current_test ≡ false)
  running-closed d r h =
      let v = IsRunning-IsSafe d r in
      let (c, e) = v.0.closed_charging h in (c, v.1 h, v.0.charging_unlocked refl c, e)
