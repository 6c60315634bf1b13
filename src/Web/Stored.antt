-- ===== src/Web/Stored.antt =====
-- What the requests do to the stored configuration.
use Prim.Native.String.{String}
use evse_sync_charge.Base.{ℕ, ℤ, ◌≡◌, Bool, true, false, ◌&&◌, List, [], ◌∷◌, arith}
use evse_sync_charge.Float.{Float}
use evse_sync_charge.Types.{ready}
use evse_sync_charge.Charge.Control.{stop_charging}
use evse_sync_charge.Prefs.{Preferences, IsStore}
use evse_sync_charge.Config
use evse_sync_charge.Config.{AppConfig, load_config}
use evse_sync_charge.Config.Stored.{load_config-save_config}
use evse_sync_charge.Mqtt.{set_failsafe_config}
use evse_sync_charge.Charge.Contactor.{and_parts}
use evse_sync_charge.Web.{Site, Request, check_auth, request_reboot}
use evse_sync_charge.Web.Save.{changed, save_led, save_telnet, apply, handle_save_config}
use evse_sync_charge.Web.Routes.{
  file_start, file_write, file_end, file_aborted, WebReadings, Route, save_config_route, cmd_route,
  test_cmd_route, factory_reset_route, wifi_reset_route, evse_reset_route, reboot_route,
  do_update_route, rfid_save_route, rfid_add_route, rfid_toggle_route, rfid_delete_route,
  rfid_learn_route, update_upload_route, page_route, command_of, test_command, handle_cmd,
  handle_test_cmd, handle_factory_reset, handle_wifi_reset, handle_evse_reset, handle_reboot,
  handle_do_update, handle_update_upload, rfid_save, rfid_learn, rfid_add, rfid_toggle, rfid_delete,
  serve, serve_all,
}

-- The configuration in use is the one that a start of the firmware would load, and the failsafe and
-- the monitor's flag that the MQTT client knows are its.
pub record IsInSync {F P : Type 0} ⦃fl : Float F⦄ (pr : Preferences F P) (w : Site F P)
    : Type 0 where
  pub stored_config : load_config pr w.stored ≡ w.config
  pub failsafe_config :
      w.mqtt.config_failsafe ≡ (w.config.mqtt_failsafe_enabled, w.config.mqtt_failsafe_timeout)
  pub rcm_config : w.mqtt.config_rcm ≡ w.config.rcm_enabled

-- A request other than for the factory reset.
abbrev pub keeps_config : Route → Bool
keeps_config factory_reset_route = false
keeps_config _ = true

unfoldable pub all_keep : List (Route × (WebReadings × Request)) → Bool
all_keep [] = true
all_keep ((r, tq) ∷ rest) = keeps_config r && all_keep rest

module _ {F P : Type 0} ⦃fl : Float F⦄ (upper : String → String) (to_float : String → F)
    (to_int : String → ℤ) (pr : Preferences F P) (st : IsStore pr) where
  save-IsInSync :
      (now : ℕ) (q : Request) (w : Site F P)
      → IsInSync pr w
      → IsInSync pr (handle_save_config to_float to_int pr now q w)
  unfolding handle_save_config request_reboot apply save_telnet save_led set_failsafe_config
  save-IsInSync now q w v =
      ground (arith, load_config-save_config pr st (changed to_float to_int q w.config) w.stored)

  wifi-IsInSync :
      (t : WebReadings) (q : Request) (w : Site F P)
      → IsInSync pr w
      → IsInSync pr (handle_wifi_reset pr t q w)
  unfolding handle_wifi_reset request_reboot
  wifi-IsInSync t q w v =
      let c = record w.config { wifi_ssid = ""; wifi_pass = ""; use_static = false } in
      ground (arith, load_config-save_config pr st c w.stored)

  reset-IsInSync :
      (t : WebReadings) (q : Request) (w : Site F P)
      → IsInSync pr w
      → IsInSync pr (handle_evse_reset pr t q w)
  unfolding handle_evse_reset
  reset-IsInSync t q w v =
      let c = record w.config {
        max_current = fl.lit 32 0;
        rcm_enabled = true;
        allow_below_6_amp_charging = false;
        soft_start = false;
        low_limit_resume_delay_ms = 300000;
      } in
      ground (arith, load_config-save_config pr st c w.stored)

  pub serve-IsInSync :
      (r : Route) (t : WebReadings) (q : Request) (w : Site F P)
      → keeps_config r ≡ true
      → IsInSync pr w
      → IsInSync pr (serve upper to_float to_int pr r t q w)
  unfolding serve handle_cmd command_of handle_test_cmd test_command handle_reboot handle_do_update
      handle_update_upload rfid_save rfid_learn rfid_add rfid_toggle rfid_delete request_reboot
  serve-IsInSync save_config_route t q w h v = save-IsInSync t.now q w v
  serve-IsInSync cmd_route t q w h v = ground arith
  serve-IsInSync test_cmd_route t q w h v = ground arith
  serve-IsInSync factory_reset_route t q w h v = ground arith
  serve-IsInSync wifi_reset_route t q w h v = wifi-IsInSync t q w v
  serve-IsInSync evse_reset_route t q w h v = reset-IsInSync t q w v
  serve-IsInSync reboot_route t q w h v = ground arith
  serve-IsInSync do_update_route t q w h v = ground arith
  serve-IsInSync rfid_save_route t q w h v = ground arith
  serve-IsInSync rfid_add_route t q w h v = ground arith
  serve-IsInSync rfid_toggle_route t q w h v = ground arith
  serve-IsInSync rfid_delete_route t q w h v = ground arith
  serve-IsInSync rfid_learn_route t q w h v = ground arith
  serve-IsInSync (update_upload_route file_start) t q w h v = ground arith
  serve-IsInSync (update_upload_route file_write) t q w h v = v
  serve-IsInSync (update_upload_route file_end) t q w h v = v
  serve-IsInSync (update_upload_route file_aborted) t q w h v = v
  serve-IsInSync page_route t q w h v = v

  -- Over a store that reads back what was last written to a key, and through any requests but
  -- factory resets, the configuration in use stays the one that the next start of the firmware loads,
  -- and the failsafe's and the monitor's settings stay those that the MQTT client's callbacks set.
  pub serve_all-IsInSync :
      (rs : List (Route × (WebReadings × Request))) (w : Site F P)
      → all_keep rs ≡ true
      → IsInSync pr w
      → IsInSync pr (serve_all upper to_float to_int pr rs w)
  unfolding serve_all all_keep
  serve_all-IsInSync [] w h v = v
  serve_all-IsInSync ((r, (t, q)) ∷ rest) w h v =
      let (a, b) = and_parts (keeps_config r) (all_keep rest) h in
      serve_all-IsInSync rest (serve upper to_float to_int pr r t q w) b
        (serve-IsInSync r t q w a v)

  -- An admitted factory reset leaves the initial configuration in the store, for the next start, and
  -- ends the session, but the card reader's tags and flags, the LED strip's settings and its store, and
  -- the remote console stay as they are, and so does the configuration in use, until the restart that
  -- is requested.
  pub factory_reset-keeps :
      (t : WebReadings) (q : Request) (w : Site F P)
      → check_auth q w ≡ true
      → let r = serve upper to_float to_int pr factory_reset_route t q w in
        (load_config pr r.stored ≡ Config.new)
        × (r.evse.state ≡ ready)
        × (r.rfid ≡ w.rfid)
        × (r.led ≡ w.led)
        × (r.stored_led ≡ w.stored_led)
        × (r.telnet ≡ w.telnet)
        × (r.config ≡ w.config)
        × (r.reboot_pending ≡ true)
  unfolding serve handle_factory_reset stop_charging request_reboot
  factory_reset-keeps t q w h = ground (arith, load_config-save_config pr st Config.new w.stored)
