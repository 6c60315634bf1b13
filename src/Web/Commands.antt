-- ===== src/Web/Commands.antt =====
-- What the requests do to the controller.
use Prim.Native.String.{String}
use text.Mathlib.Text.{◌==◌ as str_eq}
use evse_sync_charge.Base.{
  ℤ, ◌≡◌, refl, true, false, not, ◌&&◌, List, [], ◌∷◌, arith, if◌then◌else◌,
}
use evse_sync_charge.Float.{Float}
use evse_sync_charge.Types.{ChargingSettings}
use evse_sync_charge.Prefs.{Preferences}
use evse_sync_charge.Pilot.{duty_to_amps}
use evse_sync_charge.Charge.Run.{
  Command, set_up, start, stop, pause, test_mode, test_amps, alive_timeout, enable_rcm,
  pilot_disable, pilot_stop, exec, run, run-IsSafe,
}
use evse_sync_charge.Charge.Session.{IsSafe}
use evse_sync_charge.Web.{Site, Request, arg, check_auth, request_reboot}
use evse_sync_charge.Web.Save.{changed, save_led, save_telnet, apply, handle_save_config}
use evse_sync_charge.Web.Routes.{
  file_start, file_write, file_end, file_aborted, WebReadings, Route, save_config_route, cmd_route,
  test_cmd_route, factory_reset_route, wifi_reset_route, evse_reset_route, reboot_route,
  do_update_route, rfid_save_route, rfid_add_route, rfid_toggle_route, rfid_delete_route,
  rfid_learn_route, update_upload_route, page_route, command_of, test_command, handle_cmd,
  handle_test_cmd, handle_factory_reset, handle_wifi_reset, handle_evse_reset, handle_reboot,
  handle_do_update, handle_update_upload, rfid_save, rfid_learn, rfid_add, rfid_toggle, rfid_delete,
  serve, serve_all,
}

module _ {F : Type 0} ⦃fl : Float F⦄ where
  unfoldable named_commands : WebReadings → String → List (Command F)
  named_commands t op =
      if str_eq op "start"
      then start t.start ∷ []
      else if str_eq op "pause"
      then pause ∷ []
      else if str_eq op "stop"
      then stop ∷ pilot_disable ∷ []
      else []

  unfoldable test_commands : (String → F) → String → String → List (Command F)
  test_commands to_float act val =
      if str_eq act "on"
      then test_mode true ∷ []
      else if str_eq act "off"
      then test_mode false ∷ []
      else if str_eq act "pwm"
      then test_amps (duty_to_amps (to_float val)) ∷ []
      else []

  abbrev pub reset_settings : ChargingSettings F
  reset_settings = record {
    max_current = fl.lit 32 0;
    ac_relais_open_at_pause = false;
    disable_at_low_limit = true;
    soft_start = false;
    low_limit_resume_delay_ms = 300000;
  }

module _ {F P : Type 0} ⦃fl : Float F⦄ (upper : String → String) (to_float : String → F)
    (to_int : String → ℤ) (pr : Preferences F P) where
  -- The commands that a request gives the controller.
  unfoldable pub commands : Route → WebReadings → Request → Site F P → List (Command F)
  unfolding named_commands test_commands
  commands save_config_route t q w =
      if not (check_auth q w) && not w.ap_mode
      then []
      else (let c = changed to_float to_int q w.config in
          alive_timeout c.solar_stop_timeout ∷ enable_rcm c.rcm_enabled ∷ [])
  commands cmd_route t q w = if check_auth q w then named_commands t (arg q "do") else []
  commands test_cmd_route t q w =
      if check_auth q w then test_commands to_float (arg q "act") (arg q "val") else []
  commands factory_reset_route t q w = if check_auth q w then stop ∷ pilot_disable ∷ [] else []
  commands evse_reset_route t q w =
      if check_auth q w
      then set_up t.channel t.handle_made t.configured t.begun t.now reset_settings
        ∷ enable_rcm true
        ∷ []
      else []
  commands (update_upload_route file_start) t q w = stop ∷ pilot_stop ∷ []
  commands _ t q w = []

  save-run :
      (t : WebReadings) (q : Request) (w : Site F P)
      → (handle_save_config to_float to_int pr t.now q w).evse
        ≡ run (commands save_config_route t q w) w.evse
  unfolding handle_save_config request_reboot apply save_telnet save_led commands run exec
  save-run t q w = ground arith

  -- What a request does to the controller is what a sequence of commands does, which the route, the
  -- request and the configuration give; it is empty for every request that is denied, the
  -- pages that only show something, the card reader's routes and the resets of WiFi and the chip.
  pub serve-run :
      (r : Route) (t : WebReadings) (q : Request) (w : Site F P)
      → (serve upper to_float to_int pr r t q w).evse ≡ run (commands r t q w) w.evse
  unfolding serve commands named_commands test_commands run exec handle_cmd command_of
      handle_test_cmd test_command handle_factory_reset handle_wifi_reset handle_evse_reset
      handle_reboot handle_do_update handle_update_upload rfid_save rfid_learn rfid_add rfid_toggle
      rfid_delete request_reboot
  serve-run save_config_route t q w = save-run t q w
  serve-run cmd_route t q w = ground arith
  serve-run test_cmd_route t q w = ground arith
  serve-run factory_reset_route t q w = ground arith
  serve-run wifi_reset_route t q w = ground arith
  serve-run evse_reset_route t q w = ground arith
  serve-run reboot_route t q w = ground arith
  serve-run do_update_route t q w = ground arith
  serve-run rfid_save_route t q w = ground arith
  serve-run rfid_add_route t q w = ground arith
  serve-run rfid_toggle_route t q w = ground arith
  serve-run rfid_delete_route t q w = ground arith
  serve-run rfid_learn_route t q w = ground arith
  serve-run (update_upload_route file_start) t q w = refl
  serve-run (update_upload_route file_write) t q w = refl
  serve-run (update_upload_route file_end) t q w = refl
  serve-run (update_upload_route file_aborted) t q w = refl
  serve-run page_route t q w = refl

  -- Requests, one after another, keep the controller's invariant.
  pub serve_all-IsSafe :
      (rs : List (Route × (WebReadings × Request))) (w : Site F P)
      → IsSafe w.evse
      → IsSafe (serve_all upper to_float to_int pr rs w).evse
  unfolding serve_all
  serve_all-IsSafe [] w v = v
  serve_all-IsSafe ((r, (t, q)) ∷ rest) w v =
      serve_all-IsSafe rest (serve upper to_float to_int pr r t q w)
        (rw (serve-run r t q w) (run-IsSafe (commands r t q w) w.evse v))
