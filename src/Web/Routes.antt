-- ===== src/Web/Routes.antt =====
-- The routes that `begin` registers, whose pages only show something left out, and the handlers that
-- act.
use Prim.Native.String.{String}
use text.Mathlib.Text.{◌==◌ as str_eq}
use evse_sync_charge.Base.{ℕ, ℤ, Bool, true, false, not, ◌&&◌, List, [], ◌∷◌, if◌then◌else◌}
use evse_sync_charge.Float.{Float}
use evse_sync_charge.Types.{ChargingSettings}
use evse_sync_charge.Prefs.{Preferences}
use evse_sync_charge.Config
use evse_sync_charge.Config.{save_config}
use evse_sync_charge.Pilot
use evse_sync_charge.Pilot.{duty_to_amps}
use evse_sync_charge.Charge
use evse_sync_charge.Charge.{Evse, set_rcm_enabled}
use evse_sync_charge.Charge.Control.{
  StartReadings, start_charging, stop_charging, pause_charging, enable_current_test,
  set_current_test,
}
use evse_sync_charge.Rfid.{Rfid, set_enabled, set_buzzer_enabled, start_learning}
use evse_sync_charge.Rfid.Tags.{add_tag, toggle_tag_status, delete_tag}
use evse_sync_charge.Led.{start_test_sequence}
use evse_sync_charge.Web.{
  Site, Request, has_arg, arg, is_one, check_auth, with_config, request_reboot,
}
use evse_sync_charge.Web.Save.{handle_save_config}

pub data Upload : Type 0 where
  file_start file_write file_end file_aborted : Upload

-- What a handler takes: the readings of a start, the clock, whether the preferences take the list of
-- tags, the results of the ADC's driver, and whether the updater has an error.
pub record WebReadings : Type 0 where
  pub start : StartReadings
  pub now : ℕ
  pub written : Bool
  pub channel : Bool
  pub handle_made : Bool
  pub configured : Bool
  pub begun : Bool
  pub update_error : Bool

pub data Route : Type 0 where
  save_config_route cmd_route test_cmd_route factory_reset_route wifi_reset_route evse_reset_route
        reboot_route do_update_route rfid_save_route rfid_add_route rfid_toggle_route
        rfid_delete_route rfid_learn_route :
      Route
  update_upload_route : Upload → Route
  -- A page that only shows something.
  page_route : Route

-- evse.stopCharging(); pilot.disable();
abbrev pub halt : {F : Type 0} → ⦃fl : Float F⦄ → Evse F → Evse F
halt s = let stopped = stop_charging s in record stopped { pilot = Pilot.disable stopped.pilot }

module _ {F P : Type 0} ⦃fl : Float F⦄ where
  unfoldable pub command_of : WebReadings → String → Site F P → Site F P
  command_of t op w =
      if str_eq op "start"
      then record w { evse = start_charging t.start w.evse }
      else if str_eq op "pause"
      then record w { evse = pause_charging w.evse }
      else if str_eq op "stop"
      then record w { evse = halt w.evse }
      else if str_eq op "ledtest"
      then record w { led = start_test_sequence t.now w.led }
      else w

  unfoldable pub handle_cmd : WebReadings → Request → Site F P → Site F P
  handle_cmd t q w = if not (check_auth q w) then w else command_of t (arg q "do") w

  unfoldable pub test_command : (String → F) → String → String → Site F P → Site F P
  test_command to_float act val w =
      if str_eq act "on"
      then record w { evse = enable_current_test true w.evse }
      else if str_eq act "off"
      then record w { evse = enable_current_test false w.evse }
      else if str_eq act "pwm"
      then record w { evse = set_current_test (duty_to_amps (to_float val)) w.evse }
      else w

  unfoldable pub handle_test_cmd : (String → F) → Request → Site F P → Site F P
  handle_test_cmd to_float q w =
      if not (check_auth q w) then w else test_command to_float (arg q "act") (arg q "val") w

  -- The configuration in use stays; what is stored is that of a new struct.
  unfoldable pub handle_factory_reset :
      Preferences F P → WebReadings → Request → Site F P → Site F P
  unfolding request_reboot
  handle_factory_reset pr t q w =
      if not (check_auth q w)
      then w
      else request_reboot t.now
          (record w { evse = halt w.evse; stored = save_config pr Config.new w.stored })

  unfoldable pub handle_wifi_reset : Preferences F P → WebReadings → Request → Site F P → Site F P
  unfolding request_reboot
  handle_wifi_reset pr t q w =
      let c = record w.config { wifi_ssid = ""; wifi_pass = ""; use_static = false } in
      if not (check_auth q w)
      then w
      else request_reboot t.now (record (with_config c w) { stored = save_config pr c w.stored })

  unfoldable pub handle_evse_reset : Preferences F P → WebReadings → Request → Site F P → Site F P
  handle_evse_reset pr t q w =
      let c = record w.config {
        max_current = fl.lit 32 0;
        rcm_enabled = true;
        allow_below_6_amp_charging = false;
        soft_start = false;
        low_limit_resume_delay_ms = 300000;
      } in
      let cs : ChargingSettings F = record {
        max_current = c.max_current;
        ac_relais_open_at_pause = false;
        disable_at_low_limit = not c.allow_below_6_amp_charging;
        soft_start = c.soft_start;
        low_limit_resume_delay_ms = c.low_limit_resume_delay_ms;
      } in
      if not (check_auth q w) then w else record (with_config c w) {
        stored = save_config pr c w.stored;
        evse =
            set_rcm_enabled c.rcm_enabled
              (Charge.setup t.channel t.handle_made t.configured t.begun t.now cs w.evse);
      }

  unfoldable pub handle_reboot : WebReadings → Request → Site F P → Site F P
  handle_reboot t q w = if check_auth q w then request_reboot t.now w else w

  unfoldable pub handle_do_update : WebReadings → Site F P → Site F P
  handle_do_update t w = if not t.update_error then request_reboot t.now w else w

  unfoldable pub handle_update_upload : Upload → Site F P → Site F P
  unfolding stop_charging Pilot.stop
  handle_update_upload file_start w =
      let stopped = stop_charging w.evse in
      record w { ota_updating = true; evse = record stopped { pilot = Pilot.stop stopped.pilot } }
  handle_update_upload file_write w = w
  handle_update_upload file_end w = w
  handle_update_upload file_aborted w = w

unfoldable pub save_reader : Request → Rfid → Rfid
save_reader q r =
    let enabled = if has_arg q "en" then set_enabled (is_one q "en") r else r in
    if has_arg q "bz" then set_buzzer_enabled (is_one q "bz") enabled else enabled

module _ {F P : Type 0} where
  unfoldable pub rfid_save : Request → Site F P → Site F P
  rfid_save q w = if check_auth q w then record w { rfid = save_reader q w.rfid } else w

  unfoldable pub rfid_learn : Request → Site F P → Site F P
  rfid_learn q w = if check_auth q w then record w { rfid = start_learning w.rfid } else w

  module _ (upper : String → String) where
    unfoldable pub rfid_add : Bool → Request → Site F P → Site F P
    rfid_add written q w =
        if check_auth q w && has_arg q "uid"
        then record w { rfid = (add_tag upper written (arg q "uid") (arg q "name") w.rfid).1 }
        else w

    unfoldable pub rfid_toggle : Bool → Request → Site F P → Site F P
    rfid_toggle written q w =
        if check_auth q w && has_arg q "uid"
        then record w { rfid = toggle_tag_status upper written (arg q "uid") w.rfid }
        else w

    unfoldable pub rfid_delete : Bool → Request → Site F P → Site F P
    rfid_delete written q w =
        if check_auth q w && has_arg q "uid"
        then record w { rfid = delete_tag upper written (arg q "uid") w.rfid }
        else w

module _ {F P : Type 0} ⦃fl : Float F⦄ (upper : String → String) (to_float : String → F)
    (to_int : String → ℤ) (pr : Preferences F P) where
  unfoldable pub serve : Route → WebReadings → Request → Site F P → Site F P
  serve save_config_route t q w = handle_save_config to_float to_int pr t.now q w
  serve cmd_route t q w = handle_cmd t q w
  serve test_cmd_route t q w = handle_test_cmd to_float q w
  serve factory_reset_route t q w = handle_factory_reset pr t q w
  serve wifi_reset_route t q w = handle_wifi_reset pr t q w
  serve evse_reset_route t q w = handle_evse_reset pr t q w
  serve reboot_route t q w = handle_reboot t q w
  serve do_update_route t q w = handle_do_update t w
  serve rfid_save_route t q w = rfid_save q w
  serve rfid_add_route t q w = rfid_add upper t.written q w
  serve rfid_toggle_route t q w = rfid_toggle upper t.written q w
  serve rfid_delete_route t q w = rfid_delete upper t.written q w
  serve rfid_learn_route t q w = rfid_learn q w
  serve (update_upload_route u) t q w = handle_update_upload u w
  serve page_route t q w = w

  -- Requests one after another, each with its route and readings.
  unfoldable pub serve_all : List (Route × (WebReadings × Request)) → Site F P → Site F P
  serve_all [] w = w
  serve_all ((r, (t, q)) ∷ rest) w = serve_all rest (serve r t q w)
