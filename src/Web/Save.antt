-- ===== src/Web/Save.antt =====
-- `handleSaveConfig`: the form of every page for the configuration.
use Prim.Native.String.{String, ◌++◌}
use evse_sync_charge.Base.{ℕ, ℤ, Bool, not, ◌&&◌, ◌||◌, to_u16, to_u32, if◌then◌else◌}
use evse_sync_charge.Float.{Float}
use evse_sync_charge.Prefs.{Preferences}
use evse_sync_charge.Config.{AppConfig, save_config}
use evse_sync_charge.Pilot.{constrain, min_current, max_current}
use evse_sync_charge.Charge.{set_throttle_alive_timeout, set_rcm_enabled}
use evse_sync_charge.Mqtt.{set_failsafe_config}
use evse_sync_charge.Ocpp
use evse_sync_charge.Telnet
use evse_sync_charge.Led.{LedSettings, LedStateSetting, shows}
use evse_sync_charge.Led.Settings.{update_config}
use evse_sync_charge.Web.{
  Site, Request, has_arg, arg, is_one, check_auth, with_config, request_reboot,
}

unfoldable pub reboot_required : Request → Bool
reboot_required q = has_arg q "mqhost" || has_arg q "ohost" || has_arg q "rcmen" || has_arg q "ssid"

module _ {F : Type 0} where
  unfoldable pub save_rcm : Request → AppConfig F → AppConfig F
  save_rcm q c = if has_arg q "rcmen" then record c { rcm_enabled = is_one q "rcmen" } else c

  unfoldable pub save_user : Request → AppConfig F → AppConfig F
  save_user q c =
      if has_arg q "wuser"
      then record c { www_user = arg q "wuser"; www_pass = arg q "wpass" }
      else c

  unfoldable pub save_address : Request → AppConfig F → AppConfig F
  save_address q c =
      if has_arg q "mode"
      then record c {
        use_static = is_one q "mode";
        static_ip = arg q "ip";
        static_gw = arg q "gw";
        static_sn = arg q "sn";
      }
      else c

  unfoldable pub save_wifi : Request → AppConfig F → AppConfig F
  unfolding save_address
  save_wifi q c =
      if has_arg q "ssid"
      then save_address q (record c { wifi_ssid = arg q "ssid"; wifi_pass = arg q "pass" })
      else c

module _ (to_int : String → ℤ) where
  abbrev get_st : Request → String → LedStateSetting
  get_st q pfx =
      shows (to_u32 (to_int (arg q (pfx ++ "_c")))) (to_u32 (to_int (arg q (pfx ++ "_e"))))

  unfoldable pub led_settings : Request → LedSettings
  led_settings q = record {
    enabled = is_one q "len";
    num_leds = to_u16 (to_int (arg q "lnum"));
    state_standby = get_st q "stby";
    state_connected = get_st q "conn";
    state_charging = get_st q "chg";
    state_error = get_st q "err";
    state_wifi = get_st q "wifi";
    state_boot = get_st q "boot";
    state_solar_idle = get_st q "solidle";
    state_safety_lockout = get_st q "lockout";
    state_rfid_ok = get_st q "rfidok";
    state_rfid_reject = get_st q "rfidnok";
  }

  module _ {F : Type 0} where
    unfoldable pub save_mqtt : Request → AppConfig F → AppConfig F
    save_mqtt q c =
        if has_arg q "mqhost"
        then record c {
          mqtt_enabled = is_one q "mqen";
          mqtt_host = arg q "mqhost";
          mqtt_port = to_u16 (to_int (arg q "mqport"));
          mqtt_user = arg q "mquser";
          mqtt_pass = arg q "mqpass";
          mqtt_failsafe_enabled = is_one q "mqsafe";
          mqtt_failsafe_timeout = to_u32 (to_int (arg q "mqsafet"));
        }
        else c

    unfoldable pub save_ocpp : Request → AppConfig F → AppConfig F
    save_ocpp q c =
        if has_arg q "ohost"
        then record c {
          ocpp_enabled = is_one q "ocppen";
          ocpp_host = arg q "ohost";
          ocpp_port = to_u16 (to_int (arg q "oport"));
          ocpp_url = arg q "ourl";
          ocpp_use_tls = is_one q "otls";
          ocpp_auth_key = arg q "okey";
          ocpp_heartbeat_interval = to_int (arg q "ohb");
          ocpp_reconnect_interval = to_int (arg q "orec");
          ocpp_conn_timeout = to_int (arg q "oto");
        }
        else c

  module _ {F P : Type 0} where
    unfoldable pub save_telnet : Request → Site F P → Site F P
    save_telnet q w =
        if has_arg q "ten"
        then record w {
          telnet = Telnet.update_config (is_one q "ten") (to_u16 (to_int (arg q "tport"))) w.telnet;
        }
        else w

module _ {F : Type 0} ⦃fl : Float F⦄ (to_float : String → F) (to_int : String → ℤ) where
  unfoldable pub save_charging : Request → AppConfig F → AppConfig F
  save_charging q c =
      if has_arg q "maxcur"
      then record c {
        max_current = constrain (to_float (arg q "maxcur")) min_current max_current;
        allow_below_6_amp_charging = is_one q "allowlow";
        soft_start = is_one q "softstart";
        low_limit_resume_delay_ms = to_u32 (to_int (arg q "lldelay"));
        solar_stop_timeout = to_u32 (to_int (arg q "solto"));
      }
      else c

  -- What the form does to the configuration.
  unfoldable pub changed : Request → AppConfig F → AppConfig F
  changed q c =
      save_wifi q
        (save_user q (save_rcm q (save_ocpp to_int q (save_mqtt to_int q (save_charging q c)))))

module _ {F P : Type 0} (to_int : String → ℤ) (pr : Preferences F P) where
  unfoldable pub save_led : Request → Site F P → Site F P
  unfolding led_settings
  save_led q w =
      if has_arg q "len"
      then (let (l, p) = update_config pr (led_settings to_int q) (w.led, w.stored_led) in
          record w { led = l; stored_led = p })
      else w

module _ {F P : Type 0} (pr : Preferences F P) where
  -- From saveConfig(config) to setRcmEnabled.
  unfoldable pub apply : Site F P → Site F P
  apply w =
      let c = w.config in
      record w {
        stored = save_config pr c w.stored;
        mqtt = set_failsafe_config c.mqtt_failsafe_enabled c.mqtt_failsafe_timeout w.mqtt;
        ocpp =
            Ocpp.set_config c.ocpp_enabled c.ocpp_host c.ocpp_port c.ocpp_url c.ocpp_use_tls
              c.ocpp_auth_key c.ocpp_heartbeat_interval c.ocpp_reconnect_interval w.ocpp;
        evse =
            set_rcm_enabled c.rcm_enabled (set_throttle_alive_timeout c.solar_stop_timeout w.evse);
      }

module _ {F P : Type 0} ⦃fl : Float F⦄ (to_float : String → F) (to_int : String → ℤ)
    (pr : Preferences F P) where
  unfoldable pub handle_save_config : ℕ → Request → Site F P → Site F P
  handle_save_config now q w =
      if not (check_auth q w) && not w.ap_mode
      then w
      else (let saved = apply pr (
            save_telnet to_int q
              (save_led to_int pr q (with_config (changed to_float to_int q w.config) w))) in
          if w.ap_mode || reboot_required q then request_reboot now saved else saved)
