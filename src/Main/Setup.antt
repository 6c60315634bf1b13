-- ===== src/Main/Setup.antt =====
-- `setup`: from the stored configuration to the running parts. The serial port, the watchdog, the
-- names, the card reader's chip, the OTA library and the creation of the task are left out, and so is
-- the LED's animation while the setup waits for WiFi.
use text.Mathlib.Text.{◌==◌ as str_eq}
use evse_sync_charge.Base.{ℕ, Bool, true, false, not, ◌&&◌, if◌then◌else◌}
use evse_sync_charge.Float.{Float}
use evse_sync_charge.Types.{ChargingSettings}
use evse_sync_charge.Prefs.{Preferences}
use evse_sync_charge.Config.{AppConfig, load_config}
use evse_sync_charge.Boot
use evse_sync_charge.Boot.{is_boot_count_high}
use evse_sync_charge.Charge.{preinit_hard, set_throttle_alive_timeout}
use evse_sync_charge.Mqtt
use evse_sync_charge.Mqtt.{set_failsafe_config}
use evse_sync_charge.Ocpp
use evse_sync_charge.Rfid
use evse_sync_charge.Telnet
use evse_sync_charge.Led.{led_boot, led_ready, led_wifi_config, set_state}
use evse_sync_charge.Led.Settings
use evse_sync_charge.Main.{Init, init_hardware}
use evse_sync_charge.Web.{Site, with_config}

-- The parts with the boot counter's register and isFallbackApMode.
pub record Board (F P : Type 0) : Type 0 where
  pub site : Site F P
  pub register : ℕ
  pub fallback_ap : Bool

-- What the setup takes: whether WiFi connects, the console's preferences, and what the hardware's
-- initialisation takes.
pub record SetupReadings : Type 0 where
  pub wifi : Bool
  pub telnet_enabled : Bool
  pub telnet_port : ℕ
  pub channel : Bool
  pub handle_made : Bool
  pub configured : Bool
  pub begun : Bool
  pub now : ℕ
  pub semaphore : Bool
  pub edge : Bool

unfoldable pub settings_of : {F : Type 0} → AppConfig F → ChargingSettings F
settings_of c = record {
  max_current = c.max_current;
  ac_relais_open_at_pause = false;
  disable_at_low_limit = not c.allow_below_6_amp_charging;
  soft_start = c.soft_start;
  low_limit_resume_delay_ms = c.low_limit_resume_delay_ms;
}

module _ {F P : Type 0} where
  unfoldable pub apply_mqtt_config : Site F P → Site F P
  apply_mqtt_config w =
      if w.config.mqtt_enabled && not (str_eq w.config.mqtt_host "")
      then record w { mqtt = Mqtt.begin w.config.mqtt_host w.mqtt }
      else w

  -- From the test for an SSID to webController.begin.
  unfoldable pub connect : Bool → Board F P → Board F P
  connect wifi b =
      let w = b.site in
      let alone = record w { ap_mode = true } in
      if str_eq w.config.wifi_ssid ""
      then record b { site = alone }
      else if wifi
      then record b {
        site = record (apply_mqtt_config (record w { led = set_state led_ready w.led })) {
          ap_mode = false;
        };
      }
      else record b {
        site = record alone { led = set_state led_wifi_config alone.led };
        fallback_ap = true;
      }

-- What the initialisation of the hardware is given.
unfoldable pub init_of : {F : Type 0} → SetupReadings → AppConfig F → ℕ → Init F
unfolding settings_of
init_of t c register = record {
  channel = t.channel;
  handle_made = t.handle_made;
  configured = t.configured;
  begun = t.begun;
  now = t.now;
  settings = settings_of c;
  rcm_enabled = c.rcm_enabled;
  semaphore = t.semaphore;
  edge = t.edge;
  register = register;
}

module _ {F P : Type 0} ⦃fl : Float F⦄ (pr : Preferences F P) where
  -- Up to ocppHandler.setConfig.
  unfoldable pub load : Board F P → Board F P
  unfolding preinit_hard Boot.begin
  load b =
      let w = b.site in
      let c = load_config pr w.stored in
      let loaded = with_config c (record w {
        evse = preinit_hard w.evse;
        led = set_state led_boot (Settings.load_config pr w.stored_led w.led);
      }) in
      record b {
        register = Boot.begin b.register;
        site = record loaded {
          mqtt = set_failsafe_config c.mqtt_failsafe_enabled c.mqtt_failsafe_timeout loaded.mqtt;
          evse = set_throttle_alive_timeout c.solar_stop_timeout loaded.evse;
          ocpp =
              Ocpp.set_config c.ocpp_enabled c.ocpp_host c.ocpp_port c.ocpp_url c.ocpp_use_tls
                c.ocpp_auth_key c.ocpp_heartbeat_interval c.ocpp_reconnect_interval loaded.ocpp;
        };
      }

  unfoldable pub setup : SetupReadings → Board F P → Board F P
  unfolding load connect init_of
  setup t b =
      let connected = connect t.wifi (load b) in
      let w = connected.site in
      record connected {
        site = record w {
          telnet = Telnet.begin t.telnet_enabled t.telnet_port w.telnet;
          evse = init_hardware (init_of t w.config connected.register) w.evse;
          rfid = Rfid.begin w.rfid;
        };
      }
