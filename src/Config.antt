-- ===== src/Config.antt =====
-- EVSE-SyncCharge/EvseConfig.h and EvseConfig.cpp: the configuration, how it is loaded and saved.
pub mod Stored
use Prim.Native.String.{String}
use evse_sync_charge.Base.{ℕ, ℤ, pos, Bool, true, false, Option, List, [], ◌∷◌}
use evse_sync_charge.Float.{Float}
use evse_sync_charge.Prefs.{
  Preferences, Value, text_value, flag, ushort, ulong, int, real, text_or, flag_or, ushort_or,
  ulong_or, int_or, real_or, put_all,
}

pub record AppConfig (F : Type 0) : Type 0 where
  pub wifi_ssid : String
  pub wifi_pass : String
  pub use_static : Bool
  pub static_ip : String
  pub static_gw : String
  pub static_sn : String
  pub mqtt_enabled : Bool
  pub mqtt_host : String
  pub mqtt_port : ℕ
  pub mqtt_user : String
  pub mqtt_pass : String
  pub www_user : String
  pub www_pass : String
  pub allow_below_6_amp_charging : Bool
  pub soft_start : Bool
  pub pause_immediate : Bool
  pub low_limit_resume_delay_ms : ℕ
  pub max_current : F
  pub mqtt_failsafe_enabled : Bool
  pub mqtt_failsafe_timeout : ℕ
  pub rcm_enabled : Bool
  pub solar_stop_timeout : ℕ
  pub ocpp_enabled : Bool
  pub ocpp_host : String
  pub ocpp_port : ℕ
  pub ocpp_url : String
  pub ocpp_use_tls : Bool
  pub ocpp_auth_key : String
  pub ocpp_heartbeat_interval : ℤ
  pub ocpp_reconnect_interval : ℤ
  pub ocpp_conn_timeout : ℤ

module _ {F : Type 0} where
  -- The writes of saveConfig, in their order.
  unfoldable pub entries : AppConfig F → List (String × Value F)
  entries c =
      ("w_ssid", text_value c.wifi_ssid)
      ∷ ("w_pass", text_value c.wifi_pass)
      ∷ ("w_static", flag c.use_static)
      ∷ ("w_ip", text_value c.static_ip)
      ∷ ("w_gw", text_value c.static_gw)
      ∷ ("w_sn", text_value c.static_sn)
      ∷ ("m_en", flag c.mqtt_enabled)
      ∷ ("m_host", text_value c.mqtt_host)
      ∷ ("m_port", ushort c.mqtt_port)
      ∷ ("m_user", text_value c.mqtt_user)
      ∷ ("m_pass", text_value c.mqtt_pass)
      ∷ ("w_user", text_value c.www_user)
      ∷ ("w_pwd", text_value c.www_pass)
      ∷ ("e_allow_low", flag c.allow_below_6_amp_charging)
      ∷ ("e_pause_im", flag c.pause_immediate)
      ∷ ("e_soft_start", flag c.soft_start)
      ∷ ("e_res_delay", ulong c.low_limit_resume_delay_ms)
      ∷ ("e_max_cur", real c.max_current)
      ∷ ("m_safe", flag c.mqtt_failsafe_enabled)
      ∷ ("m_safe_t", ulong c.mqtt_failsafe_timeout)
      ∷ ("e_rcm_en", flag c.rcm_enabled)
      ∷ ("e_sol_to", ulong c.solar_stop_timeout)
      ∷ ("o_en", flag c.ocpp_enabled)
      ∷ ("o_host", text_value c.ocpp_host)
      ∷ ("o_port", ushort c.ocpp_port)
      ∷ ("o_url", text_value c.ocpp_url)
      ∷ ("o_tls", flag c.ocpp_use_tls)
      ∷ ("o_key", text_value c.ocpp_auth_key)
      ∷ ("o_hb", int c.ocpp_heartbeat_interval)
      ∷ ("o_rec", int c.ocpp_reconnect_interval)
      ∷ ("o_to", int c.ocpp_conn_timeout)
      ∷ []

module _ {F P : Type 0} (pr : Preferences F P) where
  unfoldable pub save_config : AppConfig F → P → P
  unfolding entries
  save_config c p = put_all pr (entries c) p

module _ {F P : Type 0} ⦃fl : Float F⦄ (pr : Preferences F P) where
  -- Every field is set, so the configuration before the call does not matter.
  unfoldable pub load_config : P → AppConfig F
  load_config p = record {
    wifi_ssid = text_or "" (pr.get "w_ssid" p);
    wifi_pass = text_or "" (pr.get "w_pass" p);
    use_static = flag_or false (pr.get "w_static" p);
    static_ip = text_or "192.168.1.100" (pr.get "w_ip" p);
    static_gw = text_or "192.168.1.1" (pr.get "w_gw" p);
    static_sn = text_or "255.255.255.0" (pr.get "w_sn" p);
    mqtt_enabled = flag_or false (pr.get "m_en" p);
    mqtt_host = text_or "" (pr.get "m_host" p);
    mqtt_port = ushort_or 1883 (pr.get "m_port" p);
    mqtt_user = text_or "" (pr.get "m_user" p);
    mqtt_pass = text_or "" (pr.get "m_pass" p);
    www_user = text_or "admin" (pr.get "w_user" p);
    www_pass = text_or "admin" (pr.get "w_pwd" p);
    allow_below_6_amp_charging = flag_or false (pr.get "e_allow_low" p);
    soft_start = flag_or false (pr.get "e_soft_start" p);
    pause_immediate = flag_or true (pr.get "e_pause_im" p);
    low_limit_resume_delay_ms = ulong_or 300000 (pr.get "e_res_delay" p);
    max_current = real_or (fl.lit 32 0) (pr.get "e_max_cur" p);
    mqtt_failsafe_enabled = flag_or false (pr.get "m_safe" p);
    mqtt_failsafe_timeout = ulong_or 600 (pr.get "m_safe_t" p);
    rcm_enabled = flag_or false (pr.get "e_rcm_en" p);
    solar_stop_timeout = ulong_or 0 (pr.get "e_sol_to" p);
    ocpp_enabled = flag_or false (pr.get "o_en" p);
    ocpp_host = text_or "" (pr.get "o_host" p);
    ocpp_port = ushort_or 80 (pr.get "o_port" p);
    ocpp_url = text_or "/ocpp/1.6" (pr.get "o_url" p);
    ocpp_use_tls = flag_or false (pr.get "o_tls" p);
    ocpp_auth_key = text_or "" (pr.get "o_key" p);
    ocpp_heartbeat_interval = int_or (pos 60) (pr.get "o_hb" p);
    ocpp_reconnect_interval = int_or (pos 5000) (pr.get "o_rec" p);
    ocpp_conn_timeout = int_or (pos 10000) (pr.get "o_to" p);
  }

module _ {F : Type 0} ⦃fl : Float F⦄ where
  -- The initialisers of the struct.
  unfoldable pub new : AppConfig F
  new = record {
    wifi_ssid = "";
    wifi_pass = "";
    use_static = false;
    static_ip = "192.168.1.100";
    static_gw = "192.168.1.1";
    static_sn = "255.255.255.0";
    mqtt_enabled = false;
    mqtt_host = "";
    mqtt_port = 1883;
    mqtt_user = "";
    mqtt_pass = "";
    www_user = "admin";
    www_pass = "admin";
    allow_below_6_amp_charging = false;
    soft_start = false;
    pause_immediate = true;
    low_limit_resume_delay_ms = 300000;
    max_current = fl.lit 32 0;
    mqtt_failsafe_enabled = false;
    mqtt_failsafe_timeout = 600;
    rcm_enabled = false;
    solar_stop_timeout = 0;
    ocpp_enabled = false;
    ocpp_host = "";
    ocpp_port = 9000;
    ocpp_url = "/ocpp/1.6";
    ocpp_use_tls = false;
    ocpp_auth_key = "";
    ocpp_heartbeat_interval = pos 60;
    ocpp_reconnect_interval = pos 5000;
    ocpp_conn_timeout = pos 10000;
  }
