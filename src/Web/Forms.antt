-- ===== src/Web/Forms.antt =====
-- The forms of the configuration pages: their controls with the values that they show, and what a
-- browser sends. Where a script of the page disables the fields below a switch, the browser leaves
-- them out. The conversions of numbers to texts are section parameters, and so is what a browser makes
-- of a text of the configuration, which the pages write between single quotes without escaping it.
use Prim.Native.String.{String, ◌++◌}
use text.Mathlib.Text.{◌==◌ as str_eq}
use evse_sync_charge.Base.{
  ℕ, ℤ, Bool, true, false, ◌&&◌, ◌||◌, Option, none, some, List, [], ◌∷◌, ◌++◌ as ◌+++◌, ltb,
  if◌then◌else◌,
}
use evse_sync_charge.Config.{AppConfig}
use evse_sync_charge.Telnet.{Telnet}
use evse_sync_charge.Led.{LedSettings, LedStateSetting}
use evse_sync_charge.Web.{Request}

-- A control's name and the value that it shows.
abbrev pub Control : Type 0
Control = String × String

pub record Page : Type 0 where
  -- The control whose value "1" enables the fields.
  pub switch : Option String
  pub always : List Control
  pub fields : List Control

abbrev pub shows_name : String → List Control → Bool
shows_name k [] = false
shows_name k ((name, value) ∷ cs) = str_eq k name || shows_name k cs

-- The value that a control shows.
abbrev pub value_of : String → List Control → String
value_of k [] = ""
value_of k ((name, value) ∷ cs) = if str_eq k name then value else value_of k cs

abbrev pub as_shown : Page → String → String
as_shown p k = value_of k (p.always +++ p.fields)

unfoldable pub enables : Page → (String → String) → Bool
enables p entered = elim p.switch [ none ↦ true | some s ↦ str_eq (entered s) "1" ]

-- The request with the values that are entered. `admits` is about its credentials.
unfoldable pub submission : (String → String → Bool) → Page → (String → String) → Request
unfolding enables
submission admits p entered = record {
  argument = λ (k : String).
      if shows_name k p.always || (enables p entered && shows_name k p.fields)
      then some (entered k)
      else none;
  authenticate = admits;
}

-- A choice of "0" and "1".
abbrev pub choice : Bool → String
choice b = if b then "1" else "0"

-- An address that is empty or the default is shown as the network's, while there is one.
unfoldable pub address_shown : Option String → String → String → String
address_shown network default address = elim network [
  | none ↦ address
  | some now ↦ if str_eq address default || str_eq address "" then now else address
]

-- The addresses of the network that the station is in, if it is in one.
pub record Network : Type 0 where
  pub local_ip : String
  pub gateway_ip : String
  pub subnet_mask : String

module _ {F : Type 0} where
  unfoldable pub rcm_page : AppConfig F → Page
  rcm_page c = record { switch = none; always = ("rcmen", choice c.rcm_enabled) ∷ []; fields = [] }

  module _ (of_nat : ℕ → String) where
    unfoldable pub evse_page : (F → String) → AppConfig F → Page
    evse_page of_float c = record {
      switch = none;
      always =
          ("maxcur", of_float c.max_current)
          ∷ ("allowlow", choice c.allow_below_6_amp_charging)
          ∷ ("softstart", choice c.soft_start)
          ∷ ("lldelay", of_nat c.low_limit_resume_delay_ms)
          ∷ ("solto", of_nat c.solar_stop_timeout)
          ∷ [];
      fields = [];
    }

module _ {F : Type 0} (shown : String → String) where
  unfoldable pub auth_page : AppConfig F → Page
  auth_page c = record {
    switch = none;
    always = ("wuser", shown c.www_user) ∷ ("wpass", shown c.www_pass) ∷ [];
    fields = [];
  }

  module _ (of_nat : ℕ → String) where
    unfoldable pub mqtt_page : AppConfig F → Page
    mqtt_page c = record {
      switch = some "mqen";
      always = ("mqen", choice c.mqtt_enabled) ∷ [];
      fields =
          ("mqhost", shown c.mqtt_host)
          ∷ ("mqport", of_nat c.mqtt_port)
          ∷ ("mquser", shown c.mqtt_user)
          ∷ ("mqpass", shown c.mqtt_pass)
          ∷ ("mqsafe", choice c.mqtt_failsafe_enabled)
          ∷ ("mqsafet", of_nat c.mqtt_failsafe_timeout)
          ∷ [];
    }

    unfoldable pub ocpp_page : (ℤ → String) → AppConfig F → Page
    ocpp_page of_int c = record {
      switch = some "ocppen";
      always = ("ocppen", choice c.ocpp_enabled) ∷ [];
      fields =
          ("ohost", shown c.ocpp_host)
          ∷ ("oport", of_nat c.ocpp_port)
          ∷ ("ourl", shown c.ocpp_url)
          ∷ ("otls", choice c.ocpp_use_tls)
          ∷ ("okey", shown c.ocpp_auth_key)
          ∷ ("ohb", of_int c.ocpp_heartbeat_interval)
          ∷ ("orec", of_int c.ocpp_reconnect_interval)
          ∷ ("oto", of_int c.ocpp_conn_timeout)
          ∷ [];
    }

  unfoldable pub wifi_page : Option Network → AppConfig F → Page
  unfolding address_shown
  wifi_page n c =
      let now : (Network → String) → Option String =
        λ (f : Network → String). elim n [ none ↦ none | some w ↦ some (f w) ] in
      record {
        switch = some "mode";
        always =
            ("ssid", shown c.wifi_ssid)
            ∷ ("pass", shown c.wifi_pass)
            ∷ ("mode", choice c.use_static)
            ∷ [];
        fields =
            ("ip", shown (address_shown (now (λ w. w.local_ip)) "192.168.1.100" c.static_ip))
            ∷ ("gw", shown (address_shown (now (λ w. w.gateway_ip)) "192.168.1.1" c.static_gw))
            ∷ ("sn", shown (address_shown (now (λ w. w.subnet_mask)) "255.255.255.0" c.static_sn))
            ∷ [];
      }

-- The form of the access point's page.
unfoldable pub setup_page : {F : Type 0} → (String → String) → AppConfig F → Page
unfolding wifi_page
setup_page shown c = wifi_page shown none c

module _ (of_nat : ℕ → String) where
  unfoldable pub telnet_page : Telnet → Page
  telnet_page t = record {
    switch = some "ten";
    always = ("ten", choice t.enabled) ∷ [];
    fields = ("tport", of_nat t.port) ∷ [];
  }

  -- The option that is selected, the first one if none is.
  abbrev option_of : ℕ → ℕ → String
  option_of count n = of_nat (if ltb n count then n else 0)

  abbrev state_row : String → LedStateSetting → List Control → List Control
  state_row pfx s rest =
      (pfx ++ "_c", option_of 15 s.color) ∷ (pfx ++ "_e", option_of 18 s.effect) ∷ rest

  unfoldable pub led_page : LedSettings → Page
  led_page l = record {
    switch = some "len";
    always = ("len", choice l.enabled) ∷ [];
    fields =
        ("lnum", of_nat l.num_leds)
        ∷ state_row "stby" l.state_standby (
            state_row "conn" l.state_connected (
              state_row "chg" l.state_charging (
                state_row "err" l.state_error (
                  state_row "wifi" l.state_wifi (
                    state_row "boot" l.state_boot (
                      state_row "solidle" l.state_solar_idle (
                        state_row "lockout" l.state_safety_lockout (
                          state_row "rfidok" l.state_rfid_ok
                            (state_row "rfidnok" l.state_rfid_reject [])))))))));
  }
