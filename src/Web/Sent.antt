-- ===== src/Web/Sent.antt =====
-- The forms of the configuration pages as they are sent, and `handleSaveConfig`.
use Prim.Native.String.{String, [], ◌∷◌}
use text.Mathlib.Text.{◌==◌ as str_eq}
use evse_sync_charge.Base.{
  ℕ, ℤ, pos, ◌<◌, ◌≡◌, refl, ◌∙◌, Bool, true, false, not, ◌&&◌, arith, to_u16, to_u32,
}
use evse_sync_charge.Float.{Float}
use evse_sync_charge.Config.{AppConfig}
use evse_sync_charge.Web.{has_arg, arg}
use evse_sync_charge.Web.Save.{save_mqtt, save_ocpp, save_rcm, save_user, changed}
use evse_sync_charge.Web.Absent.{
  has-on, arg_entered, changed-none, changed-mqtt, changed-ocpp, changed-rcm, changed-user,
  off-Parts, on-Parts,
}
use evse_sync_charge.Web.Forms.{
  enables, choice, Page, submission, as_shown, rcm_page, auth_page, mqtt_page, ocpp_page,
}

module _ {F : Type 0} ⦃fl : Float F⦄ (to_float : String → F) (to_int : String → ℤ)
    (of_nat : ℕ → String) (admits : String → String → Bool) (entered : String → String) where
  -- Sent with their switches off, whatever their other controls show or hold, the MQTT page and the
  -- OCPP page change nothing of the configuration: neither client is disabled by its page.
  pub switched_off :
      (shown : String → String) (of_int : ℤ → String) (c : AppConfig F)
      → str_eq (entered "mqen") "1" ≡ false
      → str_eq (entered "ocppen") "1" ≡ false
      → (changed to_float to_int (submission admits (mqtt_page shown of_nat c) entered) c ≡ c)
        × (changed to_float to_int (submission admits (ocpp_page shown of_nat of_int c) entered) c
            ≡ c)
  unfolding mqtt_page ocpp_page enables
  switched_off shown of_int c e f = (
    changed-none to_float to_int _ c (off-Parts admits (mqtt_page shown of_nat c) entered e),
    changed-none to_float to_int _ c (off-Parts admits (ocpp_page shown of_nat of_int c) entered f),
  )

-- What the texts of numbers read back as.
pub record IsPrinted (to_int : String → ℤ) (of_nat : ℕ → String) (of_int : ℤ → String)
    : Type 0 where
  pub nat_read : (n : ℕ) → n < 2147483648 → to_int (of_nat n) ≡ pos n
  pub int_read : (z : ℤ) → to_int (of_int z) ≡ z

-- No single quote, no ampersand and no line break.
abbrev pub is_plain : String → Bool
is_plain [] = true
is_plain (c ∷ s) =
    not (str_eq (c ∷ []) "'")
    && not (str_eq (c ∷ []) "&")
    && not (str_eq (c ∷ []) "\n")
    && not (str_eq (c ∷ []) "\r")
    && is_plain s

-- The texts that the pages write into the values of their controls are plain.
pub record IsPlain {F : Type 0} (c : AppConfig F) : Type 0 where
  pub mqtt_host : is_plain c.mqtt_host ≡ true
  pub mqtt_user : is_plain c.mqtt_user ≡ true
  pub mqtt_pass : is_plain c.mqtt_pass ≡ true
  pub ocpp_host : is_plain c.ocpp_host ≡ true
  pub ocpp_url : is_plain c.ocpp_url ≡ true
  pub ocpp_auth_key : is_plain c.ocpp_auth_key ≡ true
  pub www_user : is_plain c.www_user ≡ true
  pub www_pass : is_plain c.www_pass ≡ true

module _ {F : Type 0} ⦃fl : Float F⦄ (to_float : String → F) (to_int : String → ℤ)
    (shown : String → String) (plain_shown : (s : String) → is_plain s ≡ true → shown s ≡ s)
    (of_nat : ℕ → String) (of_int : ℤ → String) (printed : IsPrinted to_int of_nat of_int)
    (admits : String → String → Bool) where
  choice-is_one : (b : Bool) → str_eq (choice b) "1" ≡ b
  choice-is_one true = refl
  choice-is_one false = refl

  read_u16 : (n : ℕ) → n < 65536 → to_u16 (to_int (of_nat n)) ≡ n
  read_u16 n h = simp (printed.nat_read n (omega arith)) (omega arith)

  read_u32 : (n : ℕ) → n < 2147483648 → to_u32 (to_int (of_nat n)) ≡ n
  read_u32 n h = simp (printed.nat_read n h) (omega arith)

  mqtt-resent :
      (c : AppConfig F)
      → IsPlain c
      → c.mqtt_enabled ≡ true
      → c.mqtt_port < 65536
      → c.mqtt_failsafe_timeout < 2147483648
      → let p = mqtt_page shown of_nat c in
        changed to_float to_int (submission admits p (as_shown p)) c ≡ c
  unfolding mqtt_page enables save_mqtt
  mqtt-resent c v e h k =
      let p = mqtt_page shown of_nat c in
      let on : enables p (as_shown p) ≡ true = choice-is_one c.mqtt_enabled ∙ e in
      let q = submission admits p (as_shown p) in
      let has = has-on admits p (as_shown p) on in
      let value : (n : String) → has_arg q n ≡ true → arg q n ≡ as_shown p n =
        arg_entered admits p (as_shown p) in
      changed-mqtt to_float to_int q c (on-Parts admits p (as_shown p) on)
      ∙ simp (
        has "mqhost",
        value "mqen" (has "mqen"),
        value "mqhost" (has "mqhost") ∙ plain_shown c.mqtt_host v.mqtt_host,
        value "mqport" (has "mqport"),
        value "mquser" (has "mquser") ∙ plain_shown c.mqtt_user v.mqtt_user,
        value "mqpass" (has "mqpass") ∙ plain_shown c.mqtt_pass v.mqtt_pass,
        value "mqsafe" (has "mqsafe"),
        value "mqsafet" (has "mqsafet"),
        choice-is_one,
        read_u16 c.mqtt_port h,
        read_u32 c.mqtt_failsafe_timeout k,
      )

  ocpp-resent :
      (c : AppConfig F)
      → IsPlain c
      → c.ocpp_enabled ≡ true
      → c.ocpp_port < 65536
      → let p = ocpp_page shown of_nat of_int c in
        changed to_float to_int (submission admits p (as_shown p)) c ≡ c
  unfolding ocpp_page enables save_ocpp
  ocpp-resent c v e h =
      let p = ocpp_page shown of_nat of_int c in
      let on : enables p (as_shown p) ≡ true = choice-is_one c.ocpp_enabled ∙ e in
      let q = submission admits p (as_shown p) in
      let has = has-on admits p (as_shown p) on in
      let value : (n : String) → has_arg q n ≡ true → arg q n ≡ as_shown p n =
        arg_entered admits p (as_shown p) in
      changed-ocpp to_float to_int q c (on-Parts admits p (as_shown p) on)
      ∙ simp (
        has "ohost",
        value "ocppen" (has "ocppen"),
        value "ohost" (has "ohost") ∙ plain_shown c.ocpp_host v.ocpp_host,
        value "oport" (has "oport"),
        value "ourl" (has "ourl") ∙ plain_shown c.ocpp_url v.ocpp_url,
        value "otls" (has "otls"),
        value "okey" (has "okey") ∙ plain_shown c.ocpp_auth_key v.ocpp_auth_key,
        value "ohb" (has "ohb"),
        value "orec" (has "orec"),
        value "oto" (has "oto"),
        choice-is_one,
        read_u16 c.ocpp_port h,
        printed.int_read c.ocpp_heartbeat_interval,
        printed.int_read c.ocpp_reconnect_interval,
        printed.int_read c.ocpp_conn_timeout,
      )

  rcm-resent :
      (c : AppConfig F)
      → let p = rcm_page c in changed to_float to_int (submission admits p (as_shown p)) c ≡ c
  unfolding rcm_page enables save_rcm
  rcm-resent c =
      let p = rcm_page c in
      let q = submission admits p (as_shown p) in
      let has = has-on admits p (as_shown p) refl in
      changed-rcm to_float to_int q c (on-Parts admits p (as_shown p) refl)
      ∙ simp (has "rcmen", arg_entered admits p (as_shown p) "rcmen" (has "rcmen"), choice-is_one)

  auth-resent :
      (c : AppConfig F)
      → IsPlain c
      → let p = auth_page shown c in
        changed to_float to_int (submission admits p (as_shown p)) c ≡ c
  unfolding auth_page enables save_user
  auth-resent c v =
      let p = auth_page shown c in
      let q = submission admits p (as_shown p) in
      let has = has-on admits p (as_shown p) refl in
      changed-user to_float to_int q c (on-Parts admits p (as_shown p) refl)
      ∙ simp (
        has "wuser",
        arg_entered admits p (as_shown p) "wuser" (has "wuser") ∙ plain_shown c.www_user v.www_user,
        arg_entered admits p (as_shown p) "wpass" (has "wpass") ∙ plain_shown c.www_pass v.www_pass,
      )

  -- If numbers print to texts that read back, and a browser shows a text without single quotes,
  -- ampersands and line breaks as it is: the pages of MQTT and OCPP with their switches on, of the
  -- monitor and of the user, sent as they are shown, leave the configuration as it is, if the texts
  -- that they show are such texts, its ports are of 16 bits and the failsafe's timeout is below 2 ^ 31.
  pub pages_resent :
      (c : AppConfig F)
      → IsPlain c
      → c.mqtt_enabled ≡ true
      → c.ocpp_enabled ≡ true
      → c.mqtt_port < 65536
      → c.mqtt_failsafe_timeout < 2147483648
      → c.ocpp_port < 65536
      → let resent : Page → AppConfig F =
          λ (p : Page). changed to_float to_int (submission admits p (as_shown p)) c in
        (resent (mqtt_page shown of_nat c) ≡ c)
        × (resent (ocpp_page shown of_nat of_int c) ≡ c)
        × (resent (rcm_page c) ≡ c)
        × (resent (auth_page shown c) ≡ c)
  pages_resent c v e f h k l =
      (mqtt-resent c v e h k, ocpp-resent c v f l, rcm-resent c, auth-resent c v)
