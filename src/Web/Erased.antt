-- ===== src/Web/Erased.antt =====
-- The forms of the LED strip, the console and the network that are sent with their switches off.
use Prim.Native.String.{String}
use text.Mathlib.Text.{◌==◌ as str_eq}
use evse_sync_charge.Base.{ℕ, ℤ, pos, ◌≡◌, refl, ◌∙◌, ap, Bool, false, Option, arith}
use evse_sync_charge.Float.{Float}
use evse_sync_charge.Config.{AppConfig}
use evse_sync_charge.Telnet
use evse_sync_charge.Telnet.{Telnet}
use evse_sync_charge.Led.{LedSettings, LedStateSetting, shows}
use evse_sync_charge.Web.{Site, arg}
use evse_sync_charge.Web.Save.{led_settings, save_telnet, save_wifi, save_address, changed}
use evse_sync_charge.Web.Absent.{has-off, arg_entered, arg_off, changed-wifi, off-Parts}
use evse_sync_charge.Web.Forms.{
  Page, enables, shows_name, submission, telnet_page, wifi_page, Network, led_page,
}

-- Disabled, no LEDs, and the first colour and effect for each state.
abbrev pub erased : LedSettings
erased =
    let dark : LedStateSetting = shows 0 0 in
    record {
      enabled = false;
      num_leds = 0;
      state_standby = dark;
      state_connected = dark;
      state_charging = dark;
      state_error = dark;
      state_wifi = dark;
      state_boot = dark;
      state_solar_idle = dark;
      state_safety_lockout = dark;
      state_rfid_ok = dark;
      state_rfid_reject = dark;
    }

module _ (to_int : String → ℤ) (of_nat : ℕ → String) (admits : String → String → Bool)
    (entered : String → String) (zero : to_int "" ≡ pos 0) where
  number_off :
      (p : Page) (k : String)
      → enables p entered ≡ false
      → shows_name k p.always ≡ false
      → to_int (arg (submission admits p entered) k) ≡ pos 0
  number_off p k e h = ap to_int (arg_off admits p entered k e h) ∙ zero

  led-erased :
      (l : LedSettings)
      → str_eq (entered "len") "1" ≡ false
      → led_settings to_int (submission admits (led_page of_nat l) entered) ≡ erased
  unfolding led_settings led_page enables
  led-erased l e =
      let p = led_page of_nat l in
      simp (
        arg_entered admits p entered "len" (has-off admits p entered e "len"),
        e,
        number_off p "lnum" e refl,
        number_off p "stby_c" e refl,
        number_off p "stby_e" e refl,
        number_off p "conn_c" e refl,
        number_off p "conn_e" e refl,
        number_off p "chg_c" e refl,
        number_off p "chg_e" e refl,
        number_off p "err_c" e refl,
        number_off p "err_e" e refl,
        number_off p "wifi_c" e refl,
        number_off p "wifi_e" e refl,
        number_off p "boot_c" e refl,
        number_off p "boot_e" e refl,
        number_off p "solidle_c" e refl,
        number_off p "solidle_e" e refl,
        number_off p "lockout_c" e refl,
        number_off p "lockout_e" e refl,
        number_off p "rfidok_c" e refl,
        number_off p "rfidok_e" e refl,
        number_off p "rfidnok_c" e refl,
        number_off p "rfidnok_e" e refl,
      )

  telnet-erased :
      (t : Telnet) {F P : Type 0} (w : Site F P)
      → str_eq (entered "ten") "1" ≡ false
      → let r = (save_telnet to_int (submission admits (telnet_page of_nat t) entered) w).telnet in
        (r.enabled ≡ false) × (r.port ≡ 0)
  unfolding save_telnet telnet_page enables Telnet.update_config
  telnet-erased t w e =
      let p = telnet_page of_nat t in
      let q = submission admits p entered in
      let has = has-off admits p entered e "ten" in
      let off : str_eq (arg q "ten") "1" ≡ false =
        ap (λ v. str_eq v "1") (arg_entered admits p entered "ten" has) ∙ e in
      ground (arith, number_off p "tport" e refl)

module _ {F : Type 0} ⦃fl : Float F⦄ (to_float : String → F) (to_int : String → ℤ)
    (admits : String → String → Bool) (entered shown : String → String) where
  wifi-erased :
      (n : Option Network) (c : AppConfig F)
      → str_eq (entered "mode") "1" ≡ false
      → let r = changed to_float to_int (submission admits (wifi_page shown n c) entered) c in
        (r.use_static ≡ false) × (r.static_ip ≡ "") × (r.static_gw ≡ "") × (r.static_sn ≡ "")
  unfolding wifi_page enables save_wifi save_address
  wifi-erased n c e =
      let p = wifi_page shown n c in
      let q = submission admits p entered in
      let has = has-off admits p entered e in
      let off : str_eq (arg q "mode") "1" ≡ false =
        ap (λ v. str_eq v "1") (arg_entered admits p entered "mode" (has "mode")) ∙ e in
      rw (changed-wifi to_float to_int q c (off-Parts admits p entered e)) (
        ground (
          arith,
          has "ssid",
          has "mode",
          arg_off admits p entered "ip" e refl,
          arg_off admits p entered "gw" e refl,
          arg_off admits p entered "sn" e refl,
        ))

module _ {F P : Type 0} ⦃fl : Float F⦄ (to_float : String → F) (to_int : String → ℤ)
    (of_nat : ℕ → String) (admits : String → String → Bool) (entered : String → String)
    (zero : to_int "" ≡ pos 0) where
  -- If a missing number reads as 0: sent with the switch off, the page of the LED strip sets no LEDs
  -- and the first colour and effect for every state, that of the console the port 0, and that of the
  -- network, where the switch is the static address, empty static addresses.
  pub off_erases :
      (shown : String → String) (l : LedSettings) (n : Option Network) (w : Site F P)
      → str_eq (entered "len") "1" ≡ false
      → str_eq (entered "ten") "1" ≡ false
      → str_eq (entered "mode") "1" ≡ false
      → let t =
          (save_telnet to_int (submission admits (telnet_page of_nat w.telnet) entered) w).telnet in
        let c =
          changed to_float to_int
            (submission admits (wifi_page shown n w.config) entered)
            w.config in
        (led_settings to_int (submission admits (led_page of_nat l) entered) ≡ erased)
        × ((t.enabled ≡ false) × (t.port ≡ 0))
        × ((c.use_static ≡ false) × (c.static_ip ≡ "") × (c.static_gw ≡ "") × (c.static_sn ≡ ""))
  off_erases shown l n w e f g = (
    led-erased to_int of_nat admits entered zero l e,
    telnet-erased to_int of_nat admits entered zero w.telnet w f,
    wifi-erased to_float to_int admits entered shown n w.config g,
  )
