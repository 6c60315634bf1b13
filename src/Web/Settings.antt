-- ===== src/Web/Settings.antt =====
-- What the form does to the controller's settings and to the configured maximum.
use Prim.Native.String.{String}
use evse_sync_charge.Base.{ℕ, ℤ, ◌≡◌, false, arith, if◌then◌else◌}
use evse_sync_charge.Float.{Float}
use evse_sync_charge.Float.Laws.{IsRounded, ◌≼◌, IsNum}
use evse_sync_charge.Prefs.{Preferences}
use evse_sync_charge.Pilot.{constrain, min_current, max_current}
use evse_sync_charge.Pilot.Duty.{constrain_bounds}
use evse_sync_charge.Charge.{set_throttle_alive_timeout, set_rcm_enabled}
use evse_sync_charge.Config.{AppConfig}
use evse_sync_charge.Web.{Site, Request, has_arg, arg, request_reboot}
use evse_sync_charge.Web.Save.{
  save_charging, save_mqtt, save_ocpp, save_rcm, save_user, save_address, save_wifi, changed,
  save_led, save_telnet, apply, reboot_required, handle_save_config,
}

module _ {F : Type 0} where
  rcm-max : (q : Request) (c : AppConfig F) → (save_rcm q c).max_current ≡ c.max_current
  unfolding save_rcm
  rcm-max q c = ground arith

  user-max : (q : Request) (c : AppConfig F) → (save_user q c).max_current ≡ c.max_current
  unfolding save_user
  user-max q c = ground arith

  wifi-max : (q : Request) (c : AppConfig F) → (save_wifi q c).max_current ≡ c.max_current
  unfolding save_wifi save_address
  wifi-max q c = ground arith

  module _ (to_int : String → ℤ) where
    mqtt-max : (q : Request) (c : AppConfig F) → (save_mqtt to_int q c).max_current ≡ c.max_current
    unfolding save_mqtt
    mqtt-max q c = ground arith

    ocpp-max : (q : Request) (c : AppConfig F) → (save_ocpp to_int q c).max_current ≡ c.max_current
    unfolding save_ocpp
    ocpp-max q c = ground arith

module _ {F : Type 0} ⦃fl : Float F⦄ (to_float : String → F) (to_int : String → ℤ) where
  charging-max :
      (q : Request) (c : AppConfig F)
      → (save_charging to_float to_int q c).max_current ≡ (
          if has_arg q "maxcur"
          then constrain (to_float (arg q "maxcur")) min_current max_current
          else c.max_current)
  unfolding save_charging
  charging-max q c = ground arith

  -- The maximum that the form leaves in the configuration is the one that the argument gives, brought
  -- into the range from 6 A to 80 A, or the one before if there is none.
  changed-max :
      (q : Request) (c : AppConfig F)
      → (changed to_float to_int q c).max_current ≡ (
          if has_arg q "maxcur"
          then constrain (to_float (arg q "maxcur")) min_current max_current
          else c.max_current)
  unfolding changed
  changed-max q c =
      simp (wifi-max, user-max, rcm-max, ocpp-max to_int, mqtt-max to_int, charging-max)

module _ {F P : Type 0} ⦃fl : Float F⦄ (to_float : String → F) (to_int : String → ℤ) where
  -- If the text of every argument for the maximum is a number and no NaN, and the configured maximum
  -- is from 6 A to 80 A, it is from 6 A to 80 A after the form, whatever else the form sets.
  pub handle_save_config-max :
      (pr : Preferences F P) (laws : IsRounded F) (now : ℕ) (q : Request) (w : Site F P)
      → IsNum (to_float (arg q "maxcur"))
      → min_current ≼ w.config.max_current
      → w.config.max_current ≼ max_current
      → let r = (handle_save_config to_float to_int pr now q w).config.max_current in
        (min_current ≼ r) × (r ≼ max_current)
  unfolding handle_save_config request_reboot apply save_telnet save_led
  handle_save_config-max pr laws now q w n l h = ground (
    arith,
    changed-max to_float to_int q w.config,
    constrain_bounds laws (to_float (arg q "maxcur")) n,
  )

  -- The form of the charging page sets the configuration only: whatever it says, the controller's
  -- settings and current limit and a session's state stay as they are, and outside the access
  -- point's mode, with none of the arguments of the MQTT, OCPP, monitor and WiFi pages, no reboot
  -- that would apply them is requested.
  pub handle_save_config-settings :
      (pr : Preferences F P) (now : ℕ) (q : Request) (w : Site F P)
      → w.ap_mode ≡ false
      → reboot_required q ≡ false
      → let r = handle_save_config to_float to_int pr now q w in
        (r.evse.settings ≡ w.evse.settings)
        × (r.evse.current_limit ≡ w.evse.current_limit)
        × (r.evse.state ≡ w.evse.state)
        × (r.reboot_pending ≡ w.reboot_pending)
  unfolding handle_save_config request_reboot apply save_telnet save_led set_throttle_alive_timeout
      set_rcm_enabled
  handle_save_config-settings pr now q w a n = ground arith
