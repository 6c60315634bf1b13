-- ===== src/Led/Stored.antt =====
-- Loading the settings of the strip after saving them.
use evse_sync_charge.Base.{◌<◌, ◌≡◌, refl, arith, bit_or_byte}
use evse_sync_charge.Prefs.{Preferences, IsStore, get-put_all}
use evse_sync_charge.Led.{Led, LedSettings, LedStateSetting}
use evse_sync_charge.Led.Settings.{pack, unpack, save_config, load_config}

-- A colour and an effect of one byte each, as all that the code names are.
pub record IsStorable (s : LedStateSetting) : Type 0 where
  pub color_byte : s.color < 256
  pub effect_byte : s.effect < 256

unpack-pack : (s : LedStateSetting) → IsStorable s → unpack (pack s) ≡ s
unfolding pack unpack
unpack-pack s v = ground (arith, bit_or_byte s.color s.effect)

pub record AllStorable (c : LedSettings) : Type 0 where
  pub standby : IsStorable c.state_standby
  pub connected : IsStorable c.state_connected
  pub charging : IsStorable c.state_charging
  pub error : IsStorable c.state_error
  pub wifi : IsStorable c.state_wifi
  pub boot : IsStorable c.state_boot
  pub solar_idle : IsStorable c.state_solar_idle
  pub safety_lockout : IsStorable c.state_safety_lockout
  pub rfid_ok : IsStorable c.state_rfid_ok
  pub rfid_reject : IsStorable c.state_rfid_reject

module _ {F P : Type 0} (pr : Preferences F P) where
  load_config-entries :
      IsStore pr
      → (l m : Led) (p : P)
      → load_config pr (save_config pr l p) m ≡ record m {
        config = record {
          enabled = l.config.enabled;
          num_leds = l.config.num_leds;
          state_standby = unpack (pack l.config.state_standby);
          state_connected = unpack (pack l.config.state_connected);
          state_charging = unpack (pack l.config.state_charging);
          state_error = unpack (pack l.config.state_error);
          state_wifi = unpack (pack l.config.state_wifi);
          state_boot = unpack (pack l.config.state_boot);
          state_solar_idle = unpack (pack l.config.state_solar_idle);
          state_safety_lockout = unpack (pack l.config.state_safety_lockout);
          state_rfid_ok = unpack (pack l.config.state_rfid_ok);
          state_rfid_reject = unpack (pack l.config.state_rfid_reject);
        };
      }
  unfolding load_config save_config
  load_config-entries st l m p = simp (get-put_all pr st)

  -- Over a store that reads back what was last written to a key, a strip that loads what another one
  -- has saved takes over its settings, if their colours and effects are of one byte, and keeps the
  -- rest of its state.
  pub load-save_config :
      IsStore pr
      → (l m : Led) (p : P) → AllStorable l.config
      → load_config pr (save_config pr l p) m ≡ record m { config = l.config }
  load-save_config st l m p v =
      rw
        (
          load_config-entries st l m p,
          unpack-pack l.config.state_standby v.standby,
          unpack-pack l.config.state_connected v.connected,
          unpack-pack l.config.state_charging v.charging,
          unpack-pack l.config.state_error v.error,
          unpack-pack l.config.state_wifi v.wifi,
          unpack-pack l.config.state_boot v.boot,
          unpack-pack l.config.state_solar_idle v.solar_idle,
          unpack-pack l.config.state_safety_lockout v.safety_lockout,
          unpack-pack l.config.state_rfid_ok v.rfid_ok,
          unpack-pack l.config.state_rfid_reject v.rfid_reject,
        )
        refl
