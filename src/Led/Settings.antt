-- ===== src/Led/Settings.antt =====
-- `loadConfig`, `saveConfig` and `updateConfig`: a colour and an effect in one stored number.
use Prim.Native.Nat.{bit_or}
use Prim.Native.String.{String}
use evse_sync_charge.Base.{ℕ, ◌*◌, ◌/◌, ◌%◌, false, List, [], ◌∷◌}
use evse_sync_charge.Prefs.{Preferences, Value, flag, ushort, flag_or, ushort_or, put_all}
use evse_sync_charge.Led.{
  Led, LedSettings, LedStateSetting, shows, col_blue, col_cyan, col_green, col_magenta, col_red,
  col_yellow, eff_blink_fast, eff_blink_slow, eff_breath, eff_rainbow, eff_solid, eff_strobe,
}

-- ((uint16_t)s.color << 8) | (uint16_t)s.effect, as a uint16_t.
unfoldable pub pack : LedStateSetting → ℕ
pack s = bit_or (s.color % 65536 * 256) (s.effect % 65536) % 65536

-- (val >> 8) & 0xFF and val & 0xFF.
unfoldable pub unpack : ℕ → LedStateSetting
unpack val = shows (val / 256 % 256) (val % 256)

unfoldable pub entries : {F : Type 0} → LedSettings → List (String × Value F)
unfolding pack
entries c =
    ("en", flag c.enabled)
    ∷ ("num", ushort c.num_leds)
    ∷ ("s_stby", ushort (pack c.state_standby))
    ∷ ("s_conn", ushort (pack c.state_connected))
    ∷ ("s_chg", ushort (pack c.state_charging))
    ∷ ("s_err", ushort (pack c.state_error))
    ∷ ("s_wifi", ushort (pack c.state_wifi))
    ∷ ("s_boot", ushort (pack c.state_boot))
    ∷ ("s_solidle", ushort (pack c.state_solar_idle))
    ∷ ("s_lockout", ushort (pack c.state_safety_lockout))
    ∷ ("s_rfidok", ushort (pack c.state_rfid_ok))
    ∷ ("s_rfidnok", ushort (pack c.state_rfid_reject))
    ∷ []

module _ {F P : Type 0} (pr : Preferences F P) where
  unfoldable pub save_config : Led → P → P
  unfolding entries
  save_config l p = put_all pr (entries l.config) p

  -- The default is packed by the same shift, without the casts.
  abbrev load_state : String → ℕ → ℕ → P → LedStateSetting
  load_state key color effect p = unpack (ushort_or (bit_or (color * 256) effect) (pr.get key p))

  unfoldable pub load_config : P → Led → Led
  load_config p l = record l {
    config = record {
      enabled = flag_or false (pr.get "en" p);
      num_leds = ushort_or 8 (pr.get "num" p);
      state_standby = load_state "s_stby" col_green eff_solid p;
      state_connected = load_state "s_conn" col_yellow eff_solid p;
      state_charging = load_state "s_chg" col_cyan eff_breath p;
      state_error = load_state "s_err" col_red eff_blink_fast p;
      state_wifi = load_state "s_wifi" col_blue eff_blink_slow p;
      state_boot = load_state "s_boot" col_magenta eff_rainbow p;
      state_solar_idle = load_state "s_solidle" col_magenta eff_breath p;
      state_safety_lockout = load_state "s_lockout" col_red eff_strobe p;
      state_rfid_ok = load_state "s_rfidok" col_green eff_blink_fast p;
      state_rfid_reject = load_state "s_rfidnok" col_red eff_blink_fast p;
    };
  }

  unfoldable pub update_config : LedSettings → Led × P → Led × P
  unfolding save_config
  update_config c (l, p) = let l' = record l { config = c } in (l', save_config l' p)
