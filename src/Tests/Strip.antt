-- ===== src/Tests/Strip.antt =====
-- The LED strip.
use Prim.Native.String.{String}
use evse_sync_charge.Base.{ℕ, ◌+◌, ◌*◌, ◌≡◌, true, List, [], ◌∷◌, ℤ, arith}
use evse_sync_charge.Float.Milli.{Milli}
use evse_sync_charge.Prefs.{Value, table, table-IsStore}
use evse_sync_charge.Led
use evse_sync_charge.Led.{
  Led, LedStateSetting, led_charging, led_error, shows, col_cyan, eff_breath,
}
use evse_sync_charge.Led.Settings.{save_config, load_config}
use evse_sync_charge.Led.Stored.{IsStorable, AllStorable, load-save_config}
use evse_sync_charge.Led.Steps.{IsAnimated}
use evse_sync_charge.Led.Bounded.{Call, show_state, pass, run, run-IsAnimated}

abbrev pack : ℕ → ℕ → ℕ → ℕ
pack r g b = r * 65536 + g * 256 + b

abbrev flat : ℕ → ℕ → ℤ → ℕ → ℕ
flat n i step channel = channel

abbrev kept : ℕ → ℕ
kept channel = channel

abbrev none_lit : ℕ → ℕ
none_lit i = 0

abbrev calls : List Call
calls =
    show_state led_charging
    ∷ pass 8 1000 1001 none_lit none_lit
    ∷ show_state led_error
    ∷ pass 8 1300 1301 none_lit none_lit
    ∷ []

run-IsAnimated_test :
    IsAnimated
      (run pack flat kept calls Led.new).anim_step
      (run pack flat kept calls Led.new).anim_dir
run-IsAnimated_test = run-IsAnimated pack flat kept calls

abbrev breathing : LedStateSetting
breathing = shows col_cyan eff_breath

breathing-IsStorable : IsStorable breathing
breathing-IsStorable = record { color_byte = omega arith; effect_byte = omega arith }

abbrev strip : Led
strip = record Led.new {
  config = record {
    enabled = true;
    num_leds = 8;
    state_standby = breathing;
    state_connected = breathing;
    state_charging = breathing;
    state_error = breathing;
    state_wifi = breathing;
    state_boot = breathing;
    state_solar_idle = breathing;
    state_safety_lockout = breathing;
    state_rfid_ok = breathing;
    state_rfid_reject = breathing;
  };
}

strip-AllStorable : AllStorable strip.config
strip-AllStorable = record {
  standby = breathing-IsStorable;
  connected = breathing-IsStorable;
  charging = breathing-IsStorable;
  error = breathing-IsStorable;
  wifi = breathing-IsStorable;
  boot = breathing-IsStorable;
  solar_idle = breathing-IsStorable;
  safety_lockout = breathing-IsStorable;
  rfid_ok = breathing-IsStorable;
  rfid_reject = breathing-IsStorable;
}

abbrev store : List (String × Value Milli)
store = []

load-save_config_example :
    load_config table (save_config table strip store) Led.new
    ≡ record Led.new { config = strip.config }
load-save_config_example =
    load-save_config table table-IsStore strip Led.new store strip-AllStorable
