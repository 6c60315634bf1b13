-- ===== src/Led.antt =====
-- EVSE-SyncCharge/RGBWL2812.h and RGBWL2812.cpp: the LED strip that shows the controller's state.
-- The strip's driver (Adafruit_NeoPixel) is a library: the calls made of it are a list, in order.
-- A colour or an effect is its number, since the code makes one from any number that is stored.
pub mod Settings
pub mod Stored
pub mod Strip
pub mod Effects
pub mod Run
pub mod Loop
pub mod Steps
pub mod Bounded
pub mod Breath
use evse_sync_charge.Base.{ℕ, ℤ, pos, negsuc, Bool, true, false, if◌then◌else◌}

-- EVSE status states for the LED.
pub data EvseLedState : Type 0 where
  led_off led_boot led_ready led_connected led_charging led_error led_wifi_config led_solar_idle
        led_safety_lockout led_rfid_ok led_rfid_reject :
      EvseLedState

abbrev pub eff_off : ℕ
eff_off = 0

abbrev pub eff_solid : ℕ
eff_solid = 1

abbrev pub eff_blink_slow : ℕ
eff_blink_slow = 2

abbrev pub eff_blink_fast : ℕ
eff_blink_fast = 3

abbrev pub eff_breath : ℕ
eff_breath = 4

abbrev pub eff_rainbow : ℕ
eff_rainbow = 5

abbrev pub eff_knight_rider : ℕ
eff_knight_rider = 6

abbrev pub eff_chase : ℕ
eff_chase = 7

abbrev pub eff_sparkle : ℕ
eff_sparkle = 8

abbrev pub eff_theater_chase : ℕ
eff_theater_chase = 9

abbrev pub eff_fire : ℕ
eff_fire = 10

abbrev pub eff_wave : ℕ
eff_wave = 11

abbrev pub eff_twinkle : ℕ
eff_twinkle = 12

abbrev pub eff_color_wipe : ℕ
eff_color_wipe = 13

abbrev pub eff_rainbow_chase : ℕ
eff_rainbow_chase = 14

abbrev pub eff_comet : ℕ
eff_comet = 15

abbrev pub eff_pulse : ℕ
eff_pulse = 16

abbrev pub eff_strobe : ℕ
eff_strobe = 17

abbrev pub col_off : ℕ
col_off = 0

abbrev pub col_red : ℕ
col_red = 1

abbrev pub col_green : ℕ
col_green = 2

abbrev pub col_blue : ℕ
col_blue = 3

abbrev pub col_yellow : ℕ
col_yellow = 4

abbrev pub col_cyan : ℕ
col_cyan = 5

abbrev pub col_magenta : ℕ
col_magenta = 6

abbrev pub col_white : ℕ
col_white = 7

abbrev pub col_orange : ℕ
col_orange = 8

abbrev pub col_purple : ℕ
col_purple = 9

abbrev pub col_pink : ℕ
col_pink = 10

abbrev pub col_teal : ℕ
col_teal = 11

abbrev pub col_lime : ℕ
col_lime = 12

abbrev pub col_indigo : ℕ
col_indigo = 13

abbrev pub col_warm_white : ℕ
col_warm_white = 14

pub record LedStateSetting : Type 0 where
  pub color : ℕ
  pub effect : ℕ

pub record LedSettings : Type 0 where
  pub enabled : Bool
  pub num_leds : ℕ
  pub state_standby : LedStateSetting
  pub state_connected : LedStateSetting
  pub state_charging : LedStateSetting
  pub state_error : LedStateSetting
  pub state_wifi : LedStateSetting
  pub state_boot : LedStateSetting
  pub state_solar_idle : LedStateSetting
  pub state_safety_lockout : LedStateSetting
  pub state_rfid_ok : LedStateSetting
  pub state_rfid_reject : LedStateSetting

pub record Led : Type 0 where
  pub config : LedSettings
  pub current_state : EvseLedState
  pub last_update : ℕ
  pub anim_step : ℤ
  pub anim_dir : Bool
  pub test_mode : Bool
  pub test_sequence_start : ℕ
  pub current_test_step : ℤ

abbrev pub shows : ℕ → ℕ → LedStateSetting
shows color effect = record { color = color; effect = effect }

-- The default configuration of the constructor.
unfoldable pub default_settings : LedSettings
default_settings = record {
  enabled = false;
  num_leds = 8;
  state_standby = shows col_green eff_solid;
  state_connected = shows col_yellow eff_solid;
  state_charging = shows col_cyan eff_breath;
  state_error = shows col_red eff_blink_fast;
  state_wifi = shows col_blue eff_blink_slow;
  state_boot = shows col_magenta eff_rainbow;
  state_solar_idle = shows col_magenta eff_breath;
  state_safety_lockout = shows col_red eff_strobe;
  state_rfid_ok = shows col_green eff_blink_fast;
  state_rfid_reject = shows col_red eff_blink_fast;
}

unfoldable pub new : Led
unfolding default_settings
new = record {
  config = default_settings;
  current_state = led_off;
  last_update = 0;
  anim_step = pos 0;
  anim_dir = true;
  test_mode = false;
  test_sequence_start = 0;
  current_test_step = negsuc 0;
}

-- `==` on EvseLedState.
abbrev pub same_led : EvseLedState → EvseLedState → Bool
same_led led_off led_off = true
same_led led_boot led_boot = true
same_led led_ready led_ready = true
same_led led_connected led_connected = true
same_led led_charging led_charging = true
same_led led_error led_error = true
same_led led_wifi_config led_wifi_config = true
same_led led_solar_idle led_solar_idle = true
same_led led_safety_lockout led_safety_lockout = true
same_led led_rfid_ok led_rfid_ok = true
same_led led_rfid_reject led_rfid_reject = true
same_led _ _ = false

unfoldable pub set_state : EvseLedState → Led → Led
set_state state l =
    if same_led l.current_state state
    then l
    else record l { current_state = state; anim_step = pos 0; last_update = 0 }

unfoldable pub start_test_sequence : ℕ → Led → Led
start_test_sequence now l = record l {
  test_mode = true;
  test_sequence_start = now;
  current_test_step = negsuc 0;
}
