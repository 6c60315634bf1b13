-- ===== src/Tests/Samples.antt =====
-- Settings, readings and command sequences for the tests, over thousandths.
use evse_sync_charge.Base.{ℕ, Bool, true, false, List, [], ◌∷◌, none, some, pos}
use evse_sync_charge.Float.Milli.{Milli, milli_float}
use evse_sync_charge.Types.{ChargingSettings, charging, ready, vehicle_ready}
use evse_sync_charge.Rcm
use evse_sync_charge.Pilot.Read
use evse_sync_charge.Charge
use evse_sync_charge.Charge.{Evse}
use evse_sync_charge.Charge.Limit.{
  apply_current_limit, check_resume_from_low_limit, set_current_limit,
  set_allow_below_6_amp_charging,
}
use evse_sync_charge.Charge.Control.{
  StartReadings, fail_self_test, begin_session, test_and_begin, start_unlocked, start_charging,
  stop_charging, pause_charging, enable_current_test, set_current_test, set_safety_lockout,
}
use evse_sync_charge.Charge.Manage.{
  evict, enter_vehicle_state, update_vehicle_state, track_faults, drive_outputs,
  manage_pwm_and_relay,
}
use evse_sync_charge.Charge.Loop.{
  LoopReadings, trip, check_rcm, periodic_self_test, relay_loop, boot_recovery, throttle_alive,
  loop_guard, loop_drive, loop,
}
use evse_sync_charge.Charge.Run.{
  Command, set_up, pass, start, lockout, rcm_begin, exec, run, constructed,
}

abbrev pub amps : ℕ → Milli
amps n = some n

abbrev pub settings : ChargingSettings Milli
settings = record {
  max_current = amps 32000;
  ac_relais_open_at_pause = false;
  disable_at_low_limit = true;
  soft_start = false;
  low_limit_resume_delay_ms = 300000;
}

abbrev pub start_readings : StartReadings
start_readings = record { edge = true; tested = 4000; begun = 4001; alive = 4002; applied = 4003 }

-- A pass at a time, with samples of one peak pair.
abbrev pub pass_at : ℕ → ℕ → Bool → LoopReadings
pass_at now high level = record {
  rcm_level = level;
  periodic_now = now;
  periodic_edge = true;
  periodic_tested = now;
  relay_checked = now;
  relay_switched = now;
  cali = none;
  frames = (high ∷ 1000 ∷ []) ∷ [];
  vehicle_applied = now;
  resume_now = now;
  resume_applied = now;
  boot_now = now;
  boot_start = start_readings;
  throttle_now = now;
  throttle_applied = now;
}

-- Peaks that mean state C and no power.
abbrev pub peak_c : ℕ
peak_c = 2000

abbrev pub peak_none : ℕ
peak_none = 1300

abbrev pub commands : List (Command Milli)
commands =
    rcm_begin true
    ∷ set_up true true true true 1000 settings
    ∷ lockout false
    ∷ pass (pass_at 2000 peak_c false)
    ∷ pass (pass_at 2010 peak_c false)
    ∷ pass (pass_at 2020 peak_c false)
    ∷ pass (pass_at 2030 peak_c false)
    ∷ start start_readings
    ∷ []

-- Everything that a run computes with, on one line for the tests.
unfoldable pub machine : List (Command Milli) → Evse Milli → Evse Milli
unfolding run exec loop loop_guard loop_drive check_rcm periodic_self_test relay_loop boot_recovery
    throttle_alive trip update_vehicle_state enter_vehicle_state evict track_faults drive_outputs
    manage_pwm_and_relay start_charging start_unlocked test_and_begin begin_session fail_self_test
    stop_charging pause_charging enable_current_test set_current_test set_safety_lockout
    set_current_limit set_allow_below_6_amp_charging check_resume_from_low_limit apply_current_limit
    Charge.setup Charge.preinit_hard Read.read Rcm.begin Rcm.isr Rcm.self_test Rcm.is_triggered
machine cs s = run cs s

unfoldable pub power_up : Evse Milli
unfolding constructed
power_up = constructed settings true

-- A vehicle in state C is connected and a session runs.
unfoldable pub charging_now : Evse Milli
unfolding machine power_up
charging_now = machine commands power_up

-- The same state written out.
abbrev pub session : Evse Milli
session = record {
  pilot = record {
    high_voltage_mv = pos 5520;
    low_voltage_mv = pos 0;
    current_duty_percent = amps 53333;
    pwm_attached = true;
    last_vehicle_state = vehicle_ready;
    candidate_state = vehicle_ready;
    stability_counter = 3;
    has_buffer = true;
    has_handle = true;
    out_high = true;
    duty_counts = 2183;
  };
  relay = record { current = false; desired = true; last_switch_time = 0; pin = false };
  rcm = record { created = true; given = false; test_pin = false };
  state = charging;
  vehicle_state = vehicle_ready;
  settings = settings;
  current_limit = amps 32000;
  started = 4001;
  actual_current = record { l1 = amps 0; l2 = amps 0; l3 = amps 0 };
  actual_current_updated = 0;
  current_test = false;
  paused_at_low_limit = false;
  user_paused = false;
  paused_since = 0;
  error_lockout = false;
  rcm_enabled = true;
  rcm_tripped = false;
  throttle_alive_timeout = 0;
  last_throttle_alive_time = 4002;
  last_throttle_ramp_time = 0;
  last_rcm_test_time = 4000;
  last_managed_vehicle_state = vehicle_ready;
  vehicle_state_handler = false;
  state_handler = false;
  notices = [];
  boot_recovery_checked = false;
}

-- The vehicle stands in state C, and nothing was started.
abbrev pub waiting : Evse Milli
waiting = record session {
  state = ready;
  relay = record { current = true; desired = false; last_switch_time = 5; pin = true };
}
