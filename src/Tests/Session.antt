-- ===== src/Tests/Session.antt =====
-- The controller.
use evse_sync_charge.Base.{
  ◌≡◌, refl, ◌⊎◌, inl, true, false, none, arith, List, [], ◌∷◌, ltb, if◌then◌else◌,
}
use evse_sync_charge.Float.Milli.{Milli, milli_float, test_on, Milli-IsRounded}
use evse_sync_charge.Types.{charging, ready, not_connected, no_power}
use evse_sync_charge.Pilot
use evse_sync_charge.Pilot.Read
use evse_sync_charge.Charge.{Evse, is_connected, is_fault, asks_power}
use evse_sync_charge.Charge.Limit.{apply_current_limit, set_current_limit}
use evse_sync_charge.Charge.Control.{StartReadings, start_charging}
use evse_sync_charge.Charge.Loop.{check_rcm, periodic_self_test, loop_guard, loop, throttle_alive}
use evse_sync_charge.Charge.Power.{loop-cuts}
use evse_sync_charge.Charge.Trip.{loop-trips}
use evse_sync_charge.Charge.Faults.{loop-lockout, loop_faults}
use evse_sync_charge.Charge.Start.{
  may_start, start-state, start_refused, start_fails, start_overrides,
}
use evse_sync_charge.Charge.LowLimit.{apply_pauses, loop_recloses}
use evse_sync_charge.Charge.Range.{IsWithin, set_limit-IsWithin, set_limit_nan, throttle_floor}
use evse_sync_charge.Charge.Run.{
  run, constructed, run-closed, run-charging, run-attached, pass, limit, lockout, Command,
}
use evse_sync_charge.Charge.Unbegun.{starts_nothing, none_starts, run-unasked}
use evse_sync_charge.Tests.Samples.{
  amps, settings, start_readings, pass_at, peak_c, peak_none, commands, charging_now, session,
  waiting,
}

charging_now_lem : charging_now ≡ session
unfolding charging_now Pilot.constrain
charging_now_lem = refl

abbrev commanded : Evse Milli
commanded = run commands (constructed settings true)

run-closed_example :
    (commanded.state ≡ charging)
    × (asks_power commanded.vehicle_state ≡ true)
    × (commanded.error_lockout ≡ false)
    × (commanded.current_test ≡ false)
unfolding charging_now
run-closed_example = run-closed settings true commands refl

run-charging_example :
    (is_connected commanded.vehicle_state ≡ true)
    × (commanded.error_lockout ≡ false)
    × (commanded.user_paused ≡ false)
unfolding charging_now
run-charging_example = run-charging settings true commands refl

run-attached_example : (commanded.state ≡ charging) ⊎ (commanded.current_test ≡ true)
unfolding charging_now
run-attached_example = run-attached settings true commands refl

-- The monitor's interrupt has come in the running session.
abbrev tripping : Evse Milli
tripping = record session { rcm = record { created = true; given = true; test_pin = false } }

loop-trips_example :
    let r = loop (pass_at 5000 peak_c true) tripping in
    (r.relay.pin ≡ false)
    × (r.state ≡ ready)
    × ((r.error_lockout ≡ true) × (r.rcm_tripped ≡ true) ⊎ (r.vehicle_state ≡ not_connected))
loop-trips_example = loop-trips (pass_at 5000 peak_c true) tripping refl refl refl refl refl

loop-cuts_test : (loop (pass_at 5000 peak_c false) waiting).relay.pin ≡ false
loop-cuts_test = loop-cuts (pass_at 5000 peak_c false) waiting refl refl

abbrev locked : Evse Milli
locked = record waiting { error_lockout = true }

loop-lockout_example :
    let r = loop (pass_at 5000 peak_c false) locked in
    (r.error_lockout ≡ true) ⊎ (r.vehicle_state ≡ not_connected)
loop-lockout_example = loop-lockout (pass_at 5000 peak_c false) locked refl

-- The last of the readings that make a lost pilot signal stable.
abbrev losing : Evse Milli
losing = record session {
  pilot = record (session.pilot) {
    pwm_attached = false;
    candidate_state = no_power;
    stability_counter = 2;
  };
}

loop_faults_example :
    let r = loop (pass_at 5000 peak_none false) losing in
    (r.state ≡ ready)
    × (is_fault r.vehicle_state ≡ true)
    × (r.error_lockout ≡ true)
    × (r.relay.desired ≡ false)
    × (r.pilot.pwm_attached ≡ false)
unfolding Read.read loop_guard check_rcm periodic_self_test
loop_faults_example = loop_faults (pass_at 5000 peak_none false) losing refl refl refl refl

start-state_example :
    (start_charging start_readings waiting).state
    ≡ (if may_start start_readings waiting then charging else ready)
start-state_example = start-state start_readings waiting refl

abbrev tripped : Evse Milli
tripped = record locked { rcm_tripped = true }

start_refused_test : start_charging start_readings tripped ≡ tripped
start_refused_test = start_refused start_readings tripped (inl (refl, refl))

start_overrides_test :
    let r = start_charging start_readings locked in (r.state ≡ charging) × (r.error_lockout ≡ false)
start_overrides_test = start_overrides start_readings locked refl refl refl

abbrev pub failing : StartReadings
failing = record start_readings { edge = false }

start_fails_test :
    let r = start_charging failing waiting in
    (r.state ≡ ready)
    × (r.rcm_tripped ≡ true)
    × (r.error_lockout ≡ true)
    × (r.relay.desired ≡ false)
    × (r.pilot ≡ waiting.pilot)
start_fails_test = start_fails failing waiting refl refl refl refl refl

abbrev low : Evse Milli
low = record session { current_limit = amps 3000 }

apply_pauses_test :
    let r = apply_current_limit 6000 low in
    (r.relay.desired ≡ false)
    × (r.paused_at_low_limit ≡ true)
    × (r.paused_since ≡ 6000)
    × (r.state ≡ charging)
    × (r.pilot.pwm_attached ≡ true)
apply_pauses_test = apply_pauses 6000 low refl refl refl refl refl refl

abbrev paused_low : Evse Milli
paused_low = record low {
  paused_at_low_limit = true;
  paused_since = 6000;
  relay = record { current = true; desired = false; last_switch_time = 5000; pin = true };
}

loop_recloses_example : (loop (pass_at 6003 peak_c false) paused_low).relay.desired ≡ true
unfolding Read.read
loop_recloses_example =
    loop_recloses (pass_at 6003 peak_c false) paused_low refl refl refl refl refl refl refl

set_limit-IsWithin_test :
    IsWithin (amps 32000) (set_current_limit 7000 (amps 50000) low).current_limit
set_limit-IsWithin_test = set_limit-IsWithin Milli-IsRounded 7000 (amps 50000) low refl (refl, refl)

abbrev nan : Milli
nan = none

set_limit_nan_test : (set_current_limit 7000 nan low).current_limit ≡ nan
set_limit_nan_test = set_limit_nan 7000 nan low (λ y. ground arith)

-- Eleven seconds without a sign of life, with a timeout of ten.
abbrev stale : Evse Milli
stale = record session { throttle_alive_timeout = 10; current_limit = amps 6500 }

throttle_floor_test :
    test_on ltb (throttle_alive 15002 15002 stale).current_limit (amps 6000) ≡ false
throttle_floor_test = throttle_floor Milli-IsRounded 15002 15002 stale refl refl

-- The recovery at boot is over, and calls come that do not start.
abbrev recovered : Evse Milli
recovered = record waiting { boot_recovery_checked = true }

abbrev unasked : List (Command Milli)
unasked = pass (pass_at 9000 peak_c false) ∷ limit 9001 (amps 16000) ∷ lockout false ∷ []

run-unasked_example : (run unasked recovered).state ≡ ready
unfolding none_starts starts_nothing
run-unasked_example = run-unasked unasked recovered refl refl refl
