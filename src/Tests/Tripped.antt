-- ===== src/Tests/Tripped.antt =====
-- The controller after a failed self-test.
use evse_sync_charge.Base.{◌≡◌, refl, true, false, List, [], ◌∷◌}
use evse_sync_charge.Float.Milli.{Milli, milli_float}
use evse_sync_charge.Relay
use evse_sync_charge.Rcm
use evse_sync_charge.Pilot
use evse_sync_charge.Pilot.Read
use evse_sync_charge.Charge.{notify_vehicle}
use evse_sync_charge.Charge.Limit.{
  open_relay, pilot_standby, apply_current_limit, check_resume_from_low_limit, set_current_limit,
  clamp_amps,
}
use evse_sync_charge.Charge.Control.{
  start_charging, start_unlocked, test_and_begin, fail_self_test, stop_charging,
}
use evse_sync_charge.Charge.Manage.{
  evict, enter_vehicle_state, update_vehicle_state, track_faults, drive_outputs,
  manage_pwm_and_relay,
}
use evse_sync_charge.Charge.Loop.{
  check_rcm, periodic_self_test, relay_loop, boot_recovery, throttle_alive, loop_guard, loop_drive,
  loop, trip,
}
use evse_sync_charge.Charge.Run.{Command, start, pass, limit, exec, run}
use evse_sync_charge.Charge.Tripped.{IsTripped, stays_plugged, all_plugged, run_failed-IsTripped}
use evse_sync_charge.Tests.Samples.{amps, start_readings, pass_at, peak_c, waiting}
use evse_sync_charge.Tests.Session.{failing}

-- A second start, whose self-test would pass, a pass with the vehicle plugged in, and a new limit.
abbrev retries : List (Command Milli)
retries = start start_readings ∷ pass (pass_at 5000 peak_c false) ∷ limit 6000 (amps 10000) ∷ []

plugged : all_plugged retries (start_charging failing waiting) ≡ true
unfolding all_plugged stays_plugged exec loop loop_guard loop_drive check_rcm periodic_self_test
    relay_loop boot_recovery throttle_alive start_charging start_unlocked test_and_begin
    fail_self_test Rcm.self_test Rcm.is_triggered Relay.loop update_vehicle_state
    manage_pwm_and_relay track_faults drive_outputs check_resume_from_low_limit set_current_limit
    clamp_amps stop_charging trip evict enter_vehicle_state notify_vehicle apply_current_limit
    Read.read open_relay pilot_standby Pilot.standby Relay.request_open
plugged = refl

run_failed-IsTripped_example : IsTripped (run retries (start_charging failing waiting))
run_failed-IsTripped_example =
    run_failed-IsTripped failing retries waiting refl refl refl refl refl plugged
