-- ===== src/Tests/Overtaken.antt =====
-- Starts that the controller's task overtakes.
use evse_sync_charge.Base.{◌≡◌, refl, true, false, List, [], ◌∷◌}
use evse_sync_charge.Float.Milli.{Milli, milli_float}
use evse_sync_charge.Types.{charging}
use evse_sync_charge.Rcm
use evse_sync_charge.Pilot.Read
use evse_sync_charge.Charge.{Evse, asks_power}
use evse_sync_charge.Charge.Limit.{check_resume_from_low_limit}
use evse_sync_charge.Charge.Control.{start_charging, stop_charging}
use evse_sync_charge.Charge.Manage.{
  update_vehicle_state, track_faults, drive_outputs, manage_pwm_and_relay,
}
use evse_sync_charge.Charge.Loop.{
  trip, check_rcm, periodic_self_test, relay_loop, boot_recovery, throttle_alive, loop_guard,
  loop_drive, loop,
}
use evse_sync_charge.Charge.Run.{rcm_begin, set_up, pass, lockout, constructed}
use evse_sync_charge.Charge.Overtaken.{
  Meanwhile, interrupt, passed_by, interfere, arm, await_test, await_and_begin, overtaken_unlocked,
  start_overtaken,
}
use evse_sync_charge.Charge.Interleaved.{
  Action, act, whole, overtaken, undisturbed, act_all, start_overtaken-undisturbed, act_all-closed,
  start_overtaken-begins,
}
use evse_sync_charge.Tests.Samples.{
  machine, power_up, settings, start_readings, pass_at, peak_c, waiting,
}

-- The test's edge, a pass that takes it for a fault, and a second edge.
abbrev twice : List Meanwhile
twice = interrupt ∷ passed_by (pass_at 5000 peak_c true) ∷ interrupt ∷ []

abbrev awaited : Evse Milli
awaited = interfere twice (arm waiting)

awaited_test : (awaited.error_lockout ≡ true) × (awaited.rcm_tripped ≡ true)
unfolding interfere arm loop loop_guard loop_drive check_rcm periodic_self_test relay_loop
    boot_recovery throttle_alive trip stop_charging Rcm.isr Rcm.is_triggered Read.read
    update_vehicle_state track_faults manage_pwm_and_relay check_resume_from_low_limit drive_outputs
awaited_test = (refl, refl)

start_overtaken-begins_example :
    let r = start_overtaken twice start_readings waiting in
    (r.state ≡ charging)
    × (r.vehicle_state ≡ awaited.vehicle_state)
    × (r.error_lockout ≡ awaited.error_lockout)
    × (r.rcm_tripped ≡ awaited.rcm_tripped)
    × (r.relay.desired ≡ true)
unfolding interfere arm loop loop_guard loop_drive check_rcm periodic_self_test relay_loop
    boot_recovery throttle_alive trip stop_charging Rcm.isr Rcm.is_triggered Read.read
    update_vehicle_state track_faults manage_pwm_and_relay check_resume_from_low_limit drive_outputs
start_overtaken-begins_example =
    start_overtaken-begins twice start_readings waiting refl refl refl refl refl refl refl

start_overtaken-undisturbed_test :
    start_overtaken (undisturbed start_readings) start_readings waiting
    ≡ start_charging start_readings waiting
start_overtaken-undisturbed_test = start_overtaken-undisturbed start_readings waiting

-- A start overtaken by a pass, after the controller is set up and the vehicle has come.
abbrev actions : List (Action Milli)
actions =
    whole (rcm_begin true)
    ∷ whole (set_up true true true true 1000 settings)
    ∷ whole (lockout false)
    ∷ whole (pass (pass_at 2000 peak_c false))
    ∷ whole (pass (pass_at 2010 peak_c false))
    ∷ whole (pass (pass_at 2020 peak_c false))
    ∷ whole (pass (pass_at 2030 peak_c false))
    ∷ overtaken twice start_readings
    ∷ []

abbrev acted : Evse Milli
acted = act_all actions (constructed settings true)

act_all-closed_example :
    (acted.state ≡ charging)
    × (asks_power acted.vehicle_state ≡ true)
    × (acted.current_test ≡ false)
unfolding act_all act start_overtaken overtaken_unlocked await_and_begin await_test arm interfere
    machine power_up
act_all-closed_example = act_all-closed settings true actions refl
