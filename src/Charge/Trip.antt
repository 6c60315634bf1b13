-- ===== src/Charge/Trip.antt =====
-- The emergency stop on a residual current fault.
use evse_sync_charge.Base.{ℕ, ℤ, ◌≡◌, ◌⊎◌, ◌∙◌, Bool, true, false, List, Option, arith}
use evse_sync_charge.Float.{Float}
use evse_sync_charge.Types.{not_connected, ready}
use evse_sync_charge.Relay.Timing.{loop-opens}
use evse_sync_charge.Rcm
use evse_sync_charge.Charge.{Evse}
use evse_sync_charge.Charge.Limit.{check_resume_from_low_limit}
use evse_sync_charge.Charge.Control.{
  StartReadings, fail_self_test, start_unlocked, start_charging, stop_charging,
}
use evse_sync_charge.Charge.Manage.{
  evict, enter_vehicle_state, update_vehicle_state, track_faults, drive_outputs,
  manage_pwm_and_relay,
}
use evse_sync_charge.Charge.Loop.{
  LoopReadings, trip, check_rcm, periodic_self_test, relay_loop, boot_recovery, throttle_alive,
  loop_guard, loop_drive, loop,
}
use evse_sync_charge.Charge.Power.{apply-frame, loop-pin}

module _ {F : Type 0} ⦃fl : Float F⦄ where
  -- The session after an emergency stop.
  abbrev IsTripped : Evse F → Type 0
  IsTripped s = (s.state ≡ ready) × (s.error_lockout ≡ true) × (s.rcm_tripped ≡ true)

  -- Or the vehicle was unplugged, which clears the lockout.
  abbrev IsStopped : Evse F → Type 0
  IsStopped s =
      (s.state ≡ ready)
      × ((s.error_lockout ≡ true) × (s.rcm_tripped ≡ true) ⊎ (s.vehicle_state ≡ not_connected))

  abbrev HasTrip : Bool → Evse F → Type 0
  HasTrip level s =
      (s.rcm_enabled ≡ true) × (s.rcm.created ≡ true) × (s.rcm.given ≡ true) × (level ≡ true)

  guard-IsTripped :
      (t : LoopReadings) (s : Evse F) → HasTrip t.rcm_level s → IsTripped (loop_guard t s)
  unfolding loop_guard check_rcm periodic_self_test trip stop_charging fail_self_test
      Rcm.is_triggered
  guard-IsTripped t s h = ground arith

  guard-trip_open :
      (t : LoopReadings) (s : Evse F)
      → HasTrip t.rcm_level s
      → s.relay.pin ≡ s.relay.current
      → let r = (loop_guard t s).relay in (r.desired ≡ false) × (r.pin ≡ r.current)
  unfolding loop_guard check_rcm periodic_self_test trip stop_charging fail_self_test
      Rcm.is_triggered
  guard-trip_open t s h p = ground arith

  update-IsTripped :
      (cali : Option (ℕ → ℤ)) (frames : List (List ℕ)) (now : ℕ) (s : Evse F)
      → IsTripped s
      → IsTripped (update_vehicle_state cali frames now s)
  unfolding update_vehicle_state enter_vehicle_state evict stop_charging
  update-IsTripped cali frames now s h = grind (arith, apply-frame)

  manage-IsStopped : (s : Evse F) → IsTripped s → IsStopped (manage_pwm_and_relay s)
  unfolding manage_pwm_and_relay track_faults drive_outputs stop_charging
  manage-IsStopped s h = ground arith

  check_resume-IsStopped :
      (now applied : ℕ) (s : Evse F)
      → IsStopped s
      → IsStopped (check_resume_from_low_limit now applied s)
  unfolding check_resume_from_low_limit
  check_resume-IsStopped now applied s h = grind (arith, apply-frame)

  boot-IsStopped :
      (now : ℕ) (t : StartReadings) (s : Evse F) → IsStopped s → IsStopped (boot_recovery now t s)
  unfolding boot_recovery start_charging start_unlocked
  boot-IsStopped now t s h = ground arith

  throttle-IsStopped :
      (now applied : ℕ) (s : Evse F) → IsStopped s → IsStopped (throttle_alive now applied s)
  unfolding throttle_alive
  throttle-IsStopped now applied s h = ground arith

  loop-IsStopped :
      (t : LoopReadings) (s : Evse F) → IsTripped (loop_guard t s) → IsStopped (loop t s)
  unfolding loop loop_drive relay_loop
  loop-IsStopped t s h = throttle-IsStopped _ _ _ (
      boot-IsStopped _ _ _
        (check_resume-IsStopped _ _ _ (manage-IsStopped _ (update-IsTripped _ _ _ _ h))))

  -- A residual current fault that the monitor reports at a pass of the loop ends the charging session
  -- and drives the contactor's pin low within that pass. The lockout and the trip flag are set, unless
  -- the vehicle is found unplugged in the same pass.
  pub loop-trips :
      (t : LoopReadings) (s : Evse F)
      → s.rcm_enabled ≡ true
      → s.rcm.created ≡ true
      → s.rcm.given ≡ true
      → t.rcm_level ≡ true
      → s.relay.pin ≡ s.relay.current
      → let r = loop t s in
        (r.relay.pin ≡ false)
        × (r.state ≡ ready)
        × ((r.error_lockout ≡ true) × (r.rcm_tripped ≡ true) ⊎ (r.vehicle_state ≡ not_connected))
  loop-trips t s e c g l p =
      let h : HasTrip t.rcm_level s = (e, c, g, l) in
      let (d', p') = guard-trip_open t s h p in
      let r = loop-IsStopped t s (guard-IsTripped t s h) in
      (loop-pin t s ∙ loop-opens _ _ _ d' p', r.0, r.1)
