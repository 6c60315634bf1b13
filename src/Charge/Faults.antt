-- ===== src/Charge/Faults.antt =====
-- Pilot faults and the safety lockout in a pass of the loop.
use evse_sync_charge.Base.{ℕ, ℤ, ◌≡◌, ap, ◌∙◌, ◌⊎◌, true, false, List, Option, arith}
use evse_sync_charge.Float.{Float}
use evse_sync_charge.Types.{VehicleState, not_connected, ready}
use evse_sync_charge.Pilot.Read
use evse_sync_charge.Charge.{Evse, is_fault}
use evse_sync_charge.Charge.Limit.{apply_current_limit, check_resume_from_low_limit}
use evse_sync_charge.Charge.Control.{
  StartReadings, fail_self_test, start_charging, start_unlocked, stop_charging,
}
use evse_sync_charge.Charge.Manage.{
  evict, enter_vehicle_state, update_vehicle_state, track_faults, drive_outputs,
  manage_pwm_and_relay,
}
use evse_sync_charge.Charge.Loop.{
  LoopReadings, trip, check_rcm, periodic_self_test, relay_loop, boot_recovery, throttle_alive,
  loop_guard, loop_drive, loop,
}
use evse_sync_charge.Charge.Power.{apply-frame, throttle-frame}

module _ {F : Type 0} ⦃fl : Float F⦄ where
  abbrev IsKept : Evse F → Type 0
  IsKept s = (s.error_lockout ≡ true) ⊎ (s.vehicle_state ≡ not_connected)

  guard-lockout :
      (t : LoopReadings) (s : Evse F)
      → s.error_lockout ≡ true
      → (loop_guard t s).error_lockout ≡ true
  unfolding loop_guard check_rcm periodic_self_test trip stop_charging fail_self_test
  guard-lockout t s h = ground arith

  update-lockout :
      (cali : Option (ℕ → ℤ)) (frames : List (List ℕ)) (now : ℕ) (s : Evse F)
      → (update_vehicle_state cali frames now s).error_lockout ≡ s.error_lockout
  unfolding update_vehicle_state enter_vehicle_state evict stop_charging
  update-lockout cali frames now s = grind (arith, apply-frame)

  manage-IsKept : (s : Evse F) → s.error_lockout ≡ true → IsKept (manage_pwm_and_relay s)
  unfolding manage_pwm_and_relay track_faults drive_outputs stop_charging
  manage-IsKept s h = ground arith

  check_resume-IsKept :
      (now applied : ℕ) (s : Evse F) → IsKept s → IsKept (check_resume_from_low_limit now applied s)
  unfolding check_resume_from_low_limit
  check_resume-IsKept now applied s h = grind (arith, apply-frame)

  boot-IsKept :
      (now : ℕ) (t : StartReadings) (s : Evse F) → IsKept s → IsKept (boot_recovery now t s)
  unfolding boot_recovery start_charging start_unlocked
  boot-IsKept now t s h = ground arith

  throttle-IsKept :
      (now applied : ℕ) (s : Evse F) → IsKept s → IsKept (throttle_alive now applied s)
  throttle-IsKept now applied s h = ground (arith, throttle-frame now applied s)

  -- A pass of the loop lifts a safety lockout only when the vehicle is unplugged.
  pub loop-lockout :
      (t : LoopReadings) (s : Evse F)
      → s.error_lockout ≡ true
      → ((loop t s).error_lockout ≡ true) ⊎ ((loop t s).vehicle_state ≡ not_connected)
  unfolding loop loop_drive relay_loop
  loop-lockout t s h = throttle-IsKept _ _ _ (
      boot-IsKept _ _ _ (
        check_resume-IsKept _ _ _ (manage-IsKept _ (update-lockout _ _ _ _ ∙ guard-lockout t s h))))

  -- The session at a pilot fault, once the state machine has seen it.
  abbrev IsFaulted : Evse F → Type 0
  IsFaulted s =
      (s.state ≡ ready)
      × (is_fault s.vehicle_state ≡ true)
      × (s.error_lockout ≡ true)
      × (s.relay.desired ≡ false)
      × (s.pilot.pwm_attached ≡ false)

  guard-tracked :
      (t : LoopReadings) (s : Evse F)
      → let r = loop_guard t s in
        (r.vehicle_state ≡ s.vehicle_state)
        × (r.last_managed_vehicle_state ≡ s.last_managed_vehicle_state)
        × (r.current_test ≡ s.current_test)
  unfolding loop_guard check_rcm periodic_self_test trip stop_charging fail_self_test
  guard-tracked t s = ground arith

  apply-tracked :
      (now : ℕ) (s : Evse F)
      → let r = apply_current_limit now s in
        (r.last_managed_vehicle_state ≡ s.last_managed_vehicle_state)
        × (r.current_test ≡ s.current_test)
  unfolding apply_current_limit
  apply-tracked now s = ground arith

  -- A fault that the pilot reads ends the session before the state machine runs.
  enter-fault :
      (now : ℕ) (v : VehicleState) (s : Evse F)
      → is_fault v ≡ true
      → let r = enter_vehicle_state now v s in
        (r.state ≡ ready)
        × (r.vehicle_state ≡ v)
        × (r.last_managed_vehicle_state ≡ s.last_managed_vehicle_state)
        × (r.current_test ≡ s.current_test)
  unfolding enter_vehicle_state evict stop_charging
  enter-fault now v s h = grind (arith, apply-frame, apply-tracked)

  manage-IsFaulted :
      (s : Evse F)
      → s.state ≡ ready
      → is_fault s.vehicle_state ≡ true
      → is_fault s.last_managed_vehicle_state ≡ false
      → s.current_test ≡ false
      → IsFaulted (manage_pwm_and_relay s)
  unfolding manage_pwm_and_relay track_faults drive_outputs stop_charging
  manage-IsFaulted s r v m e = ground arith

  check_resume-IsFaulted :
      (now applied : ℕ) (s : Evse F)
      → IsFaulted s
      → IsFaulted (check_resume_from_low_limit now applied s)
  unfolding check_resume_from_low_limit apply_current_limit
  check_resume-IsFaulted now applied s h = ground arith

  boot-IsFaulted :
      (now : ℕ) (t : StartReadings) (s : Evse F) → IsFaulted s → IsFaulted (boot_recovery now t s)
  unfolding boot_recovery
  boot-IsFaulted now t s h = ground arith

  throttle-IsFaulted :
      (now applied : ℕ) (s : Evse F) → IsFaulted s → IsFaulted (throttle_alive now applied s)
  unfolding throttle_alive
  throttle-IsFaulted now applied s h = ground arith

  update-fault :
      (cali : Option (ℕ → ℤ)) (frames : List (List ℕ)) (now : ℕ) (s : Evse F)
      → is_fault s.vehicle_state ≡ false
      → is_fault (Read.read cali frames s.pilot).last_vehicle_state ≡ true
      → let r = update_vehicle_state cali frames now s in
        (r.state ≡ ready)
        × (is_fault r.vehicle_state ≡ true)
        × (r.last_managed_vehicle_state ≡ s.last_managed_vehicle_state)
        × (r.current_test ≡ s.current_test)
  unfolding update_vehicle_state
  update-fault cali frames now s v h =
      let p = Read.read cali frames s.pilot in
      ground (arith, enter-fault now p.last_vehicle_state (record s { pilot = p }) h)

  -- When a pass of the loop outside the current test reads a pilot fault, VEHICLE_ERROR or
  -- VEHICLE_NO_POWER, that is new to the controller and its state machine, then at its end the
  -- session is over, the safety lockout is on, the contactor is asked to open and the PWM is off.
  pub loop_faults :
      (t : LoopReadings) (s : Evse F)
      → s.current_test ≡ false
      → is_fault s.vehicle_state ≡ false
      → is_fault s.last_managed_vehicle_state ≡ false
      → is_fault (Read.read t.cali t.frames (loop_guard t s).pilot).last_vehicle_state ≡ true
      → let r = loop t s in
        (r.state ≡ ready)
        × (is_fault r.vehicle_state ≡ true)
        × (r.error_lockout ≡ true)
        × (r.relay.desired ≡ false)
        × (r.pilot.pwm_attached ≡ false)
  unfolding loop loop_drive relay_loop
  loop_faults t s e v m h =
      let (vehicle, managed, test) = guard-tracked t s in
      let guarded = relay_loop t.relay_checked t.relay_switched (loop_guard t s) in
      let (r, f, managed', test') =
        update-fault t.cali t.frames t.vehicle_applied guarded (ap is_fault vehicle ∙ v) h in
      throttle-IsFaulted _ _ _ (
        boot-IsFaulted _ _ _ (
          check_resume-IsFaulted _ _ _
            (manage-IsFaulted _ r f (ap is_fault (managed' ∙ managed) ∙ m) (test' ∙ test ∙ e))))
