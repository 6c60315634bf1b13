-- ===== src/Charge/Power.antt =====
-- What one pass of the loop does to the contactor's output pin.
use evse_sync_charge.Base.{ℕ, ℤ, ◌≡◌, refl, ◌∙◌, false, List, Option, arith}
use evse_sync_charge.Float.{Float}
use evse_sync_charge.Relay
use evse_sync_charge.Relay.{Relay}
use evse_sync_charge.Relay.Timing.{loop-opens}
use evse_sync_charge.Charge.{Evse}
use evse_sync_charge.Charge.Limit.{
  apply_current_limit, check_resume_from_low_limit, set_current_limit,
}
use evse_sync_charge.Charge.Control.{
  StartReadings, fail_self_test, begin_session, test_and_begin, start_unlocked, start_charging,
  stop_charging,
}
use evse_sync_charge.Charge.Manage.{
  evict, enter_vehicle_state, update_vehicle_state, track_faults, drive_outputs,
  manage_pwm_and_relay,
}
use evse_sync_charge.Charge.Loop.{
  LoopReadings, trip, check_rcm, periodic_self_test, relay_loop, boot_recovery, throttle_alive,
  loop_guard, loop_drive, loop,
}

module _ {F : Type 0} ⦃fl : Float F⦄ where
  pub apply-pin : (now : ℕ) (s : Evse F) → (apply_current_limit now s).relay.pin ≡ s.relay.pin
  unfolding apply_current_limit
  apply-pin now s = ground arith

  pub set_limit-pin :
      (now : ℕ) (amps : F) (s : Evse F) → (set_current_limit now amps s).relay.pin ≡ s.relay.pin
  unfolding set_current_limit
  set_limit-pin now amps s = grind (arith, apply-pin)

  pub start-pin : (t : StartReadings) (s : Evse F) → (start_charging t s).relay.pin ≡ s.relay.pin
  unfolding start_charging start_unlocked test_and_begin fail_self_test begin_session
  start-pin t s = grind (arith, apply-pin)

  pub update-pin :
      (cali : Option (ℕ → ℤ)) (frames : List (List ℕ)) (now : ℕ) (s : Evse F)
      → (update_vehicle_state cali frames now s).relay.pin ≡ s.relay.pin
  unfolding update_vehicle_state enter_vehicle_state evict stop_charging
  update-pin cali frames now s = grind (arith, apply-pin)

  pub manage-pin : (s : Evse F) → (manage_pwm_and_relay s).relay.pin ≡ s.relay.pin
  unfolding manage_pwm_and_relay track_faults drive_outputs stop_charging
  manage-pin s = ground arith

  check_resume-pin :
      (now applied : ℕ) (s : Evse F)
      → (check_resume_from_low_limit now applied s).relay.pin ≡ s.relay.pin
  unfolding check_resume_from_low_limit
  check_resume-pin now applied s = grind (arith, apply-pin)

  boot-pin :
      (now : ℕ) (t : StartReadings) (s : Evse F) → (boot_recovery now t s).relay.pin ≡ s.relay.pin
  unfolding boot_recovery
  boot-pin now t s = grind (arith, start-pin)

  throttle-pin :
      (now applied : ℕ) (s : Evse F) → (throttle_alive now applied s).relay.pin ≡ s.relay.pin
  unfolding throttle_alive
  throttle-pin now applied s = grind (arith, set_limit-pin)

  -- What applyCurrentLimit leaves alone.
  pub apply-frame :
      (now : ℕ) (s : Evse F)
      → let r = apply_current_limit now s in
        (r.state ≡ s.state)
        × (r.vehicle_state ≡ s.vehicle_state)
        × (r.error_lockout ≡ s.error_lockout)
        × (r.rcm_tripped ≡ s.rcm_tripped)
  unfolding apply_current_limit
  apply-frame now s = ground arith

  pub set_limit-frame :
      (now : ℕ) (amps : F) (s : Evse F)
      → let r = set_current_limit now amps s in
        (r.state ≡ s.state)
        × (r.vehicle_state ≡ s.vehicle_state)
        × (r.error_lockout ≡ s.error_lockout)
        × (r.rcm_tripped ≡ s.rcm_tripped)
  unfolding set_current_limit
  set_limit-frame now amps s = grind (arith, apply-frame)

  pub throttle-frame :
      (now applied : ℕ) (s : Evse F)
      → let r = throttle_alive now applied s in
        (r.state ≡ s.state)
        × (r.vehicle_state ≡ s.vehicle_state)
        × (r.error_lockout ≡ s.error_lockout)
  unfolding throttle_alive
  throttle-frame now applied s = grind (arith, set_limit-frame)

  pub guard-open :
      (t : LoopReadings) (s : Evse F)
      → s.relay.desired ≡ false
      → s.relay.pin ≡ s.relay.current
      → let r = (loop_guard t s).relay in (r.desired ≡ false) × (r.pin ≡ r.current)
  unfolding loop_guard check_rcm periodic_self_test trip stop_charging fail_self_test
  guard-open t s d p = ground arith

  relay-pin :
      (checked switched : ℕ) (s : Evse F)
      → (relay_loop checked switched s).relay.pin ≡ (Relay.loop checked switched s.relay).pin
  unfolding relay_loop
  relay-pin checked switched s = refl

  pub loop-pin :
      (t : LoopReadings) (s : Evse F)
      → (loop t s).relay.pin
        ≡ (Relay.loop t.relay_checked t.relay_switched (loop_guard t s).relay).pin
  unfolding loop loop_drive
  loop-pin t s = simp (throttle-pin, boot-pin, check_resume-pin, manage-pin, update-pin, relay-pin)

  -- If the contactor is not asked to close when a pass of the loop begins, its pin is low when the
  -- pass ends, whatever the pass reads.
  pub loop-cuts :
      (t : LoopReadings) (s : Evse F)
      → s.relay.pin ≡ s.relay.current
      → s.relay.desired ≡ false
      → (loop t s).relay.pin ≡ false
  loop-cuts t s p d = let (d', p') = guard-open t s d p in loop-pin t s ∙ loop-opens _ _ _ d' p'
