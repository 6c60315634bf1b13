-- ===== src/Charge/LowLimit.antt =====
-- What a current limit below the minimum of 6 A does in a charging session.
use evse_sync_charge.Base.{ℕ, ℤ, ◌≡◌, ap, ◌∙◌, true, false, List, Option, arith}
use evse_sync_charge.Float.{Float}
use evse_sync_charge.Types.{VehicleState, charging, same_vehicle}
use evse_sync_charge.Relay.{Relay}
use evse_sync_charge.Rcm
use evse_sync_charge.Pilot.{min_current}
use evse_sync_charge.Pilot.Read
use evse_sync_charge.Charge.{Evse, is_connected, asks_power}
use evse_sync_charge.Charge.Limit.{apply_current_limit, check_resume_from_low_limit}
use evse_sync_charge.Charge.Control.{StartReadings, stop_charging}
use evse_sync_charge.Charge.Manage.{
  update_vehicle_state, track_faults, drive_outputs, manage_pwm_and_relay,
}
use evse_sync_charge.Charge.Loop.{
  LoopReadings, check_rcm, periodic_self_test, relay_loop, boot_recovery, throttle_alive,
  loop_guard, loop_drive, loop,
}

same_vehicle_refl : (v : VehicleState) → same_vehicle v v ≡ true
same_vehicle_refl v = ground arith

module _ {F : Type 0} ⦃fl : Float F⦄ where
  -- With the pause mode configured, applying a limit below 6 A in a session asks for an open
  -- contactor and marks the pause, from the moment at which it was not yet marked.
  pub apply_pauses :
      (now : ℕ) (s : Evse F)
      → s.state ≡ charging
      → is_connected s.vehicle_state ≡ true
      → s.current_test ≡ false
      → fl.le min_current s.current_limit ≡ false
      → s.settings.disable_at_low_limit ≡ true
      → s.paused_at_low_limit ≡ false
      → let r = apply_current_limit now s in
        (r.relay.desired ≡ false)
        × (r.paused_at_low_limit ≡ true)
        × (r.paused_since ≡ now)
        × (r.state ≡ charging)
        × (r.pilot.pwm_attached ≡ true)
  unfolding apply_current_limit
  apply_pauses now s c v e l d p = ground arith

  -- The facts of a session that the pass does not change.
  abbrev IsLow : Evse F → Type 0
  IsLow s =
      (s.state ≡ charging)
      × (asks_power s.vehicle_state ≡ true)
      × (s.current_test ≡ false)
      × (fl.le min_current s.current_limit ≡ false)
      × (fl.lt (fl.lit 6 0) s.current_limit ≡ false)

  guard-IsLow :
      (t : LoopReadings) (s : Evse F)
      → s.rcm.given ≡ false
      → IsLow s
      → let r = loop_guard t s in
        IsLow r × (r.pilot ≡ s.pilot) × (r.vehicle_state ≡ s.vehicle_state)
  unfolding loop_guard check_rcm periodic_self_test Rcm.is_triggered
  guard-IsLow t s g h = ground arith

  manage-IsLow :
      (s : Evse F)
      → IsLow s
      → IsLow (manage_pwm_and_relay s) × ((manage_pwm_and_relay s).relay.desired ≡ true)
  unfolding manage_pwm_and_relay track_faults drive_outputs stop_charging
  manage-IsLow s h = ground arith

  check_resume_low :
      (now applied : ℕ) (s : Evse F) → IsLow s → check_resume_from_low_limit now applied s ≡ s
  unfolding check_resume_from_low_limit
  check_resume_low now applied s h = ground arith

  boot-IsLow :
      (now : ℕ) (t : StartReadings) (s : Evse F)
      → IsLow s
      → IsLow (boot_recovery now t s) × ((boot_recovery now t s).relay ≡ s.relay)
  unfolding boot_recovery
  boot-IsLow now t s h = ground arith

  throttle_low :
      (now applied : ℕ) (s : Evse F) → IsLow s → (throttle_alive now applied s).relay ≡ s.relay
  unfolding throttle_alive
  throttle_low now applied s h = ground arith

  update-IsLow :
      (cali : Option (ℕ → ℤ)) (frames : List (List ℕ)) (now : ℕ) (s : Evse F)
      → (Read.read cali frames s.pilot).last_vehicle_state ≡ s.vehicle_state
      → IsLow s
      → IsLow (update_vehicle_state cali frames now s)
  unfolding update_vehicle_state
  update-IsLow cali frames now s e h = ground (arith, same_vehicle_refl s.vehicle_state)

  -- A charging session outside the current test, with a vehicle in state C or D and a limit below 6 A,
  -- so also one that is paused at the low limit: a pass of the loop in which the vehicle state stays,
  -- and at whose beginning the monitor's semaphore is not given, asks for a closed contactor.
  pub loop_recloses :
      (t : LoopReadings) (s : Evse F)
      → s.state ≡ charging
      → asks_power s.vehicle_state ≡ true
      → s.current_test ≡ false
      → fl.le min_current s.current_limit ≡ false
      → fl.lt (fl.lit 6 0) s.current_limit ≡ false
      → s.rcm.given ≡ false
      → (Read.read t.cali t.frames s.pilot).last_vehicle_state ≡ s.vehicle_state
      → (loop t s).relay.desired ≡ true
  unfolding loop loop_drive relay_loop
  loop_recloses t s c v e l k g r =
      let (low, pilot, vehicle) = guard-IsLow t s g (c, v, e, l, k) in
      let guarded = relay_loop t.relay_checked t.relay_switched (loop_guard t s) in
      let same : (Read.read t.cali t.frames guarded.pilot).last_vehicle_state
          ≡ guarded.vehicle_state =
        rw (pilot, vehicle) r in
      let updated = update_vehicle_state t.cali t.frames t.vehicle_applied guarded in
      let (kept, closed) = manage-IsLow updated (update-IsLow _ _ _ guarded same low) in
      let managed = manage_pwm_and_relay updated in
      let resumed = check_resume_low t.resume_now t.resume_applied managed kept in
      let (kept', relay) = boot-IsLow t.boot_now t.boot_start managed kept in
      rw resumed (ap (λ (r : Relay). r.desired) (throttle_low _ _ _ kept' ∙ relay) ∙ closed)
