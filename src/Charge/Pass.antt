-- ===== src/Charge/Pass.antt =====
-- A pass of the loop and the invariant of the controller.
use evse_sync_charge.Base.{ℕ, ℤ, ◌≡◌, inl, inr, Bool, false, List, Option, arith, Bool-cases}
use evse_sync_charge.Float.{Float}
use evse_sync_charge.Types.{VehicleState, same_vehicle}
use evse_sync_charge.Rcm
use evse_sync_charge.Pilot.{Pilot}
use evse_sync_charge.Pilot.Read
use evse_sync_charge.Charge.{Evse, notify_vehicle}
use evse_sync_charge.Charge.Control.{StartReadings, fail_self_test, stop_charging}
use evse_sync_charge.Charge.Manage.{
  evict, enter_vehicle_state, update_vehicle_state, track_faults, drive_outputs,
  manage_pwm_and_relay,
}
use evse_sync_charge.Charge.Loop.{
  LoopReadings, trip, check_rcm, periodic_self_test, relay_loop, boot_recovery, throttle_alive,
  ramp_target, loop_guard, loop_drive, loop,
}
use evse_sync_charge.Charge.Session.{
  IsSession, IsSafeIf, apply-IsSession, start-IsSafe, check_resume-IsSafe, set_current_limit-IsSafe,
}

module _ {F : Type 0} ⦃fl : Float F⦄ where
  -- Reading the pilot leaves its output alone.
  pub read-attached :
      (cali : Option (ℕ → ℤ)) (frames : List (List ℕ)) (p : Pilot F)
      → (Read.read cali frames p).pwm_attached ≡ p.pwm_attached
  unfolding Read.read Read.detect
  read-attached cali frames p = ground arith

  track-test : (s : Evse F) → (track_faults s).current_test ≡ s.current_test
  unfolding track_faults stop_charging
  track-test s = ground arith

module _ {F : Type 0} ⦃fl : Float F⦄ {b : Bool} where
  trip-IsSafe : (s : Evse F) → IsSession b s → IsSafeIf b (trip s)
  unfolding trip stop_charging
  trip-IsSafe s v = ground arith

  check_rcm-IsSafe : (level : Bool) (s : Evse F) → IsSafeIf b s → IsSafeIf b (check_rcm level s)
  unfolding check_rcm
  check_rcm-IsSafe level s v =
      let m = (Rcm.is_triggered level s.rcm).1 in
      ground (arith, trip-IsSafe (record s { rcm = m }) v.0)

  periodic-IsSafe :
      (now : ℕ) (edge : Bool) (tested : ℕ) (s : Evse F)
      → IsSafeIf b s
      → IsSafeIf b (periodic_self_test now edge tested s)
  unfolding periodic_self_test fail_self_test
  periodic-IsSafe now edge tested s v = ground arith

  relay_loop-IsSafe :
      (checked switched : ℕ) (s : Evse F)
      → IsSafeIf b s
      → IsSafeIf b (relay_loop checked switched s)
  unfolding relay_loop
  relay_loop-IsSafe checked switched s v = ground arith

  notify-IsSession : (s : Evse F) → IsSession b s → IsSession b (notify_vehicle s)
  unfolding notify_vehicle
  notify-IsSession s i = elim (Bool-cases s.vehicle_state_handler) [
    | inl e ↦ rw e i
    | inr e ↦ rw e i
  ]

  evict-IsSession :
      (v : VehicleState) (s : Evse F)
      → IsSession b s
      → IsSession b (evict (record s { vehicle_state = v }))
  unfolding evict stop_charging
  evict-IsSession v s i = ground arith

  enter-IsSession :
      (now : ℕ) (v : VehicleState) (s : Evse F)
      → IsSession b s
      → IsSession b (enter_vehicle_state now v s)
  unfolding enter_vehicle_state
  enter-IsSession now v s i = notify-IsSession _ (apply-IsSession now _ (evict-IsSession v s i))

  update-IsSession :
      (cali : Option (ℕ → ℤ)) (frames : List (List ℕ)) (now : ℕ) (s : Evse F)
      → IsSession b s
      → IsSession b (update_vehicle_state cali frames now s)
  unfolding update_vehicle_state
  update-IsSession cali frames now s i =
      let p = Read.read cali frames s.pilot in
      let i' : IsSession b (record s { pilot = p }) = rw (read-attached cali frames s.pilot) i in
      elim (Bool-cases (same_vehicle p.last_vehicle_state s.vehicle_state)) [
        | inl e ↦ rw e i'
        | inr e ↦ rw e (enter-IsSession now p.last_vehicle_state (record s { pilot = p }) i')
      ]

  track-IsSession : (s : Evse F) → IsSession b s → IsSession b (track_faults s)
  unfolding track_faults stop_charging
  track-IsSession s i = ground arith

  drive-IsSafe :
      (s : Evse F)
      → IsSession b s
      → s.current_test ≡ false
      → IsSafeIf b (drive_outputs s.vehicle_state s)
  unfolding drive_outputs
  drive-IsSafe s i e = ground arith

  manage-IsSafe : (s : Evse F) → IsSession b s → IsSafeIf b (manage_pwm_and_relay s)
  unfolding manage_pwm_and_relay
  manage-IsSafe s i =
      ground (arith, drive-IsSafe (track_faults s) (track-IsSession s i), track-test s)

  boot-IsSafe :
      (now : ℕ) (t : StartReadings) (s : Evse F) → IsSafeIf b s → IsSafeIf b (boot_recovery now t s)
  unfolding boot_recovery
  boot-IsSafe now t s v = ground (arith, start-IsSafe t s v)

  throttle-IsSafe :
      (now applied : ℕ) (s : Evse F) → IsSafeIf b s → IsSafeIf b (throttle_alive now applied s)
  unfolding throttle_alive
  throttle-IsSafe now applied s v =
      ground (arith, set_current_limit-IsSafe applied (ramp_target s.current_limit) s v)

  pub loop_guard-IsSafe :
      (t : LoopReadings) (s : Evse F) → IsSafeIf b s → IsSafeIf b (loop_guard t s)
  unfolding loop_guard
  loop_guard-IsSafe t s v = periodic-IsSafe _ _ _ _ (check_rcm-IsSafe _ _ v)

  pub loop_drive-IsSafe :
      (t : LoopReadings) (s : Evse F) → IsSafeIf b s → IsSafeIf b (loop_drive t s)
  unfolding loop_drive
  loop_drive-IsSafe t s v =
      check_resume-IsSafe _ _ _
        (manage-IsSafe _ (update-IsSession _ _ _ _ (relay_loop-IsSafe _ _ _ v).0))

  pub loop-IsSafe : (t : LoopReadings) (s : Evse F) → IsSafeIf b s → IsSafeIf b (loop t s)
  unfolding loop
  loop-IsSafe t s v =
      throttle-IsSafe _ _ _ (boot-IsSafe _ _ _ (loop_drive-IsSafe t _ (loop_guard-IsSafe t _ v)))
