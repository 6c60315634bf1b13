-- ===== src/Charge/Held.antt =====
-- The ready state, with the monitor's flag and semaphore and the flag of the recovery at boot, through
-- the operations but a start, the recovery itself and the commands for the monitor.
use evse_sync_charge.Base.{
  ℕ, ℤ, ◌≡◌, Bool, true, false, not, List, Option, arith, inl, inr, Bool-cases,
}
use evse_sync_charge.Float.{Float}
use evse_sync_charge.Types.{ChargeState, ready, VehicleState, same_vehicle}
use evse_sync_charge.Rcm
use evse_sync_charge.Pilot.Read
use evse_sync_charge.Charge
use evse_sync_charge.Charge.{Evse, notify_vehicle}
use evse_sync_charge.Charge.Limit.{
  apply_current_limit, set_current_limit, set_allow_below_6_amp_charging,
  check_resume_from_low_limit,
}
use evse_sync_charge.Charge.Control.{
  fail_self_test, stop_charging, pause_charging, enable_current_test, set_current_test,
  set_safety_lockout,
}
use evse_sync_charge.Charge.Manage.{
  evict, enter_vehicle_state, update_vehicle_state, track_faults, drive_outputs,
  manage_pwm_and_relay,
}
use evse_sync_charge.Charge.Loop.{
  LoopReadings, trip, check_rcm, periodic_self_test, relay_loop, throttle_alive, loop_guard,
  loop_drive,
}
use evse_sync_charge.Charge.Run.{
  Command, preinit, set_up, pass, start, stop, pause, limit, allow_below_6, resume_delay, measured,
  test_mode, test_amps, alive_timeout, alive, enable_rcm, lockout, state_handler, vehicle_handler,
  pilot_disable, pilot_stop, rcm_begin, rcm_self_test, rcm_interrupt, exec,
}

pub record HeldFacts (enabled created checked : Bool) (state : ChargeState)
    (has_enabled has_created has_checked : Bool) : Type 0 where
  pub is_ready : state ≡ ready
  pub is_enabled : has_enabled ≡ enabled
  pub is_created : has_created ≡ created
  pub is_checked : has_checked ≡ checked

abbrev pub IsHeld : {F : Type 0} → Bool → Bool → Bool → Evse F → Type 0
IsHeld enabled created checked s =
    HeldFacts enabled created checked s.state s.rcm_enabled s.rcm.created s.boot_recovery_checked

unfoldable pub is_quiet : {F : Type 0} → Command F → Bool
is_quiet (pass t) = false
is_quiet (start t) = false
is_quiet (rcm_begin succeeded) = false
is_quiet (enable_rcm enable) = false
is_quiet _ = true

module _ {F : Type 0} ⦃fl : Float F⦄ {e c b : Bool} where
  apply-IsHeld : (now : ℕ) (s : Evse F) → IsHeld e c b s → IsHeld e c b (apply_current_limit now s)
  unfolding apply_current_limit
  apply-IsHeld now s v = ground arith

  set_limit-IsHeld :
      (now : ℕ) (amps : F) (s : Evse F)
      → IsHeld e c b s
      → IsHeld e c b (set_current_limit now amps s)
  unfolding set_current_limit
  set_limit-IsHeld now amps s v = grind (arith, apply-IsHeld)

  guard-IsHeld : (t : LoopReadings) (s : Evse F) → IsHeld e c b s → IsHeld e c b (loop_guard t s)
  unfolding loop_guard check_rcm periodic_self_test trip stop_charging fail_self_test
  guard-IsHeld t s v = ground arith

  notify-IsHeld : (s : Evse F) → IsHeld e c b s → IsHeld e c b (notify_vehicle s)
  unfolding notify_vehicle
  notify-IsHeld s v = ground arith

  evict-IsHeld :
      (state : VehicleState) (s : Evse F)
      → IsHeld e c b s
      → IsHeld e c b (evict (record s { vehicle_state = state }))
  unfolding evict stop_charging
  evict-IsHeld state s v = ground arith

  enter-IsHeld :
      (now : ℕ) (state : VehicleState) (s : Evse F)
      → IsHeld e c b s
      → IsHeld e c b (enter_vehicle_state now state s)
  unfolding enter_vehicle_state
  enter-IsHeld now state s v = notify-IsHeld _ (apply-IsHeld now _ (evict-IsHeld state s v))

  update-IsHeld :
      (cali : Option (ℕ → ℤ)) (frames : List (List ℕ)) (now : ℕ) (s : Evse F)
      → IsHeld e c b s
      → IsHeld e c b (update_vehicle_state cali frames now s)
  unfolding update_vehicle_state
  update-IsHeld cali frames now s v =
      let p = Read.read cali frames s.pilot in
      elim (Bool-cases (same_vehicle p.last_vehicle_state s.vehicle_state)) [
        | inl e ↦ rw e v
        | inr e ↦ rw e (enter-IsHeld now p.last_vehicle_state (record s { pilot = p }) v)
      ]

  manage-IsHeld : (s : Evse F) → IsHeld e c b s → IsHeld e c b (manage_pwm_and_relay s)
  unfolding manage_pwm_and_relay track_faults drive_outputs stop_charging
  manage-IsHeld s v = ground arith

  resume-IsHeld :
      (now applied : ℕ) (s : Evse F)
      → IsHeld e c b s
      → IsHeld e c b (check_resume_from_low_limit now applied s)
  unfolding check_resume_from_low_limit
  resume-IsHeld now applied s v = ground (arith, apply-IsHeld applied s v)

  pub throttle-IsHeld :
      (now applied : ℕ) (s : Evse F) → IsHeld e c b s → IsHeld e c b (throttle_alive now applied s)
  unfolding throttle_alive
  throttle-IsHeld now applied s v = ground arith

  pub driven-IsHeld :
      (t : LoopReadings) (s : Evse F)
      → IsHeld e c b s
      → IsHeld e c b (loop_drive t (loop_guard t s))
  unfolding loop_drive relay_loop
  driven-IsHeld t s v =
      resume-IsHeld _ _ _ (manage-IsHeld _ (update-IsHeld _ _ _ _ (guard-IsHeld t s v)))

  pub exec-IsHeld :
      (n : Command F) (s : Evse F) → is_quiet n ≡ true → IsHeld e c b s → IsHeld e c b (exec n s)
  unfolding is_quiet exec Charge.preinit_hard Charge.setup Charge.set_low_limit_resume_delay
      Charge.update_actual_current Charge.set_throttle_alive_timeout Charge.signal_throttle_alive
      Charge.set_rcm_enabled Charge.on_state_change Charge.on_vehicle_state_change stop_charging
      pause_charging enable_current_test set_current_test set_safety_lockout
      set_allow_below_6_amp_charging Rcm.self_test Rcm.isr
  exec-IsHeld preinit s h v = v
  exec-IsHeld (set_up channel handle_made configured begun now settings) s h v = ground arith
  exec-IsHeld (pass t) s h v = ground arith
  exec-IsHeld (start t) s h v = ground arith
  exec-IsHeld stop s h v = ground arith
  exec-IsHeld pause s h v = ground arith
  exec-IsHeld (limit now amps) s h v = set_limit-IsHeld now amps s v
  exec-IsHeld (allow_below_6 now allow) s h v =
      apply-IsHeld now
        (record s { settings = record (s.settings) { disable_at_low_limit = not allow } }) v
  exec-IsHeld (resume_delay ms) s h v = v
  exec-IsHeld (measured now current) s h v = v
  exec-IsHeld (test_mode enable) s h v = ground arith
  exec-IsHeld (test_amps amps) s h v = ground arith
  exec-IsHeld (alive_timeout seconds) s h v = v
  exec-IsHeld (alive now) s h v = v
  exec-IsHeld (enable_rcm enable) s h v = ground arith
  exec-IsHeld (lockout true) s h v = ground arith
  exec-IsHeld (lockout false) s h v = v
  exec-IsHeld (state_handler on) s h v = v
  exec-IsHeld (vehicle_handler on) s h v = v
  exec-IsHeld pilot_disable s h v = v
  exec-IsHeld pilot_stop s h v = v
  exec-IsHeld (rcm_begin succeeded) s h v = ground arith
  exec-IsHeld (rcm_self_test edge) s h v = ground arith
  exec-IsHeld rcm_interrupt s h v = ground arith
