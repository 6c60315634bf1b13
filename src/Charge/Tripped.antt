-- ===== src/Charge/Tripped.antt =====
-- A residual current trip with the lockout in force and no session, through whatever the firmware does
-- while the vehicle stays plugged in.
use evse_sync_charge.Base.{
  ℕ, ℤ, ◌≡◌, Bool, true, false, not, ◌&&◌, ◌||◌, List, [], ◌∷◌, Option, arith, inl, inr, Bool-cases,
}
use evse_sync_charge.Float.{Float}
use evse_sync_charge.Types.{ChargeState, ready, VehicleState, not_connected, same_vehicle}
use evse_sync_charge.Pilot.Read
use evse_sync_charge.Charge
use evse_sync_charge.Charge.{Evse, is_connected, notify_vehicle}
use evse_sync_charge.Charge.Limit.{
  apply_current_limit, set_current_limit, set_allow_below_6_amp_charging,
  check_resume_from_low_limit,
}
use evse_sync_charge.Charge.Control.{
  StartReadings, fail_self_test, start_charging, stop_charging, pause_charging, enable_current_test,
  set_current_test, set_safety_lockout,
}
use evse_sync_charge.Charge.Manage.{
  evict, enter_vehicle_state, update_vehicle_state, track_faults, drive_outputs,
  manage_pwm_and_relay,
}
use evse_sync_charge.Charge.Loop.{
  LoopReadings, trip, check_rcm, periodic_self_test, relay_loop, boot_recovery, throttle_alive,
  loop_guard, loop_drive, loop,
}
use evse_sync_charge.Charge.Contactor.{and_parts}
use evse_sync_charge.Charge.Start.{start_fails}
use evse_sync_charge.Charge.Run.{
  Command, preinit, set_up, pass, start, stop, pause, limit, allow_below_6, resume_delay, measured,
  test_mode, test_amps, alive_timeout, alive, enable_rcm, lockout, state_handler, vehicle_handler,
  pilot_disable, pilot_stop, rcm_begin, rcm_self_test, rcm_interrupt, exec, run,
}

pub record TrippedFacts (state : ChargeState) (tripped locked desired : Bool) : Type 0 where
  pub is_ready : state ≡ ready
  pub is_tripped : tripped ≡ true
  pub is_locked : locked ≡ true
  pub is_open : desired ≡ false

-- No session runs, the trip is flagged, the lockout is in force and the contactor is not asked to
-- close.
abbrev pub IsTripped : {F : Type 0} → Evse F → Type 0
IsTripped s = TrippedFacts s.state s.rcm_tripped s.error_lockout s.relay.desired

record OffFacts (state : ChargeState) (tripped locked desired : Bool) (v : VehicleState)
    : Type 0 where
  off_ready : state ≡ ready
  off_open : desired ≡ false
  off_held : (tripped && locked) || same_vehicle v not_connected ≡ true

-- The same, or the vehicle is unplugged.
abbrev IsOff : {F : Type 0} → Evse F → Type 0
IsOff s = OffFacts s.state s.rcm_tripped s.error_lockout s.relay.desired s.vehicle_state

module _ {F : Type 0} ⦃fl : Float F⦄ where
  -- A command that neither lifts the lockout nor is a pass after which the vehicle is unplugged.
  unfoldable pub stays_plugged : Command F → Evse F → Bool
  stays_plugged (lockout locked) s = locked
  stays_plugged (pass t) s = not (same_vehicle (loop t s).vehicle_state not_connected)
  stays_plugged _ s = true

  unfoldable pub all_plugged : List (Command F) → Evse F → Bool
  all_plugged [] s = true
  all_plugged (c ∷ cs) s = stays_plugged c s && all_plugged cs (exec c s)

  apply-IsTripped : (now : ℕ) (s : Evse F) → IsTripped s → IsTripped (apply_current_limit now s)
  unfolding apply_current_limit
  apply-IsTripped now s v = ground arith

  set_limit-IsTripped :
      (now : ℕ) (amps : F) (s : Evse F) → IsTripped s → IsTripped (set_current_limit now amps s)
  unfolding set_current_limit
  set_limit-IsTripped now amps s v = grind (arith, apply-IsTripped)

  guard-IsTripped : (t : LoopReadings) (s : Evse F) → IsTripped s → IsTripped (loop_guard t s)
  unfolding loop_guard check_rcm periodic_self_test trip stop_charging fail_self_test
  guard-IsTripped t s v = ground arith

  notify-IsTripped : (s : Evse F) → IsTripped s → IsTripped (notify_vehicle s)
  unfolding notify_vehicle
  notify-IsTripped s v = ground arith

  evict-IsTripped :
      (state : VehicleState) (s : Evse F)
      → IsTripped s
      → IsTripped (evict (record s { vehicle_state = state }))
  unfolding evict stop_charging
  evict-IsTripped state s v = ground arith

  enter-IsTripped :
      (now : ℕ) (state : VehicleState) (s : Evse F)
      → IsTripped s
      → IsTripped (enter_vehicle_state now state s)
  unfolding enter_vehicle_state
  enter-IsTripped now state s v =
      notify-IsTripped _ (apply-IsTripped now _ (evict-IsTripped state s v))

  update-IsTripped :
      (cali : Option (ℕ → ℤ)) (frames : List (List ℕ)) (now : ℕ) (s : Evse F)
      → IsTripped s
      → IsTripped (update_vehicle_state cali frames now s)
  unfolding update_vehicle_state
  update-IsTripped cali frames now s v =
      let p = Read.read cali frames s.pilot in
      elim (Bool-cases (same_vehicle p.last_vehicle_state s.vehicle_state)) [
        | inl e ↦ rw e v
        | inr e ↦ rw e (enter-IsTripped now p.last_vehicle_state (record s { pilot = p }) v)
      ]

  relay-IsTripped :
      (checked switched : ℕ) (s : Evse F) → IsTripped s → IsTripped (relay_loop checked switched s)
  unfolding relay_loop
  relay-IsTripped checked switched s v = ground arith

  manage-IsOff : (s : Evse F) → IsTripped s → IsOff (manage_pwm_and_relay s)
  unfolding manage_pwm_and_relay track_faults drive_outputs stop_charging
  manage-IsOff s v = ground arith

  apply-IsOff : (now : ℕ) (s : Evse F) → IsOff s → IsOff (apply_current_limit now s)
  unfolding apply_current_limit
  apply-IsOff now s v = ground arith

  resume-IsOff :
      (now applied : ℕ) (s : Evse F) → IsOff s → IsOff (check_resume_from_low_limit now applied s)
  unfolding check_resume_from_low_limit
  resume-IsOff now applied s v = ground (arith, apply-IsOff applied s v)

  boot-IsOff : (now : ℕ) (t : StartReadings) (s : Evse F) → IsOff s → IsOff (boot_recovery now t s)
  unfolding boot_recovery
  boot-IsOff now t s v = ground arith

  throttle-IsOff : (now applied : ℕ) (s : Evse F) → IsOff s → IsOff (throttle_alive now applied s)
  unfolding throttle_alive
  throttle-IsOff now applied s v = ground arith

  loop-IsOff : (t : LoopReadings) (s : Evse F) → IsTripped s → IsOff (loop t s)
  unfolding loop loop_drive
  loop-IsOff t s v =
      let switched = relay-IsTripped t.relay_checked t.relay_switched _ (guard-IsTripped t s v) in
      let updated = update-IsTripped t.cali t.frames t.vehicle_applied _ switched in
      let resumed = resume-IsOff t.resume_now t.resume_applied _ (manage-IsOff _ updated) in
      throttle-IsOff t.throttle_now t.throttle_applied _
        (boot-IsOff t.boot_now t.boot_start _ resumed)

  exec-IsTripped :
      (c : Command F) (s : Evse F) → stays_plugged c s ≡ true → IsTripped s → IsTripped (exec c s)
  unfolding stays_plugged exec Charge.preinit_hard Charge.setup Charge.set_low_limit_resume_delay
      Charge.update_actual_current Charge.set_throttle_alive_timeout Charge.signal_throttle_alive
      Charge.set_rcm_enabled Charge.on_state_change Charge.on_vehicle_state_change start_charging
      stop_charging pause_charging enable_current_test set_current_test set_safety_lockout
      set_allow_below_6_amp_charging
  exec-IsTripped preinit s h v = ground arith
  exec-IsTripped (set_up channel handle_made configured begun now settings) s h v = ground arith
  exec-IsTripped (pass t) s h v = let off = loop-IsOff t s v in ground arith
  exec-IsTripped (start t) s h v = ground arith
  exec-IsTripped stop s h v = ground arith
  exec-IsTripped pause s h v = ground arith
  exec-IsTripped (limit now amps) s h v = set_limit-IsTripped now amps s v
  exec-IsTripped (allow_below_6 now allow) s h v =
      apply-IsTripped now
        (record s { settings = record (s.settings) { disable_at_low_limit = not allow } }) v
  exec-IsTripped (resume_delay ms) s h v = v
  exec-IsTripped (measured now current) s h v = v
  exec-IsTripped (test_mode enable) s h v = ground arith
  exec-IsTripped (test_amps amps) s h v = ground arith
  exec-IsTripped (alive_timeout seconds) s h v = v
  exec-IsTripped (alive now) s h v = v
  exec-IsTripped (enable_rcm enable) s h v = v
  exec-IsTripped (lockout locked) s h v = ground arith
  exec-IsTripped (state_handler on) s h v = v
  exec-IsTripped (vehicle_handler on) s h v = v
  exec-IsTripped pilot_disable s h v = v
  exec-IsTripped pilot_stop s h v = v
  exec-IsTripped (rcm_begin succeeded) s h v = v
  exec-IsTripped (rcm_self_test edge) s h v = v
  exec-IsTripped rcm_interrupt s h v = v

  run-IsTripped :
      (cs : List (Command F)) (s : Evse F)
      → all_plugged cs s ≡ true
      → IsTripped s
      → IsTripped (run cs s)
  unfolding all_plugged run
  run-IsTripped [] s h v = v
  run-IsTripped (c ∷ cs) s h v =
      let (a, b) = and_parts (stays_plugged c s) (all_plugged cs (exec c s)) h in
      run-IsTripped cs (exec c s) b (exec-IsTripped c s a v)

  -- After a start command from the ready state, with a vehicle in state B, C or D and no trip flagged
  -- under a lockout, whose pre-charge self-test fails: whatever commands follow, further starts and
  -- passes of the loop with any readings among them, if none lifts the lockout from outside and no
  -- pass leaves the vehicle unplugged, then no session runs, the trip stays flagged, the lockout stays
  -- in force and the contactor is not asked to close.
  pub run_failed-IsTripped :
      (t : StartReadings) (cs : List (Command F)) (s : Evse F)
      → s.state ≡ ready
      → is_connected s.vehicle_state ≡ true
      → s.rcm_enabled ≡ true
      → (s.rcm.created && t.edge) ≡ false
      → (s.error_lockout && s.rcm_tripped) ≡ false
      → all_plugged cs (start_charging t s) ≡ true
      → IsTripped (run cs (start_charging t s))
  run_failed-IsTripped t cs s r v e f l h =
      let (stays, tripped, locked, opens, _) = start_fails t s r v e f l in
      run-IsTripped cs (start_charging t s) h
        (record { is_ready = stays; is_tripped = tripped; is_locked = locked; is_open = opens })
