-- ===== src/Charge/Unbegun.antt =====
-- A monitor that is enabled but was never begun, and sessions that nothing asks for.
use evse_sync_charge.Base.{ℕ, ◌≡◌, refl, Bool, true, false, ◌&&◌, List, [], ◌∷◌, arith}
use evse_sync_charge.Float.{Float}
use evse_sync_charge.Types.{ready}
use evse_sync_charge.Rcm
use evse_sync_charge.Charge
use evse_sync_charge.Charge.{Evse, notify_vehicle}
use evse_sync_charge.Charge.Control.{
  StartReadings, fail_self_test, test_and_begin, start_unlocked, start_charging,
}
use evse_sync_charge.Charge.Loop.{LoopReadings, boot_recovery, loop_guard, loop_drive, loop}
use evse_sync_charge.Charge.Contactor.{and_parts}
use evse_sync_charge.Charge.Run.{
  Command, preinit, set_up, pass, start, stop, pause, limit, allow_below_6, resume_delay, measured,
  test_mode, test_amps, alive_timeout, alive, enable_rcm, lockout, state_handler, vehicle_handler,
  pilot_disable, pilot_stop, rcm_begin, rcm_self_test, rcm_interrupt, exec, run,
}
use evse_sync_charge.Charge.Held.{IsHeld, is_quiet, driven-IsHeld, throttle-IsHeld, exec-IsHeld}

-- No session runs, and the monitor is enabled but has no semaphore.
abbrev pub IsUnbegun : {F : Type 0} → Evse F → Type 0
IsUnbegun s = IsHeld true false s.boot_recovery_checked s

-- No session runs, and the recovery at boot is over.
abbrev pub IsUnasked : {F : Type 0} → Evse F → Type 0
IsUnasked s = IsHeld s.rcm_enabled s.rcm.created true s

-- Any command but the monitor's begin and its disabling.
unfoldable pub leaves_monitor : {F : Type 0} → Command F → Bool
leaves_monitor (rcm_begin succeeded) = false
leaves_monitor (enable_rcm enable) = enable
leaves_monitor _ = true

unfoldable pub all_leave_monitor : {F : Type 0} → List (Command F) → Bool
all_leave_monitor [] = true
all_leave_monitor (c ∷ cs) = leaves_monitor c && all_leave_monitor cs

-- Any command but a start.
unfoldable pub starts_nothing : {F : Type 0} → Command F → Bool
starts_nothing (start t) = false
starts_nothing _ = true

unfoldable pub none_starts : {F : Type 0} → List (Command F) → Bool
none_starts [] = true
none_starts (c ∷ cs) = starts_nothing c && none_starts cs

module _ {F : Type 0} ⦃fl : Float F⦄ where
  own-IsUnbegun : {b : Bool} (s : Evse F) → IsHeld true false b s → IsUnbegun s
  own-IsUnbegun s v = ground arith

  own-IsUnasked : {e c : Bool} (s : Evse F) → IsHeld e c true s → IsUnasked s
  own-IsUnasked s v = ground arith

  start-IsUnbegun : (t : StartReadings) (s : Evse F) → IsUnbegun s → IsUnbegun (start_charging t s)
  unfolding start_charging start_unlocked test_and_begin fail_self_test
  start-IsUnbegun t s v = ground arith

  boot-IsUnbegun :
      (now : ℕ) (t : StartReadings) (s : Evse F) → IsUnbegun s → IsUnbegun (boot_recovery now t s)
  unfolding boot_recovery
  boot-IsUnbegun now t s v = ground (arith, start-IsUnbegun t s v)

  loop-IsUnbegun : (t : LoopReadings) (s : Evse F) → IsUnbegun s → IsUnbegun (loop t s)
  unfolding loop
  loop-IsUnbegun t s v =
      let driven = loop_drive t (loop_guard t s) in
      let d = own-IsUnbegun driven (driven-IsHeld t s v) in
      own-IsUnbegun (loop t s)
        (throttle-IsHeld _ _ _ (boot-IsUnbegun t.boot_now t.boot_start driven d))

  exec-IsUnbegun :
      (c : Command F) (s : Evse F) → leaves_monitor c ≡ true → IsUnbegun s → IsUnbegun (exec c s)
  unfolding leaves_monitor is_quiet exec Charge.set_rcm_enabled
  exec-IsUnbegun preinit s h v = own-IsUnbegun (exec preinit s) (exec-IsHeld preinit s refl v)
  exec-IsUnbegun (set_up channel handle_made configured begun now settings) s h v =
      own-IsUnbegun (exec (set_up channel handle_made configured begun now settings) s)
        (exec-IsHeld (set_up channel handle_made configured begun now settings) s refl v)
  exec-IsUnbegun (pass t) s h v = loop-IsUnbegun t s v
  exec-IsUnbegun (start t) s h v = start-IsUnbegun t s v
  exec-IsUnbegun stop s h v = own-IsUnbegun (exec stop s) (exec-IsHeld stop s refl v)
  exec-IsUnbegun pause s h v = own-IsUnbegun (exec pause s) (exec-IsHeld pause s refl v)
  exec-IsUnbegun (limit now amps) s h v =
      own-IsUnbegun (exec (limit now amps) s) (exec-IsHeld (limit now amps) s refl v)
  exec-IsUnbegun (allow_below_6 now allow) s h v =
      own-IsUnbegun (exec (allow_below_6 now allow) s)
        (exec-IsHeld (allow_below_6 now allow) s refl v)
  exec-IsUnbegun (resume_delay ms) s h v =
      own-IsUnbegun (exec (resume_delay ms) s) (exec-IsHeld (resume_delay ms) s refl v)
  exec-IsUnbegun (measured now current) s h v =
      own-IsUnbegun (exec (measured now current) s) (exec-IsHeld (measured now current) s refl v)
  exec-IsUnbegun (test_mode enable) s h v =
      own-IsUnbegun (exec (test_mode enable) s) (exec-IsHeld (test_mode enable) s refl v)
  exec-IsUnbegun (test_amps amps) s h v =
      own-IsUnbegun (exec (test_amps amps) s) (exec-IsHeld (test_amps amps) s refl v)
  exec-IsUnbegun (alive_timeout seconds) s h v =
      own-IsUnbegun (exec (alive_timeout seconds) s) (exec-IsHeld (alive_timeout seconds) s refl v)
  exec-IsUnbegun (alive now) s h v =
      own-IsUnbegun (exec (alive now) s) (exec-IsHeld (alive now) s refl v)
  exec-IsUnbegun (enable_rcm enable) s h v = ground arith
  exec-IsUnbegun (lockout locked) s h v =
      own-IsUnbegun (exec (lockout locked) s) (exec-IsHeld (lockout locked) s refl v)
  exec-IsUnbegun (state_handler on) s h v =
      own-IsUnbegun (exec (state_handler on) s) (exec-IsHeld (state_handler on) s refl v)
  exec-IsUnbegun (vehicle_handler on) s h v =
      own-IsUnbegun (exec (vehicle_handler on) s) (exec-IsHeld (vehicle_handler on) s refl v)
  exec-IsUnbegun pilot_disable s h v =
      own-IsUnbegun (exec pilot_disable s) (exec-IsHeld pilot_disable s refl v)
  exec-IsUnbegun pilot_stop s h v =
      own-IsUnbegun (exec pilot_stop s) (exec-IsHeld pilot_stop s refl v)
  exec-IsUnbegun (rcm_begin succeeded) s h v = ground arith
  exec-IsUnbegun (rcm_self_test edge) s h v =
      own-IsUnbegun (exec (rcm_self_test edge) s) (exec-IsHeld (rcm_self_test edge) s refl v)
  exec-IsUnbegun rcm_interrupt s h v =
      own-IsUnbegun (exec rcm_interrupt s) (exec-IsHeld rcm_interrupt s refl v)

  -- Once the monitor is enabled with no session running and was not begun, no sequence of commands
  -- without the monitor's begin or its disabling leads to a charging session: neither a start, nor
  -- a message, nor the recovery in a pass of the loop.
  pub run-IsUnbegun :
      (cs : List (Command F)) (s : Evse F)
      → all_leave_monitor cs ≡ true
      → IsUnbegun s
      → IsUnbegun (run cs s)
  unfolding all_leave_monitor run
  run-IsUnbegun [] s h v = v
  run-IsUnbegun (c ∷ cs) s h v =
      let (a, b) = and_parts (leaves_monitor c) (all_leave_monitor cs) h in
      run-IsUnbegun cs (exec c s) b (exec-IsUnbegun c s a v)

  boot_checked :
      (now : ℕ) (t : StartReadings) (s : Evse F) → IsUnasked s → boot_recovery now t s ≡ s
  unfolding boot_recovery
  boot_checked now t s v = ground arith

  loop-IsUnasked : (t : LoopReadings) (s : Evse F) → IsUnasked s → IsUnasked (loop t s)
  unfolding loop
  loop-IsUnasked t s v =
      let driven = loop_drive t (loop_guard t s) in
      let d = own-IsUnasked driven (driven-IsHeld t s v) in
      let kept : IsHeld driven.rcm_enabled driven.rcm.created true
          (boot_recovery t.boot_now t.boot_start driven) =
        rw (boot_checked t.boot_now t.boot_start driven d) d in
      own-IsUnasked (loop t s) (throttle-IsHeld _ _ _ kept)

  exec-IsUnasked :
      (c : Command F) (s : Evse F) → starts_nothing c ≡ true → IsUnasked s → IsUnasked (exec c s)
  unfolding starts_nothing is_quiet exec Charge.set_rcm_enabled Rcm.begin
  exec-IsUnasked preinit s h v = own-IsUnasked (exec preinit s) (exec-IsHeld preinit s refl v)
  exec-IsUnasked (set_up channel handle_made configured begun now settings) s h v =
      own-IsUnasked (exec (set_up channel handle_made configured begun now settings) s)
        (exec-IsHeld (set_up channel handle_made configured begun now settings) s refl v)
  exec-IsUnasked (pass t) s h v = loop-IsUnasked t s v
  exec-IsUnasked (start t) s h v = ground arith
  exec-IsUnasked stop s h v = own-IsUnasked (exec stop s) (exec-IsHeld stop s refl v)
  exec-IsUnasked pause s h v = own-IsUnasked (exec pause s) (exec-IsHeld pause s refl v)
  exec-IsUnasked (limit now amps) s h v =
      own-IsUnasked (exec (limit now amps) s) (exec-IsHeld (limit now amps) s refl v)
  exec-IsUnasked (allow_below_6 now allow) s h v =
      own-IsUnasked (exec (allow_below_6 now allow) s)
        (exec-IsHeld (allow_below_6 now allow) s refl v)
  exec-IsUnasked (resume_delay ms) s h v =
      own-IsUnasked (exec (resume_delay ms) s) (exec-IsHeld (resume_delay ms) s refl v)
  exec-IsUnasked (measured now current) s h v =
      own-IsUnasked (exec (measured now current) s) (exec-IsHeld (measured now current) s refl v)
  exec-IsUnasked (test_mode enable) s h v =
      own-IsUnasked (exec (test_mode enable) s) (exec-IsHeld (test_mode enable) s refl v)
  exec-IsUnasked (test_amps amps) s h v =
      own-IsUnasked (exec (test_amps amps) s) (exec-IsHeld (test_amps amps) s refl v)
  exec-IsUnasked (alive_timeout seconds) s h v =
      own-IsUnasked (exec (alive_timeout seconds) s) (exec-IsHeld (alive_timeout seconds) s refl v)
  exec-IsUnasked (alive now) s h v =
      own-IsUnasked (exec (alive now) s) (exec-IsHeld (alive now) s refl v)
  exec-IsUnasked (enable_rcm enable) s h v = ground arith
  exec-IsUnasked (lockout locked) s h v =
      own-IsUnasked (exec (lockout locked) s) (exec-IsHeld (lockout locked) s refl v)
  exec-IsUnasked (state_handler on) s h v =
      own-IsUnasked (exec (state_handler on) s) (exec-IsHeld (state_handler on) s refl v)
  exec-IsUnasked (vehicle_handler on) s h v =
      own-IsUnasked (exec (vehicle_handler on) s) (exec-IsHeld (vehicle_handler on) s refl v)
  exec-IsUnasked pilot_disable s h v =
      own-IsUnasked (exec pilot_disable s) (exec-IsHeld pilot_disable s refl v)
  exec-IsUnasked pilot_stop s h v =
      own-IsUnasked (exec pilot_stop s) (exec-IsHeld pilot_stop s refl v)
  exec-IsUnasked (rcm_begin succeeded) s h v = ground arith
  exec-IsUnasked (rcm_self_test edge) s h v =
      own-IsUnasked (exec (rcm_self_test edge) s) (exec-IsHeld (rcm_self_test edge) s refl v)
  exec-IsUnasked rcm_interrupt s h v =
      own-IsUnasked (exec rcm_interrupt s) (exec-IsHeld rcm_interrupt s refl v)

  run-IsUnasked :
      (cs : List (Command F)) (s : Evse F)
      → none_starts cs ≡ true
      → IsUnasked s
      → IsUnasked (run cs s)
  unfolding none_starts run
  run-IsUnasked [] s h v = v
  run-IsUnasked (c ∷ cs) s h v =
      let (a, b) = and_parts (starts_nothing c) (none_starts cs) h in
      run-IsUnasked cs (exec c s) b (exec-IsUnasked c s a v)

  -- Once the recovery at boot is over and no session runs, no sequence of commands without a start
  -- leads to a charging session: no pass of the loop, whatever it reads, and no change of the limit,
  -- the lockout or the settings.
  pub run-unasked :
      (cs : List (Command F)) (s : Evse F)
      → none_starts cs ≡ true
      → s.state ≡ ready
      → s.boot_recovery_checked ≡ true
      → (run cs s).state ≡ ready
  run-unasked cs s h r k =
      (run-IsUnasked cs s h
        (record { is_ready = r; is_enabled = refl; is_created = refl; is_checked = k })).is_ready
