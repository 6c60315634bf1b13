-- ===== src/Charge/Run.antt =====
-- Everything that the firmware does with the controller, as commands, and what holds after any
-- sequence of them. A command is one whole call: two tasks of the firmware call the controller, and of
-- what one does in the middle of a call of the other only the wait of a start is modelled, in
-- Charge.Overtaken.
use evse_sync_charge.Base.{ℕ, ◌≡◌, refl, ◌⊎◌, Bool, true, false, List, [], ◌∷◌, arith}
use evse_sync_charge.Float.{Float}
use evse_sync_charge.Types.{ActualCurrent, ChargingSettings, charging}
use evse_sync_charge.Rcm
use evse_sync_charge.Pilot
use evse_sync_charge.Charge
use evse_sync_charge.Charge.{Evse, is_connected, asks_power}
use evse_sync_charge.Charge.Limit.{set_current_limit, set_allow_below_6_amp_charging}
use evse_sync_charge.Charge.Control.{
  StartReadings, start_charging, stop_charging, pause_charging, enable_current_test,
  set_current_test, set_safety_lockout,
}
use evse_sync_charge.Charge.Loop.{LoopReadings, loop}
use evse_sync_charge.Charge.Session.{
  IsSafeIf, start-IsSafe, stop-IsSafe, pause-IsSafe, enable_test-IsSafe, set_test-IsSafe,
  set_lockout-IsSafe, set_current_limit-IsSafe, set_allow-IsSafe,
}
use evse_sync_charge.Charge.Pass.{loop-IsSafe}

pub data Command (F : Type 0) : Type 0 where
  preinit : Command F
  set_up : (channel handle_made configured begun : Bool) → ℕ → ChargingSettings F → Command F
  pass : LoopReadings → Command F
  start : StartReadings → Command F
  stop pause : Command F
  limit : ℕ → F → Command F
  allow_below_6 : ℕ → Bool → Command F
  resume_delay : ℕ → Command F
  measured : ℕ → ActualCurrent F → Command F
  test_mode : Bool → Command F
  test_amps : F → Command F
  alive_timeout : ℕ → Command F
  alive : ℕ → Command F
  enable_rcm : Bool → Command F
  lockout : Bool → Command F
  state_handler vehicle_handler : Bool → Command F
  -- The calls made of the pilot and the monitor directly, and the monitor's interrupt.
  pilot_disable pilot_stop : Command F
  rcm_begin rcm_self_test : Bool → Command F
  rcm_interrupt : Command F

module _ {F : Type 0} ⦃fl : Float F⦄ where
  unfoldable pub exec : Command F → Evse F → Evse F
  exec preinit s = Charge.preinit_hard s
  exec (set_up channel handle_made configured begun now settings) s =
      Charge.setup channel handle_made configured begun now settings s
  exec (pass t) s = loop t s
  exec (start t) s = start_charging t s
  exec stop s = stop_charging s
  exec pause s = pause_charging s
  exec (limit now amps) s = set_current_limit now amps s
  exec (allow_below_6 now allow) s = set_allow_below_6_amp_charging now allow s
  exec (resume_delay ms) s = Charge.set_low_limit_resume_delay ms s
  exec (measured now current) s = Charge.update_actual_current now current s
  exec (test_mode enable) s = enable_current_test enable s
  exec (test_amps amps) s = set_current_test amps s
  exec (alive_timeout seconds) s = Charge.set_throttle_alive_timeout seconds s
  exec (alive now) s = Charge.signal_throttle_alive now s
  exec (enable_rcm enable) s = Charge.set_rcm_enabled enable s
  exec (lockout locked) s = set_safety_lockout locked s
  exec (state_handler on) s = Charge.on_state_change on s
  exec (vehicle_handler on) s = Charge.on_vehicle_state_change on s
  exec pilot_disable s = record s { pilot = Pilot.disable s.pilot }
  exec pilot_stop s = record s { pilot = Pilot.stop s.pilot }
  exec (rcm_begin succeeded) s = record s { rcm = Rcm.begin succeeded s.rcm }
  exec (rcm_self_test edge) s = record s { rcm = (Rcm.self_test edge s.rcm).1 }
  exec rcm_interrupt s = record s { rcm = Rcm.isr s.rcm }

  unfoldable pub run : List (Command F) → Evse F → Evse F
  run [] s = s
  run (c ∷ cs) s = run cs (exec c s)

  -- The controller as the firmware's globals are constructed.
  unfoldable pub constructed : ChargingSettings F → Bool → Evse F
  unfolding Charge.new Pilot.new Rcm.new
  constructed defaults allocated = Charge.new defaults (Pilot.new allocated) Rcm.new

module _ {F : Type 0} ⦃fl : Float F⦄ {b : Bool} where
  pub exec-IsSafe : (c : Command F) (s : Evse F) → IsSafeIf b s → IsSafeIf b (exec c s)
  unfolding exec Charge.preinit_hard Charge.setup Charge.set_low_limit_resume_delay
      Charge.update_actual_current Charge.set_throttle_alive_timeout Charge.signal_throttle_alive
      Charge.set_rcm_enabled Charge.on_state_change Charge.on_vehicle_state_change Pilot.disable
      Pilot.stop
  exec-IsSafe preinit s v = ground arith
  exec-IsSafe (set_up channel handle_made configured begun now settings) s v = ground arith
  exec-IsSafe (pass t) s v = loop-IsSafe t s v
  exec-IsSafe (start t) s v = start-IsSafe t s v
  exec-IsSafe stop s v = stop-IsSafe s v.0
  exec-IsSafe pause s v = pause-IsSafe s v
  exec-IsSafe (limit now amps) s v = set_current_limit-IsSafe now amps s v
  exec-IsSafe (allow_below_6 now allow) s v = set_allow-IsSafe now allow s v
  exec-IsSafe (resume_delay ms) s v = v
  exec-IsSafe (measured now current) s v = v
  exec-IsSafe (test_mode enable) s v = enable_test-IsSafe enable s v
  exec-IsSafe (test_amps amps) s v = set_test-IsSafe amps s v
  exec-IsSafe (alive_timeout seconds) s v = v
  exec-IsSafe (alive now) s v = v
  exec-IsSafe (enable_rcm enable) s v = v
  exec-IsSafe (lockout locked) s v = set_lockout-IsSafe locked s v
  exec-IsSafe (state_handler on) s v = v
  exec-IsSafe (vehicle_handler on) s v = v
  exec-IsSafe pilot_disable s v = ground arith
  exec-IsSafe pilot_stop s v = ground arith
  exec-IsSafe (rcm_begin succeeded) s v = v
  exec-IsSafe (rcm_self_test edge) s v = v
  exec-IsSafe rcm_interrupt s v = v

  pub run-IsSafe : (cs : List (Command F)) (s : Evse F) → IsSafeIf b s → IsSafeIf b (run cs s)
  unfolding run
  run-IsSafe [] s v = v
  run-IsSafe (c ∷ cs) s v = run-IsSafe cs (exec c s) (exec-IsSafe c s v)

  pub constructed-IsSafe :
      (defaults : ChargingSettings F) (allocated : Bool)
      → IsSafeIf b (constructed defaults allocated)
  unfolding constructed
  constructed-IsSafe defaults allocated = ground arith

module _ {F : Type 0} ⦃fl : Float F⦄ where
  module _ (defaults : ChargingSettings F) (allocated : Bool) (cs : List (Command F)) where
    -- After any sequence of commands from power-up, the contactor is asked to close only in a
    -- charging session with a vehicle in state C or D, no safety lockout and no current test.
    pub run-closed :
        let s = run cs (constructed defaults allocated) in
        s.relay.desired ≡ true
        → (s.state ≡ charging)
          × (asks_power s.vehicle_state ≡ true)
          × (s.error_lockout ≡ false)
          × (s.current_test ≡ false)
    run-closed h =
        let v = run-IsSafe cs _ (constructed-IsSafe defaults allocated) in
        let (c, e) = v.0.closed_charging h in (c, v.1 h, v.0.charging_unlocked refl c, e)

    -- After any sequence of commands from power-up, a charging session has a vehicle in state B, C or
    -- D, no safety lockout and no user pause.
    pub run-charging :
        let s = run cs (constructed defaults allocated) in
        s.state ≡ charging
        → (is_connected s.vehicle_state ≡ true)
          × (s.error_lockout ≡ false)
          × (s.user_paused ≡ false)
    run-charging h =
        let v = run-IsSafe cs _ (constructed-IsSafe defaults allocated) in
        (v.0.charging_connected refl h, v.0.charging_unlocked refl h, v.0.charging_unpaused h)

    -- After any sequence of commands from power-up, the pilot's PWM runs only in a charging session
    -- or in the current test.
    pub run-attached :
        let s = run cs (constructed defaults allocated) in
        s.pilot.pwm_attached ≡ true → (s.state ≡ charging) ⊎ (s.current_test ≡ true)
    run-attached = (run-IsSafe {b = true} cs _ (constructed-IsSafe defaults allocated)).0.pwm_used
