-- ===== src/Charge/Contactor.antt =====
-- Which commands can move the contactor's output pin.
use evse_sync_charge.Base.{ℕ, ◌≡◌, refl, ◌∙◌, Bool, true, false, ◌&&◌, List, [], ◌∷◌, arith}
use evse_sync_charge.Float.{Float}
use evse_sync_charge.Charge
use evse_sync_charge.Charge.{Evse}
use evse_sync_charge.Charge.Limit.{set_allow_below_6_amp_charging}
use evse_sync_charge.Charge.Control.{
  stop_charging, pause_charging, enable_current_test, set_current_test, set_safety_lockout,
}
use evse_sync_charge.Charge.Power.{apply-pin, set_limit-pin, start-pin}
use evse_sync_charge.Charge.Run.{
  Command, preinit, set_up, pass, start, stop, pause, limit, allow_below_6, resume_delay, measured,
  test_mode, test_amps, alive_timeout, alive, enable_rcm, lockout, state_handler, vehicle_handler,
  pilot_disable, pilot_stop, rcm_begin, rcm_self_test, rcm_interrupt, exec, run,
}

module _ {F : Type 0} where
  -- All but the two initialisations and a pass of the controller's loop.
  unfoldable pub leaves_pin : Command F → Bool
  leaves_pin preinit = false
  leaves_pin (set_up channel handle_made configured begun now settings) = false
  leaves_pin (pass t) = false
  leaves_pin _ = true

  unfoldable pub all_leave : List (Command F) → Bool
  all_leave [] = true
  all_leave (c ∷ cs) = leaves_pin c && all_leave cs

pub and_parts : (a b : Bool) → (a && b) ≡ true → (a ≡ true) × (b ≡ true)
and_parts a b h = ground arith

module _ {F : Type 0} ⦃fl : Float F⦄ where
  allow-pin :
      (now : ℕ) (allow : Bool) (s : Evse F)
      → (set_allow_below_6_amp_charging now allow s).relay.pin ≡ s.relay.pin
  unfolding set_allow_below_6_amp_charging
  allow-pin now allow s = grind (arith, apply-pin)

  pub exec-pin :
      (c : Command F) (s : Evse F) → leaves_pin c ≡ true → (exec c s).relay.pin ≡ s.relay.pin
  unfolding leaves_pin exec stop_charging pause_charging enable_current_test set_current_test
      set_safety_lockout Charge.set_low_limit_resume_delay Charge.update_actual_current
      Charge.set_throttle_alive_timeout Charge.signal_throttle_alive Charge.set_rcm_enabled
      Charge.on_state_change Charge.on_vehicle_state_change
  exec-pin preinit s h = ground arith
  exec-pin (set_up channel handle_made configured begun now settings) s h = ground arith
  exec-pin (pass t) s h = ground arith
  exec-pin (start t) s h = start-pin t s
  exec-pin stop s h = ground arith
  exec-pin pause s h = ground arith
  exec-pin (limit now amps) s h = set_limit-pin now amps s
  exec-pin (allow_below_6 now allow) s h = allow-pin now allow s
  exec-pin (resume_delay ms) s h = refl
  exec-pin (measured now current) s h = refl
  exec-pin (test_mode enable) s h = ground arith
  exec-pin (test_amps amps) s h = ground arith
  exec-pin (alive_timeout seconds) s h = refl
  exec-pin (alive now) s h = refl
  exec-pin (enable_rcm enable) s h = refl
  exec-pin (lockout true) s h = ground arith
  exec-pin (lockout false) s h = refl
  exec-pin (state_handler on) s h = refl
  exec-pin (vehicle_handler on) s h = refl
  exec-pin pilot_disable s h = refl
  exec-pin pilot_stop s h = refl
  exec-pin (rcm_begin succeeded) s h = refl
  exec-pin (rcm_self_test edge) s h = refl
  exec-pin rcm_interrupt s h = refl

  -- A sequence without them leaves the pin.
  pub run-pin :
      (cs : List (Command F)) (s : Evse F)
      → all_leave cs ≡ true
      → (run cs s).relay.pin ≡ s.relay.pin
  unfolding all_leave run
  run-pin [] s h = refl
  run-pin (c ∷ cs) s h =
      let (a, b) = and_parts (leaves_pin c) (all_leave cs) h in
      run-pin cs (exec c s) b ∙ exec-pin c s a
