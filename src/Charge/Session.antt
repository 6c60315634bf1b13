-- ===== src/Charge/Session.antt =====
-- The invariant of the controller, and the operations but a pass of the loop.
use evse_sync_charge.Base.{ℕ, ◌≡◌, ◌⊎◌, inl, inr, Bool, true, false, not, arith, Bool-cases}
use evse_sync_charge.Float.{Float}
use evse_sync_charge.Types.{ChargeState, VehicleState, charging, ready}
use evse_sync_charge.Rcm
use evse_sync_charge.Charge.{Evse, is_connected, asks_power, notify_state}
use evse_sync_charge.Charge.Limit.{
  apply_current_limit, clamp_amps, set_current_limit, set_allow_below_6_amp_charging,
  check_resume_from_low_limit,
}
use evse_sync_charge.Charge.Control.{
  StartReadings, fail_self_test, begin_session, test_and_begin, start_unlocked, start_charging,
  stop_charging, pause_charging, enable_current_test, set_current_test, set_safety_lockout,
}

-- The invariant's first part, of the fields that it speaks of. It holds also within a pass of the
-- loop. Where `strict` is false it leaves open what a session asks of the vehicle and the lockout.
pub record SessionFacts (strict : Bool) (state : ChargeState) (vehicle : VehicleState)
    (lockout paused test desired attached pin current : Bool) : Type 0 where
  pub charging_connected : strict ≡ true → state ≡ charging → is_connected vehicle ≡ true
  pub charging_unlocked : strict ≡ true → state ≡ charging → lockout ≡ false
  pub charging_unpaused : state ≡ charging → paused ≡ false
  pub closed_charging : desired ≡ true → (state ≡ charging) × (test ≡ false)
  pub pwm_used : attached ≡ true → (state ≡ charging) ⊎ (test ≡ true)
  pub pin_current : pin ≡ current

abbrev pub IsSession : {F : Type 0} → Bool → Evse F → Type 0
IsSession b s =
    SessionFacts b s.state s.vehicle_state s.error_lockout s.user_paused s.current_test
      s.relay.desired s.pilot.pwm_attached s.relay.pin s.relay.current

-- The contactor is asked to close only for a vehicle in state C or D.
abbrev pub IsCommanded : {F : Type 0} → Evse F → Type 0
IsCommanded s = s.relay.desired ≡ true → asks_power s.vehicle_state ≡ true

-- The invariant between two operations.
abbrev pub IsSafeIf : {F : Type 0} → Bool → Evse F → Type 0
IsSafeIf b s = IsSession b s × IsCommanded s

abbrev pub IsSafe : {F : Type 0} → Evse F → Type 0
IsSafe s = IsSafeIf true s

module _ {F : Type 0} ⦃fl : Float F⦄ where
  pub apply-IsCommanded :
      (now : ℕ) (s : Evse F) → IsCommanded s → IsCommanded (apply_current_limit now s)
  unfolding apply_current_limit
  apply-IsCommanded now s v = ground arith

module _ {F : Type 0} ⦃fl : Float F⦄ {b : Bool} where
  pub apply-IsSession :
      (now : ℕ) (s : Evse F) → IsSession b s → IsSession b (apply_current_limit now s)
  unfolding apply_current_limit
  apply-IsSession now s v = ground arith

  pub apply-IsSafe : (now : ℕ) (s : Evse F) → IsSafeIf b s → IsSafeIf b (apply_current_limit now s)
  apply-IsSafe now s v = (apply-IsSession now s v.0, apply-IsCommanded now s v.1)

  pub set_current_limit-IsSafe :
      (now : ℕ) (amps : F) (s : Evse F) → IsSafeIf b s → IsSafeIf b (set_current_limit now amps s)
  unfolding set_current_limit
  set_current_limit-IsSafe now amps s v =
      let limit = clamp_amps s.settings.max_current amps in
      elim (Bool-cases (fl.eq limit s.current_limit)) [
        | inl e ↦ rw e v
        | inr e ↦ rw e (apply-IsSafe now (record s { current_limit = limit }) v)
      ]

  pub set_allow-IsSafe :
      (now : ℕ) (allow : Bool) (s : Evse F)
      → IsSafeIf b s
      → IsSafeIf b (set_allow_below_6_amp_charging now allow s)
  unfolding set_allow_below_6_amp_charging
  set_allow-IsSafe now allow s v =
      apply-IsSafe now
        (record s { settings = record (s.settings) { disable_at_low_limit = not allow } }) v

  pub check_resume-IsSafe :
      (now applied : ℕ) (s : Evse F)
      → IsSafeIf b s
      → IsSafeIf b (check_resume_from_low_limit now applied s)
  unfolding check_resume_from_low_limit
  check_resume-IsSafe now applied s v = ground (arith, apply-IsSafe applied s v)

  pub stop-IsSafe : (s : Evse F) → IsSession b s → IsSafeIf b (stop_charging s)
  unfolding stop_charging
  stop-IsSafe s v = ground arith

  pub pause-IsSafe : (s : Evse F) → IsSafeIf b s → IsSafeIf b (pause_charging s)
  unfolding pause_charging
  pause-IsSafe s v = ground arith

  pub enable_test-IsSafe :
      (enable : Bool) (s : Evse F) → IsSafeIf b s → IsSafeIf b (enable_current_test enable s)
  unfolding enable_current_test
  enable_test-IsSafe enable s v = ground arith

  pub set_test-IsSafe :
      (amps : F) (s : Evse F) → IsSafeIf b s → IsSafeIf b (set_current_test amps s)
  unfolding set_current_test
  set_test-IsSafe amps s v = ground arith

  pub notify-IsSafe : (s : Evse F) → IsSafeIf b s → IsSafeIf b (notify_state s)
  unfolding notify_state
  notify-IsSafe s v = elim (Bool-cases s.state_handler) [ inl e ↦ rw e v | inr e ↦ rw e v ]

  pub set_lockout-IsSafe :
      (locked : Bool) (s : Evse F) → IsSafeIf b s → IsSafeIf b (set_safety_lockout locked s)
  unfolding set_safety_lockout stop_charging
  set_lockout-IsSafe true s v = ground arith
  set_lockout-IsSafe false s v = ground arith

  pub begin_session-IsSafe :
      (t : StartReadings) (s : Evse F)
      → IsSafeIf b s
      → (b ≡ true → s.error_lockout ≡ false)
      → (b ≡ true → is_connected s.vehicle_state ≡ true)
      → IsSafeIf b (begin_session t s)
  unfolding begin_session
  begin_session-IsSafe t s v u c = notify-IsSafe _ (apply-IsSafe t.applied _ (ground arith))

  pub test_and_begin-IsSafe :
      (t : StartReadings) (s : Evse F)
      → IsSafeIf b s
      → (b ≡ true → s.error_lockout ≡ false)
      → (b ≡ true → is_connected s.vehicle_state ≡ true)
      → s.state ≡ ready
      → IsSafeIf b (test_and_begin t s)
  unfolding test_and_begin fail_self_test
  test_and_begin-IsSafe t s v u c r =
      let m = (Rcm.self_test t.edge s.rcm).1 in
      ground (
        arith,
        begin_session-IsSafe t s v u c,
        begin_session-IsSafe t (record s { rcm = m; last_rcm_test_time = t.tested }) v u c,
      )

  pub start-IsSafe :
      (t : StartReadings) (s : Evse F) → IsSafeIf b s → IsSafeIf b (start_charging t s)
  unfolding start_charging start_unlocked
  start-IsSafe t s v = ground (
    arith,
    test_and_begin-IsSafe t s v,
    test_and_begin-IsSafe t (record s { error_lockout = false }),
  )
