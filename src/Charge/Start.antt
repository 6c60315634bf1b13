-- ===== src/Charge/Start.antt =====
-- When a start command begins a charging session, and what the other commands do.
use evse_sync_charge.Base.{◌≡◌, ◌⊎◌, Bool, true, false, not, ◌&&◌, ◌||◌, if◌then◌else◌, arith}
use evse_sync_charge.Float.{Float}
use evse_sync_charge.Types.{charging, ready}
use evse_sync_charge.Rcm
use evse_sync_charge.Charge.{Evse, is_connected}
use evse_sync_charge.Charge.Control.{
  StartReadings, fail_self_test, begin_session, test_and_begin, start_unlocked, start_charging,
}
use evse_sync_charge.Charge.Power.{apply-frame}

-- What a start needs: a vehicle in state B, C or D; no lockout, or one without a residual current
-- trip; and, if the monitor is enabled, a self-test that passes.
abbrev pub may_start : {F : Type 0} → StartReadings → Evse F → Bool
may_start t s =
    is_connected s.vehicle_state
    && (not s.error_lockout || not s.rcm_tripped)
    && (not s.rcm_enabled || (s.rcm.created && t.edge))

module _ {F : Type 0} ⦃fl : Float F⦄ where
  pub begin_session-state :
      (t : StartReadings) (s : Evse F)
      → let r = begin_session t s in
        (r.state ≡ charging)
        × (r.vehicle_state ≡ s.vehicle_state)
        × (r.error_lockout ≡ s.error_lockout)
        × (r.rcm_tripped ≡ s.rcm_tripped)
  unfolding begin_session
  begin_session-state t s = grind (arith, apply-frame)

  test_and_begin-state :
      (t : StartReadings) (s : Evse F)
      → s.state ≡ ready
      → (test_and_begin t s).state
        ≡ (if not s.rcm_enabled || (s.rcm.created && t.edge) then charging else ready)
  unfolding test_and_begin fail_self_test
  test_and_begin-state t s r = grind (arith, begin_session-state)

  -- From the ready state a start command leads to the charging state exactly if the vehicle is in
  -- state B, C or D, no lockout is in force or no residual current trip is flagged, and the monitor
  -- is disabled or its self-test passes. Otherwise the state stays ready.
  pub start-state :
      (t : StartReadings) (s : Evse F)
      → s.state ≡ ready
      → (start_charging t s).state ≡ (if may_start t s then charging else ready)
  unfolding start_charging start_unlocked
  start-state t s r = ground (
    arith,
    test_and_begin-state t s r,
    test_and_begin-state t (record s { error_lockout = false }) r,
  )

  -- Under a lockout with a residual current trip, or without a vehicle in state B, C or D, a start
  -- command changes nothing at all.
  pub start_refused :
      (t : StartReadings) (s : Evse F)
      → ((s.error_lockout ≡ true) × (s.rcm_tripped ≡ true)) ⊎ (is_connected s.vehicle_state ≡ false)
      → start_charging t s ≡ s
  unfolding start_charging start_unlocked
  start_refused t s h = ground arith

  -- A start command with a vehicle present whose pre-charge self-test fails stays in the ready state,
  -- sets the trip flag and the lockout, asks for an open contactor and leaves the pilot alone.
  pub start_fails :
      (t : StartReadings) (s : Evse F)
      → s.state ≡ ready
      → is_connected s.vehicle_state ≡ true
      → s.rcm_enabled ≡ true
      → (s.rcm.created && t.edge) ≡ false
      → (s.error_lockout && s.rcm_tripped) ≡ false
      → let r = start_charging t s in
        (r.state ≡ ready)
        × (r.rcm_tripped ≡ true)
        × (r.error_lockout ≡ true)
        × (r.relay.desired ≡ false)
        × (r.pilot ≡ s.pilot)
  unfolding start_charging start_unlocked test_and_begin fail_self_test
  start_fails t s r v e f l = ground arith

  -- A start command overrides any lockout, that of a boot loop included, if a vehicle is present, no
  -- trip is flagged and the self-test passes: the session begins and the lockout is off.
  pub start_overrides :
      (t : StartReadings) (s : Evse F)
      → s.state ≡ ready
      → s.error_lockout ≡ true
      → may_start t s ≡ true
      → ((start_charging t s).state ≡ charging) × ((start_charging t s).error_lockout ≡ false)
  unfolding start_charging start_unlocked test_and_begin
  start_overrides t s r l m =
      let unlocked = record s { error_lockout = false } in
      ground (
        arith,
        begin_session-state t unlocked,
        begin_session-state t (record unlocked {
          rcm = (Rcm.self_test t.edge s.rcm).1;
          last_rcm_test_time = t.tested;
        }),
      )
