-- ===== src/Charge/Interleaved.antt =====
-- Starts that the controller's task overtakes, and sequences of commands with such starts.
use evse_sync_charge.Base.{
  ◌≡◌, ◌∙◌, inl, inr, Bool-cases, Bool, true, false, not, ◌&&◌, List, [], ◌∷◌, if◌then◌else◌, arith,
}
use evse_sync_charge.Float.{Float}
use evse_sync_charge.Types.{ChargingSettings, charging, ready}
use evse_sync_charge.Rcm
use evse_sync_charge.Pilot.{min_current}
use evse_sync_charge.Charge.{Evse, is_connected, asks_power}
use evse_sync_charge.Charge.Limit.{apply_current_limit}
use evse_sync_charge.Charge.Control.{
  StartReadings, fail_self_test, begin_session, test_and_begin, start_unlocked, start_charging,
}
use evse_sync_charge.Charge.Session.{IsSafeIf, begin_session-IsSafe}
use evse_sync_charge.Charge.Pass.{loop-IsSafe}
use evse_sync_charge.Charge.Start.{begin_session-state}
use evse_sync_charge.Charge.Overtaken.{
  Meanwhile, interrupt, passed_by, interfere, arm, await_test, await_and_begin, overtaken_unlocked,
  start_overtaken,
}
use evse_sync_charge.Charge.Run.{Command, exec, exec-IsSafe, constructed, constructed-IsSafe}

-- What comes in the wait of a start that is not overtaken.
abbrev pub undisturbed : StartReadings → List Meanwhile
undisturbed t = if t.edge then interrupt ∷ [] else []

-- A whole command, or a start that passes of the controller's task overtake.
pub data Action (F : Type 0) : Type 0 where
  whole : Command F → Action F
  overtaken : List Meanwhile → StartReadings → Action F

module _ {F : Type 0} ⦃fl : Float F⦄ where
  unfoldable pub act : Action F → Evse F → Evse F
  act (whole c) s = exec c s
  act (overtaken es t) s = start_overtaken es t s

  unfoldable pub act_all : List (Action F) → Evse F → Evse F
  act_all [] s = s
  act_all (a ∷ xs) s = act_all xs (act a s)

  await_test-alone :
      (t : StartReadings) (s : Evse F)
      → let p = Rcm.self_test t.edge s.rcm in
        await_test (undisturbed t) s ≡ (p.0, record s { rcm = p.1 })
  unfolding await_test arm interfere Rcm.self_test Rcm.isr
  await_test-alone t s = elim (Bool-cases t.edge) [
    | inl e ↦ elim (Bool-cases s.rcm.created) [ inl c ↦ simp (e, c) | inr c ↦ simp (e, c) ]
    | inr e ↦ elim (Bool-cases s.rcm.created) [ inl c ↦ simp (e, c) | inr c ↦ simp (e, c) ]
  ]

  await-alone :
      (t : StartReadings) (s : Evse F) → await_and_begin (undisturbed t) t s ≡ test_and_begin t s
  unfolding await_and_begin test_and_begin
  await-alone t s = simp (await_test-alone t s)

  -- A start whose wait sees no pass of the controller's task, only the monitor's interrupt or
  -- nothing, does what the start does that takes the outcome of the self-test as a reading.
  pub start_overtaken-undisturbed :
      (t : StartReadings) (s : Evse F) → start_overtaken (undisturbed t) t s ≡ start_charging t s
  unfolding start_overtaken overtaken_unlocked start_charging start_unlocked
  start_overtaken-undisturbed t s =
      ground (arith, await-alone t s, await-alone t (record s { error_lockout = false }))

  interfere-IsSafe :
      {b : Bool} (es : List Meanwhile) (s : Evse F) → IsSafeIf b s → IsSafeIf b (interfere es s)
  unfolding interfere
  interfere-IsSafe [] s v = v
  interfere-IsSafe (interrupt ∷ es) s v = interfere-IsSafe es _ v
  interfere-IsSafe (passed_by t ∷ es) s v = interfere-IsSafe es _ (loop-IsSafe t s v)

  await-IsSafe :
      (es : List Meanwhile) (s : Evse F) → IsSafeIf false s → IsSafeIf false (await_test es s).1
  unfolding await_test arm
  await-IsSafe es s v = ground (arith, interfere-IsSafe {b = false} es (arm s) v)

  fail-IsSafe : (s : Evse F) → IsSafeIf false s → IsSafeIf false (fail_self_test s)
  unfolding fail_self_test
  fail-IsSafe s v = ground arith

  begin-IsSafe :
      (t : StartReadings) (s : Evse F) → IsSafeIf false s → IsSafeIf false (begin_session t s)
  begin-IsSafe t s v = begin_session-IsSafe t s v (λ e. cc) (λ e. cc)

  await_and_begin-IsSafe :
      (es : List Meanwhile) (t : StartReadings) (s : Evse F)
      → IsSafeIf false s
      → IsSafeIf false (await_and_begin es t s)
  unfolding await_and_begin
  await_and_begin-IsSafe es t s v =
      let w = (await_test es s).1 in
      let h = await-IsSafe es s v in
      ground (
        arith,
        fail-IsSafe w h,
        begin-IsSafe t (record w { last_rcm_test_time = t.tested }) h,
        begin-IsSafe t s v,
      )

  overtaken-IsSafe :
      (es : List Meanwhile) (t : StartReadings) (s : Evse F)
      → IsSafeIf false s
      → IsSafeIf false (start_overtaken es t s)
  unfolding start_overtaken overtaken_unlocked
  overtaken-IsSafe es t s v = ground (
    arith,
    await_and_begin-IsSafe es t s v,
    await_and_begin-IsSafe es t (record s { error_lockout = false }),
  )

  act_all-IsSafe :
      (xs : List (Action F)) (s : Evse F) → IsSafeIf false s → IsSafeIf false (act_all xs s)
  unfolding act_all act
  act_all-IsSafe [] s v = v
  act_all-IsSafe (whole c ∷ xs) s v = act_all-IsSafe xs _ (exec-IsSafe c s v)
  act_all-IsSafe (overtaken es t ∷ xs) s v = act_all-IsSafe xs _ (overtaken-IsSafe es t s v)

  module _ (defaults : ChargingSettings F) (allocated : Bool) (xs : List (Action F)) where
    -- After any sequence of commands and of starts that passes of the controller's task overtake,
    -- from power-up, the contactor is asked to close only in a charging session with a vehicle in
    -- state C or D and no current test.
    pub act_all-closed :
        let s = act_all xs (constructed defaults allocated) in
        s.relay.desired ≡ true
        → (s.state ≡ charging) × (asks_power s.vehicle_state ≡ true) × (s.current_test ≡ false)
    act_all-closed h =
        let v = act_all-IsSafe xs _ (constructed-IsSafe defaults allocated) in
        let (c, e) = v.0.closed_charging h in (c, v.1 h, e)

  begin_session-desired :
      (t : StartReadings) (s : Evse F)
      → (asks_power s.vehicle_state
          && not s.current_test
          && not s.paused_at_low_limit
          && fl.le min_current (if s.settings.soft_start then min_current else s.current_limit))
        ≡ true
      → (begin_session t s).relay.desired ≡ true
  unfolding begin_session apply_current_limit
  begin_session-desired t s h = ground arith

  reaches_wait :
      (es : List Meanwhile) (t : StartReadings) (s : Evse F)
      → s.state ≡ ready
      → s.error_lockout ≡ false
      → is_connected s.vehicle_state ≡ true
      → start_overtaken es t s ≡ await_and_begin es t s
  unfolding start_overtaken overtaken_unlocked
  reaches_wait es t s r l v = ground arith

  await-begins :
      (es : List Meanwhile) (t : StartReadings) (s : Evse F)
      → s.rcm_enabled ≡ true
      → s.rcm.created ≡ true
      → let w = interfere es (arm s) in
        w.rcm.given ≡ true
        → await_and_begin es t s
          ≡ begin_session t (record w {
            rcm = record (w.rcm) { given = false; test_pin = false };
            last_rcm_test_time = t.tested;
          })
  unfolding await_and_begin await_test
  await-begins es t s e c g = ground arith

  -- A start from the ready state without a lockout, with the monitor enabled and a vehicle present,
  -- whose wait gets the semaphore: if the vehicle asks for power after the wait, the limit that the
  -- session begins with is at least 6 A, and there is neither a current test nor a pause at a low
  -- limit, the session begins and the contactor is asked to close, with the lockout and the trip
  -- flag as the passes left them in the wait.
  pub start_overtaken-begins :
      (es : List Meanwhile) (t : StartReadings) (s : Evse F)
      → s.state ≡ ready
      → s.error_lockout ≡ false
      → is_connected s.vehicle_state ≡ true
      → s.rcm_enabled ≡ true
      → s.rcm.created ≡ true
      → let w = interfere es (arm s) in
        let r = start_overtaken es t s in
        w.rcm.given ≡ true
        → (asks_power w.vehicle_state
            && not w.current_test
            && not w.paused_at_low_limit
            && fl.le min_current (if w.settings.soft_start then min_current else w.current_limit))
          ≡ true
        → (r.state ≡ charging)
          × (r.vehicle_state ≡ w.vehicle_state)
          × (r.error_lockout ≡ w.error_lockout)
          × (r.rcm_tripped ≡ w.rcm_tripped)
          × (r.relay.desired ≡ true)
  start_overtaken-begins es t s r l v e c g a =
      let w = interfere es (arm s) in
      let q = record w {
        rcm = record (w.rcm) { given = false; test_pin = false };
        last_rcm_test_time = t.tested;
      } in
      let (began, vehicle, lockout, tripped) = begin_session-state t q in
      let closes = begin_session-desired t q a in
      let same : start_overtaken es t s ≡ begin_session t q =
        reaches_wait es t s r l v ∙ await-begins es t s e c g in
      rw same (began, vehicle, lockout, tripped, closes)
