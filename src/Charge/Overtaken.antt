-- ===== src/Charge/Overtaken.antt =====
-- `startCharging` as the task that calls it sees it. The pre-charge self-test waits up to 500 ms on
-- the monitor's semaphore, and the controller's own task, of a higher priority, goes on with its
-- passes of `loop` in the meantime. The wait is an explicit list of what happens in it.
use evse_sync_charge.Base.{Bool, true, false, not, ◌&&◌, List, [], ◌∷◌, if◌then◌else◌}
use evse_sync_charge.Float.{Float}
use evse_sync_charge.Types.{is_charging}
use evse_sync_charge.Rcm
use evse_sync_charge.Charge.{Evse, is_connected}
use evse_sync_charge.Charge.Control.{StartReadings, fail_self_test, begin_session}
use evse_sync_charge.Charge.Loop.{LoopReadings, loop}

-- An interrupt of the monitor, or a whole pass of the controller's task.
pub data Meanwhile : Type 0 where
  interrupt : Meanwhile
  passed_by : LoopReadings → Meanwhile

module _ {F : Type 0} ⦃fl : Float F⦄ where
  unfoldable pub interfere : List Meanwhile → Evse F → Evse F
  interfere [] s = s
  interfere (interrupt ∷ es) s = interfere es (record s { rcm = Rcm.isr s.rcm })
  interfere (passed_by t ∷ es) s = interfere es (loop t s)

  -- Rcm::selfTest up to the wait: the semaphore is cleared and the test signal is high.
  unfoldable pub arm : Evse F → Evse F
  arm s = record s { rcm = record (s.rcm) { given = false; test_pin = true } }

  -- The wait: it succeeds if the semaphore is given when the waiting task runs again, and takes it.
  -- The test signal is low at the end either way.
  unfoldable pub await_test : List Meanwhile → Evse F → Bool × Evse F
  unfolding arm
  await_test es s =
      if s.rcm.created
      then (let waited = interfere es (arm s) in
          (
            waited.rcm.given,
            record waited { rcm = record (waited.rcm) { given = false; test_pin = false } },
          ))
      else (false, s)

  -- What follows the test of the vehicle's state. `t.edge` is not read: the wait decides.
  unfoldable pub await_and_begin : List Meanwhile → StartReadings → Evse F → Evse F
  await_and_begin es t s =
      if s.rcm_enabled
      then (let (passed, s') = await_test es s in
          if not passed
          then fail_self_test s'
          else begin_session t (record s' { last_rcm_test_time = t.tested }))
      else begin_session t s

  unfoldable pub overtaken_unlocked : List Meanwhile → StartReadings → Evse F → Evse F
  overtaken_unlocked es t s =
      if is_charging s.state
      then s
      else if not (is_connected s.vehicle_state)
      then s
      else await_and_begin es t s

  unfoldable pub start_overtaken : List Meanwhile → StartReadings → Evse F → Evse F
  start_overtaken es t s =
      if s.error_lockout
      then (if is_connected s.vehicle_state && not s.rcm_tripped
          then overtaken_unlocked es t (record s { error_lockout = false })
          else s)
      else overtaken_unlocked es t s
