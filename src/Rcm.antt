-- ===== src/Rcm.antt =====
-- EVSE-SyncCharge/Rcm.h and rcm.cpp: the residual current monitor. The binary semaphore that the
-- interrupt gives is two flags: whether it was created, and whether it is given.
use evse_sync_charge.Base.{Bool, true, false, if◌then◌else◌}

pub record Rcm : Type 0 where
  pub created : Bool
  pub given : Bool
  -- The level of PIN_RCM_TEST.
  pub test_pin : Bool

unfoldable pub new : Rcm
new = record { created = false; given = false; test_pin = false }

-- `succeeded` is whether xSemaphoreCreateBinary() gave a semaphore.
unfoldable pub begin : Bool → Rcm → Rcm
begin succeeded m =
    if succeeded
    then record m { created = true; given = false; test_pin = false }
    else record m { created = false; given = false }

-- The interrupt on a rising edge of PIN_RCM_IN.
unfoldable pub isr : Rcm → Rcm
isr m = if m.created then record m { given = true } else m

-- `edge` is whether the interrupt gives the semaphore within the 500 ms after the test signal rises.
-- The semaphore is cleared before, taken by the wait, and the test signal is low again at the end.
unfoldable pub self_test : Bool → Rcm → Bool × Rcm
self_test edge m =
    if m.created then (edge, record m { given = false; test_pin = false }) else (false, m)

-- `level` is what digitalRead(PIN_RCM_IN) returns.
unfoldable pub is_triggered : Bool → Rcm → Bool × Rcm
is_triggered level m =
    if m.created
    then (if m.given then (level, record m { given = false }) else (false, m))
    else (false, m)
