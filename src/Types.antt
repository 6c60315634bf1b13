-- ===== src/Types.antt =====
-- EVSE-SyncCharge/EvseTypes.h: the types that the components share.
use evse_sync_charge.Base.{ℕ, Bool, true, false}

-- `STATE_COUNT`, which no variable of the controller ever holds, is left out.
pub data ChargeState : Type 0 where
  ready charging : ChargeState

-- `VEHICLE_STATE_COUNT`, which no variable of the controller ever holds, is left out.
pub data VehicleState : Type 0 where
  not_connected connected vehicle_ready ventilation_required no_power vehicle_error : VehicleState

abbrev pub is_charging : ChargeState → Bool
is_charging charging = true
is_charging ready = false

-- `==` on VEHICLE_STATE_T.
abbrev pub same_vehicle : VehicleState → VehicleState → Bool
same_vehicle not_connected not_connected = true
same_vehicle connected connected = true
same_vehicle vehicle_ready vehicle_ready = true
same_vehicle ventilation_required ventilation_required = true
same_vehicle no_power no_power = true
same_vehicle vehicle_error vehicle_error = true
same_vehicle _ _ = false

-- Measured currents of the three phases.
pub record ActualCurrent (F : Type 0) : Type 0 where
  pub l1 : F
  pub l2 : F
  pub l3 : F

pub record ChargingSettings (F : Type 0) : Type 0 where
  pub max_current : F
  pub ac_relais_open_at_pause : Bool
  pub disable_at_low_limit : Bool
  pub soft_start : Bool
  pub low_limit_resume_delay_ms : ℕ
