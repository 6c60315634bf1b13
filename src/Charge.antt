-- ===== src/Charge.antt =====
-- EVSE-SyncCharge/EvseCharge.h and EvseCharge.cpp: the charging controller. This file has its state,
-- the constructor, `setup` and the plain accessors; the operations are the children `Limit`,
-- `Control`, `Manage` and `Loop`, and their properties the other children.
-- The pilot, the relay and the global monitor `rcm` that the controller drives are parts of the
-- state. The readings of millis() and of the hardware are arguments, one for each call that the
-- code makes. Logging is left out.
pub mod Limit
pub mod Control
pub mod Manage
pub mod Loop
pub mod Session
pub mod Pass
pub mod Run
pub mod Contactor
pub mod Held
pub mod Unbegun
pub mod Tripped
pub mod Power
pub mod Trip
pub mod Start
pub mod Overtaken
pub mod Interleaved
pub mod LowLimit
pub mod Faults
pub mod Range
use evse_sync_charge.Base.{
  ℕ, ◌-◌, Bool, true, false, not, ◌||◌, List, [], ◌∷◌, sub32, if◌then◌else◌,
}
use evse_sync_charge.Float.{Float}
use evse_sync_charge.Types.{
  ChargeState, ready, VehicleState, not_connected, connected, vehicle_ready, ventilation_required,
  no_power, vehicle_error, ActualCurrent, ChargingSettings,
}
use evse_sync_charge.Relay
use evse_sync_charge.Relay.{Relay}
use evse_sync_charge.Rcm.{Rcm}
use evse_sync_charge.Pilot
use evse_sync_charge.Pilot.{Pilot}

-- A call of one of the two registered event handlers.
pub data Notice : Type 0 where
  state_changed vehicle_state_changed : Notice

pub record Evse (F : Type 0) : Type 0 where
  pub pilot : Pilot F
  pub relay : Relay
  pub rcm : Rcm
  pub state : ChargeState
  pub vehicle_state : VehicleState
  pub settings : ChargingSettings F
  pub current_limit : F
  pub started : ℕ
  pub actual_current : ActualCurrent F
  pub actual_current_updated : ℕ
  pub current_test : Bool
  pub paused_at_low_limit : Bool
  pub user_paused : Bool
  pub paused_since : ℕ
  pub error_lockout : Bool
  pub rcm_enabled : Bool
  pub rcm_tripped : Bool
  pub throttle_alive_timeout : ℕ
  pub last_throttle_alive_time : ℕ
  pub last_throttle_ramp_time : ℕ
  pub last_rcm_test_time : ℕ
  pub last_managed_vehicle_state : VehicleState
  -- Whether the handlers are registered, and the calls made of them, the latest first.
  pub vehicle_state_handler : Bool
  pub state_handler : Bool
  pub notices : List Notice
  -- The function-local static of `loop`.
  pub boot_recovery_checked : Bool

-- The test that the code repeats for states B, C and D.
abbrev pub is_connected : VehicleState → Bool
is_connected connected = true
is_connected vehicle_ready = true
is_connected ventilation_required = true
is_connected _ = false

-- States C and D, in which the vehicle asks for power.
abbrev pub asks_power : VehicleState → Bool
asks_power vehicle_ready = true
asks_power ventilation_required = true
asks_power _ = false

-- VEHICLE_ERROR and VEHICLE_NO_POWER.
abbrev pub is_fault : VehicleState → Bool
is_fault no_power = true
is_fault vehicle_error = true
is_fault _ = false

module _ {F : Type 0} where
  unfoldable pub notify_state : Evse F → Evse F
  notify_state s = if s.state_handler then record s { notices = state_changed ∷ s.notices } else s

  unfoldable pub notify_vehicle : Evse F → Evse F
  notify_vehicle s =
      if s.vehicle_state_handler
      then record s { notices = vehicle_state_changed ∷ s.notices }
      else s

  unfoldable pub preinit_hard : Evse F → Evse F
  unfolding Relay.setup
  preinit_hard s = record s { relay = Relay.setup false s.relay }

  unfoldable pub is_vehicle_connected : Evse F → Bool
  is_vehicle_connected s = is_connected s.vehicle_state

  unfoldable pub get_elapsed_time : ℕ → Evse F → ℕ
  get_elapsed_time now s = sub32 now s.started

  unfoldable pub update_actual_current : ℕ → ActualCurrent F → Evse F → Evse F
  update_actual_current now current s = record s {
    actual_current = current;
    actual_current_updated = now;
  }

  unfoldable pub get_allow_below_6_amp_charging : Evse F → Bool
  get_allow_below_6_amp_charging s = not s.settings.disable_at_low_limit

  unfoldable pub set_low_limit_resume_delay : ℕ → Evse F → Evse F
  set_low_limit_resume_delay ms s = record s {
    settings = record (s.settings) { low_limit_resume_delay_ms = ms };
  }

  unfoldable pub set_throttle_alive_timeout : ℕ → Evse F → Evse F
  set_throttle_alive_timeout seconds s = record s { throttle_alive_timeout = seconds }

  unfoldable pub signal_throttle_alive : ℕ → Evse F → Evse F
  signal_throttle_alive now s = record s { last_throttle_alive_time = now }

  unfoldable pub set_rcm_enabled : Bool → Evse F → Evse F
  set_rcm_enabled enable s = record s { rcm_enabled = enable }

  unfoldable pub on_vehicle_state_change : Bool → Evse F → Evse F
  on_vehicle_state_change handler s = record s { vehicle_state_handler = handler }

  unfoldable pub on_state_change : Bool → Evse F → Evse F
  on_state_change handler s = record s { state_handler = handler }

module _ {F : Type 0} ⦃fl : Float F⦄ where
  -- The constructor and the initialisers of the class, over a given pilot and monitor.
  unfoldable pub new : ChargingSettings F → Pilot F → Rcm → Evse F
  unfolding Relay.new
  new defaults p m = record {
    pilot = p;
    relay = Relay.new;
    rcm = m;
    state = ready;
    vehicle_state = not_connected;
    settings = defaults;
    current_limit = fl.lit 0 0;
    started = 0;
    actual_current = record { l1 = fl.lit 0 0; l2 = fl.lit 0 0; l3 = fl.lit 0 0 };
    actual_current_updated = 0;
    current_test = false;
    paused_at_low_limit = false;
    user_paused = false;
    paused_since = 0;
    error_lockout = true;
    rcm_enabled = true;
    rcm_tripped = false;
    throttle_alive_timeout = 0;
    last_throttle_alive_time = 0;
    last_throttle_ramp_time = 0;
    last_rcm_test_time = 0;
    last_managed_vehicle_state = not_connected;
    vehicle_state_handler = false;
    state_handler = false;
    notices = [];
    boot_recovery_checked = false;
  }

  -- The Booleans are the outcomes of the ADC driver's calls in Pilot::begin.
  unfoldable pub setup : Bool → Bool → Bool → Bool → ℕ → ChargingSettings F → Evse F → Evse F
  unfolding Relay.setup Pilot.begin Pilot.standby
  setup channel handle_made configured begun now settings s = record s {
    relay = Relay.setup false s.relay;
    pilot = Pilot.standby (Pilot.begin channel handle_made configured begun s.pilot);
    settings = settings;
    current_limit = settings.max_current;
    vehicle_state = not_connected;
    state = ready;
    actual_current_updated = 0;
    user_paused = false;
    error_lockout = true;
    last_rcm_test_time = now;
  }
