-- ===== src/Pilot.antt =====
-- EVSE-SyncCharge/Pilot.h and Pilot.cpp: the control pilot driver, its state and its output.
-- The sampling of the input is the child `Read`. Logging is left out.
pub mod Read
pub mod Duty
pub mod Debounce
pub mod Peak
use evse_sync_charge.Base.{ℕ, ℤ, pos, Bool, true, false, not, ◌&&◌, if◌then◌else◌}
use evse_sync_charge.Float.{Float}
use evse_sync_charge.Types.{VehicleState, not_connected, vehicle_error}

pub record Pilot (F : Type 0) : Type 0 where
  pub high_voltage_mv : ℤ
  pub low_voltage_mv : ℤ
  pub current_duty_percent : F
  pub pwm_attached : Bool
  pub last_vehicle_state : VehicleState
  -- The function-local statics of `read`.
  pub candidate_state : VehicleState
  pub stability_counter : ℕ
  -- Whether _dma_buffer and _continuous_handle are set.
  pub has_buffer : Bool
  pub has_handle : Bool
  -- The static level of PIN_PILOT_PWM_OUT, and the last value given to ledcWrite.
  pub out_high : Bool
  pub duty_counts : ℕ

module _ {F : Type 0} ⦃fl : Float F⦄ where
  abbrev pub min_current : F
  min_current = fl.lit 6 0

  abbrev pub max_current : F
  max_current = fl.lit 80 0

  abbrev pub low_range_max_amps : F
  low_range_max_amps = fl.lit 51 0

  abbrev pub low_range_max_duty : F
  low_range_max_duty = fl.lit 85 0

  abbrev pub low_range_factor : F
  low_range_factor = fl.lit 6 1

  abbrev pub high_range_factor : F
  high_range_factor = fl.lit 25 1

  abbrev pub high_range_offset : F
  high_range_offset = fl.lit 64 0

  -- The constructor: `allocated` is whether the buffer's allocation succeeded.
  unfoldable pub new : Bool → Pilot F
  new allocated = record {
    high_voltage_mv = pos 0;
    low_voltage_mv = pos 0;
    current_duty_percent = fl.lit 0 0;
    pwm_attached = false;
    last_vehicle_state = not_connected;
    candidate_state = vehicle_error;
    stability_counter = 0;
    has_buffer = allocated;
    has_handle = false;
    out_high = false;
    duty_counts = 0;
  }

  -- Arduino's `constrain` to the range of the pilot.
  unfoldable pub constrain : F → F → F → F
  constrain amt low high = if fl.lt amt low then low else if fl.lt high amt then high else amt

  unfoldable pub amps_to_duty : F → F
  amps_to_duty amps =
      let amps' = constrain amps min_current max_current in
      if fl.le amps' low_range_max_amps
      then fl.div amps' low_range_factor
      else fl.add (fl.div amps' high_range_factor) high_range_offset

  unfoldable pub duty_to_amps : F → F
  duty_to_amps duty =
      if fl.le duty low_range_max_duty
      then fl.mul duty low_range_factor
      else fl.mul (fl.sub duty high_range_offset) high_range_factor

  -- PILOT_PWM_MAX_DUTY is (1 << 12) - 1.
  unfoldable pub counts_of : F → ℕ
  counts_of duty = fl.round (fl.mul (fl.div duty (fl.lit 100 0)) (fl.lit 4095 0))

  -- `channel` is whether the pin is an ADC channel, and the others whether the driver's calls
  -- succeeded. The handle of a failed configuration or start is dropped.
  unfoldable pub begin : Bool → Bool → Bool → Bool → Pilot F → Pilot F
  begin channel handle_made configured started p =
      if not channel
      then p
      else if not handle_made
      then p
      else record p { has_handle = configured && started }

  unfoldable pub standby : Pilot F → Pilot F
  standby p = record p { out_high = true; pwm_attached = false }

  unfoldable pub disable : Pilot F → Pilot F
  unfolding standby
  disable p = standby p

  unfoldable pub stop : Pilot F → Pilot F
  unfolding standby
  stop p = record (standby p) { has_handle = false }

  unfoldable pub current_limit : F → Pilot F → Pilot F
  unfolding amps_to_duty counts_of
  current_limit amps p =
      let duty = amps_to_duty amps in
      if p.pwm_attached && fl.lt (fl.fabs (fl.sub p.current_duty_percent duty)) (fl.lit 5 2)
      then p
      else record p {
        current_duty_percent = duty;
        pwm_attached = true;
        duty_counts = counts_of duty;
      }

  unfoldable pub get_pwm_duty : Pilot F → F
  get_pwm_duty p = p.current_duty_percent

  unfoldable pub get_voltage : Pilot F → F
  get_voltage p = fl.div (fl.of_int p.high_voltage_mv) (fl.lit 1000 0)
