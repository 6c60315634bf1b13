-- ===== src/Pilot/Read.antt =====
-- `Pilot::read` and what it calls: the scan of the samples, the conversion to millivolts, the
-- classification, and the debouncing. The 12-bit samples and their calibration are arguments.
use Prim.Native.String.{String}
use evse_sync_charge.Base.{
  ℕ, ◌+◌, ◌==◌, ℤ, pos, at_least, above, Bool, not, ◌&&◌, List, [], ◌∷◌, Option, none, some, leb,
  ltb, if◌then◌else◌,
}
use evse_sync_charge.Float.{Float}
use evse_sync_charge.Types.{
  VehicleState, not_connected, connected, vehicle_ready, ventilation_required, no_power,
  vehicle_error, same_vehicle,
}
use evse_sync_charge.Pilot.{Pilot}

abbrev pub int_max : ℕ
int_max = 2147483647

-- The locals highRaw, lowRaw and counts_.
pub record Peaks : Type 0 where
  pub high : ℕ
  pub low : ℕ
  pub count : ℕ

abbrev pub no_peaks : Peaks
no_peaks = record { high = 0; low = int_max; count = 0 }

unfoldable pub see : ℕ → Peaks → Peaks
see sample k = record {
  high = if ltb k.high sample then sample else k.high;
  low = if ltb sample k.low then sample else k.low;
  count = k.count + 1;
}

-- The inner loop, over the samples of one DMA frame.
unfoldable pub scan_frame : List ℕ → Peaks → Peaks
unfolding see
scan_frame [] k = k
scan_frame (x ∷ xs) k = scan_frame xs (see x k)

-- The outer loop, over the frames that adc_continuous_read delivers before it fails or is empty.
unfoldable pub scan : List (List ℕ) → Peaks → Peaks
unfolding scan_frame
scan [] k = k
scan (frame ∷ frames) k = scan frames (scan_frame frame k)

-- From the highest voltage, in millivolts.
unfoldable pub classify : ℤ → VehicleState
classify high =
    if at_least high 10600
    then not_connected
    else if at_least high 8000
    then connected
    else if at_least high 5000
    then vehicle_ready
    else if at_least high 2000
    then ventilation_required
    else no_power

-- The diode check: while the PWM runs, the low side must swing to -12 V.
unfoldable pub diode_check : Bool → ℤ → VehicleState → VehicleState
diode_check attached low detected =
    if attached && not (same_vehicle detected not_connected)
    then (if above low 1000 then vehicle_error else detected)
    else detected

-- The calibration, where the driver made one.
unfoldable pub calibrate : Option (ℕ → ℤ) → ℕ → ℤ
calibrate none raw = pos raw
calibrate (some to_voltage) raw = to_voltage raw

module _ {F : Type 0} where
  -- A detected state is committed when it repeats often enough.
  unfoldable pub debounce : VehicleState → Pilot F → Pilot F
  debounce detected p =
      let counter =
        if same_vehicle detected p.candidate_state then p.stability_counter + 1 else 0 in
      let candidate = detected in
      record p {
        candidate_state = candidate;
        stability_counter = counter;
        last_vehicle_state =
            if leb 3 counter && not (same_vehicle candidate p.last_vehicle_state)
            then candidate
            else p.last_vehicle_state;
      }

module _ {F : Type 0} ⦃fl : Float F⦄ where
  unfoldable pub convert_mv : ℤ → F
  convert_mv ad_mv = fl.mul (fl.sub (fl.of_int ad_mv) (fl.lit 1200 0)) (fl.lit 69 1)

  unfoldable pub detect : ℤ → ℤ → Pilot F → Pilot F
  unfolding debounce classify diode_check
  detect high low p =
      debounce (diode_check p.pwm_attached low (classify high))
        (record p { high_voltage_mv = high; low_voltage_mv = low })

  unfoldable pub read : Option (ℕ → ℤ) → List (List ℕ) → Pilot F → Pilot F
  unfolding scan detect convert_mv calibrate
  read cali frames p =
      let k = scan frames no_peaks in
      if not p.has_buffer
      then p
      else if not p.has_handle
      then p
      else if k.count == 0
      then p
      else detect (fl.to_int (convert_mv (calibrate cali k.high)))
          (fl.to_int (convert_mv (calibrate cali k.low))) p

unfoldable pub vehicle_state_to_text : VehicleState → String
vehicle_state_to_text not_connected = "A: Standby"
vehicle_state_to_text connected = "B: Vehicle Detected"
vehicle_state_to_text vehicle_ready = "C: Charging"
vehicle_state_to_text ventilation_required = "D: Ventilation Req"
vehicle_state_to_text no_power = "E: No Power"
vehicle_state_to_text vehicle_error = "F: Fault/Error"
