-- ===== src/Tests/Drivers.antt =====
-- The relay and the pilot.
use evse_sync_charge.Base.{
  ℕ, ◌+◌, ◌≤◌, ◌≡◌, refl, ◌⊎◌, ◌↔◌, add32, true, false, List, [], ◌∷◌, some, arith, All,
}
use evse_sync_charge.Float.Laws.{◌≼◌}
use evse_sync_charge.Float.Milli.{Milli, milli_float, Milli-IsRounded}
use evse_sync_charge.Relay
use evse_sync_charge.Relay.{Relay, switch_delay}
use evse_sync_charge.Relay.Timing.{
  Call, ask_open, ask_close, pass, switches, IsSpacedAfterFirst, switches-spaced, loop-opens,
  loop-closes,
}
use evse_sync_charge.Types.{VehicleState, vehicle_ready, connected}
use evse_sync_charge.Pilot
use evse_sync_charge.Pilot.{Pilot, amps_to_duty}
use evse_sync_charge.Pilot.Duty.{amps_to_duty_bounds, amps_to_duty_low}
use evse_sync_charge.Pilot.Read
use evse_sync_charge.Pilot.Read.{Peaks, no_peaks, scan}
use evse_sync_charge.Pilot.Debounce.{
  debounce_all, HasRun, history, debounce_all-HasRun, debounce_four,
}
use evse_sync_charge.Pilot.Peak.{IsBetween, total, scan-IsBetween}

abbrev open_relay : Relay
open_relay = record { current = false; desired = false; last_switch_time = 0; pin = false }

abbrev calls : List Call
calls =
    ask_close ∷ pass 10 10 ∷ ask_open ∷ pass 20 20 ∷ ask_close ∷ pass 30 30 ∷ pass 3020 3021 ∷ []

calls_switch : switches open_relay calls ≡ (10, true) ∷ (20, false) ∷ (3021, true) ∷ []
unfolding switches
calls_switch = refl

switches-spaced_example : IsSpacedAfterFirst (switches open_relay calls)
switches-spaced_example =
    switches-spaced calls open_relay 10 (omega arith) (omega arith) refl (omega arith)

abbrev closed_relay : Relay
closed_relay = record { current = true; desired = false; last_switch_time = 50; pin = true }

loop-opens_test : (Relay.loop 60 61 closed_relay).pin ≡ false
loop-opens_test = loop-opens 60 61 closed_relay refl refl

abbrev asked_relay : Relay
asked_relay = record { current = false; desired = true; last_switch_time = 50; pin = false }

loop-closes_test : ((Relay.loop (add32 50 2999) 0 asked_relay).pin ≡ true) ↔ (switch_delay ≤ 2999)
loop-closes_test =
    loop-closes 2999 0 asked_relay refl refl refl (omega arith) (omega arith) (omega arith)

abbrev amps_20 : Milli
amps_20 = some 20000

amps_20_duty : amps_to_duty amps_20 ≡ some 33333
unfolding amps_to_duty Pilot.constrain
amps_20_duty = refl

amps_to_duty_bounds_example :
    (some 10000 ≼ amps_to_duty amps_20) × (amps_to_duty amps_20 ≼ some 96000)
amps_to_duty_bounds_example = amps_to_duty_bounds Milli-IsRounded amps_20 refl

abbrev amps_3 : Milli
amps_3 = some 3000

amps_to_duty_low_test : amps_to_duty amps_3 ≡ some 10000
amps_to_duty_low_test = amps_to_duty_low Milli-IsRounded amps_3 refl

unfoldable fresh : Pilot Milli
unfolding Pilot.new
fresh = Pilot.new true

abbrev detections : List VehicleState
detections =
    connected ∷ vehicle_ready ∷ vehicle_ready ∷ vehicle_ready ∷ vehicle_ready ∷ connected ∷ []

detections_settle : (debounce_all detections fresh).last_vehicle_state ≡ vehicle_ready
unfolding debounce_all fresh Read.debounce
detections_settle = refl

debounce_all-HasRun_example :
    let r = debounce_all detections fresh in
    (r.last_vehicle_state ≡ fresh.last_vehicle_state)
    ⊎ HasRun r.last_vehicle_state (history fresh detections)
debounce_all-HasRun_example = debounce_all-HasRun detections fresh

debounce_four_test :
    (debounce_all (connected ∷ connected ∷ connected ∷ connected ∷ []) fresh).last_vehicle_state
    ≡ connected
debounce_four_test = debounce_four connected fresh

abbrev frames : List (List ℕ)
frames = (3 ∷ 9 ∷ []) ∷ (4 ∷ []) ∷ []

frames_peaks : scan frames no_peaks ≡ record { high = 9; low = 3; count = 3 }
unfolding scan
frames_peaks = refl

scan-IsBetween_test :
    let r = scan frames no_peaks in
    All (All (IsBetween r)) frames
    × (r.count ≡ no_peaks.count + total frames)
    × (no_peaks.high ≤ r.high)
    × (r.low ≤ no_peaks.low)
scan-IsBetween_test = scan-IsBetween frames no_peaks
