-- ===== src/Tests/Sketch.antt =====
-- The sketch.
use evse_sync_charge.Main.Name.{device_name, hex_byte}
use evse_sync_charge.Base.{
  ℕ, ◌+◌, ◌*◌, ◌^◌, ◌≤◌, ◌<◌, Bool, ltb, ◌≡◌, ◌↔◌, refl, true, false, not, ◌&&◌, ◌||◌, List, [],
  ◌∷◌, arith,
}
use evse_sync_charge.Float.Milli.{Milli, milli_float}
use evse_sync_charge.Types.{charging, ready, not_connected}
use evse_sync_charge.Boot
use evse_sync_charge.Boot.{is_boot_count_high}
use evse_sync_charge.Rfid.Scan
use evse_sync_charge.Charge.{asks_power, is_fault}
use evse_sync_charge.Charge.Run.{constructed}
use evse_sync_charge.Led.{led_ready, led_off, led_error, led_charging}
use evse_sync_charge.Main.{
  Init, Feedback, update_led_state, init_hardware, mqtt_failsafe, evse_loop_task,
}
use evse_sync_charge.Main.Gate.{init_hardware-lockout, failsafe_passes, failsafe_stops}
use evse_sync_charge.Main.Wifi.{wait_wifi, wait_wifi-ends}
use evse_sync_charge.Main.Ota.{leaves_contactor, all_leave_contactor, handle_all, ota-pin}
use evse_sync_charge.Main.Led.{led_lem}
use evse_sync_charge.Main.Reach.{
  Firmware, Input, IsReachable, initialised, called, task, scan, failsafe, ota_start, handle,
  reachable-closed,
}
use evse_sync_charge.Tests.Console.{same, reader}
use evse_sync_charge.Tests.Console
use evse_sync_charge.Tests.Samples.{settings, start_readings, pass_at, peak_c, session, machine}
use evse_sync_charge.Tests.Network.{as_text, as_amps, as_int, ocpp, mqtt}

abbrev init : Init Milli
init = record {
  channel = true;
  handle_made = true;
  configured = true;
  begun = true;
  now = 1000;
  settings = settings;
  rcm_enabled = true;
  semaphore = true;
  edge = true;
  register = Boot.with_magic 1;
}

init_hardware-lockout_example :
    let r = init_hardware init (constructed settings true) in
    (r.state ≡ ready)
    × (r.error_lockout ≡ (
        is_boot_count_high init.register
        || (init.rcm_enabled && not (init.semaphore && init.edge))))
init_hardware-lockout_example = init_hardware-lockout init (constructed settings true)

failsafe_stops_example :
    let c = failsafe_passes true true 600 (2000 ∷ 300000 ∷ []) (1000, session) in
    (mqtt_failsafe true false true 600 700000 c).1.state ≡ ready
failsafe_stops_example =
    failsafe_stops true 600 (2000 ∷ 300000 ∷ []) 700000 1000 session (omega arith) (omega arith)

abbrev feedback : Feedback
feedback = record { until = 0; shown = led_off }

led_lem_test :
    let shown = update_led_state 5000 feedback (Boot.with_magic 1) false session in
    ((shown ≡ led_error) ↔ (is_fault session.vehicle_state ≡ true))
    × (shown ≡ led_charging
        → (session.state ≡ charging)
          × (is_boot_count_high (Boot.with_magic 1) ≡ false)
          × (is_fault session.vehicle_state ≡ false))
    × (shown ≡ led_ready → (session.state ≡ ready) × (session.vehicle_state ≡ not_connected))
led_lem_test = led_lem 5000 (Boot.with_magic 1) feedback false session (omega arith)

-- The firmware after its initialisation, four passes with a vehicle in state C, and the scan of an
-- allowed card.
abbrev initial : Firmware Milli
initial = record {
  evse = init_hardware init (constructed settings true);
  mqtt = mqtt;
  ocpp = ocpp;
  rfid = reader;
  feedback = feedback;
  register = Boot.with_magic 1;
  mqtt_seen = 0;
  ocpp_updated = 0;
  ota_updating = false;
}

abbrev step : Input Milli → Firmware Milli → Firmware Milli
step = handle same same as_text as_amps as_int

abbrev calls : List (Input Milli)
calls =
    scan Console.scan start_readings 5100
    ∷ task (pass_at 2030 peak_c false)
    ∷ task (pass_at 2020 peak_c false)
    ∷ task (pass_at 2010 peak_c false)
    ∷ task (pass_at 2000 peak_c false)
    ∷ []

-- The last call stands first.
abbrev after : List (Input Milli) → Firmware Milli
after [] = initial
after (n ∷ ns) = step n (after ns)

after-IsReachable :
    (ns : List (Input Milli)) → IsReachable same same as_text as_amps as_int (after ns)
after-IsReachable [] = initialised settings true init initial refl
after-IsReachable (n ∷ ns) = called n (after ns) (after-IsReachable ns)

reachable-closed_test :
    let f = after calls in
    (f.evse.state ≡ charging)
    × (asks_power f.evse.vehicle_state ≡ true)
    × (f.evse.error_lockout ≡ false)
    × (f.evse.current_test ≡ false)
unfolding machine handle Scan.loop evse_loop_task init_hardware is_boot_count_high constructed
reachable-closed_test =
    reachable-closed same same as_text as_amps as_int (after calls) (after-IsReachable calls) refl

-- A session whose contactor is closed when an OTA update begins.
abbrev closed : Firmware Milli
closed = record initial {
  evse = record session {
    relay = record { current = true; desired = true; last_switch_time = 1000; pin = true };
  };
}

abbrev later : List (Input Milli)
later = task (pass_at 2010 peak_c false) ∷ failsafe true 900000 ∷ []

ota-pin_example :
    let g = step ota_start closed in
    (g.evse.state ≡ ready)
    × (g.evse.relay.desired ≡ false)
    × ((handle_all same same as_text as_amps as_int later g).evse.relay.pin ≡ closed.evse.relay.pin)
unfolding all_leave_contactor leaves_contactor
ota-pin_example = ota-pin same same as_text as_amps as_int later closed refl

-- WiFi connects after the third try.
abbrev third_try : ℕ → Bool
third_try k = ltb 2 k

wait_wifi-ends_example :
    let r = wait_wifi (361 + 5) third_try 0 in
    (r ≤ 360)
    × ((k : ℕ) → k < r → third_try k ≡ false)
    × (r < 360 → third_try r ≡ true)
    × (r ≡ wait_wifi 361 third_try 0)
wait_wifi-ends_example = wait_wifi-ends 5 third_try

-- EVSE-C3B2A1.
device_name_test :
    device_name (0xA1B2C3 * 2 ^ 24 + 7) ≡ 69 ∷ 86 ∷ 83 ∷ 69 ∷ 45 ∷ 67 ∷ 51 ∷ 66 ∷ 50 ∷ 65 ∷ 49 ∷ []
unfolding device_name hex_byte
device_name_test = refl
