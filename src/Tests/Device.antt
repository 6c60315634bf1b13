-- ===== src/Tests/Device.antt =====
-- The running firmware: a start of the chip, four passes of the controller's task with a vehicle in
-- state C, and a request that starts the session.
use evse_sync_charge.Base.{ℕ, ◌≡◌, refl, true, false, List, [], ◌∷◌}
use Prim.Native.String.{String}
use evse_sync_charge.Float.Milli.{Milli, milli_float}
use evse_sync_charge.Types.{charging}
use evse_sync_charge.Prefs.{table, lookup}
use evse_sync_charge.Config.{load_config}
use evse_sync_charge.Boot
use evse_sync_charge.Charge.{asks_power, set_throttle_alive_timeout}
use evse_sync_charge.Charge.Run.{constructed}
use evse_sync_charge.Led.{led_off}
use evse_sync_charge.Telnet.Input.{Credentials}
use evse_sync_charge.Web.{check_auth, arg}
use evse_sync_charge.Web.Routes.{cmd_route, serve, serve_all, handle_cmd, command_of}
use evse_sync_charge.Main.{init_hardware, evse_loop_task}
use evse_sync_charge.Main.Setup.{Board, setup}
use evse_sync_charge.Main.Device.{Device, task}
use evse_sync_charge.Main.Running.{
  Call, serves, tasks, make, IsRunning, started, made, running-closed,
}
use evse_sync_charge.Tests.Samples.{settings, pass_at, peak_c, machine}
use evse_sync_charge.Tests.Console.{same}
use evse_sync_charge.Tests.Network.{as_amps, as_int, as_text}
use evse_sync_charge.Tests.Board.{setup_readings}
use evse_sync_charge.Tests.Pages.{Store, readings, asks, site}

-- No name and no password is right at the console.
abbrev nobody : String → String → Credentials
nobody u p = record { is_user = λ (s : List ℕ). false; is_pass = λ (s : List ℕ). false }

abbrev off : Board Milli Store
off = record {
  site = record site { evse = constructed settings true; stored = [] };
  register = 0;
  fallback_ap = false;
}

abbrev on : Device Milli Store
on = record {
  board = setup table setup_readings off;
  feedback = record { until = 0; shown = led_off };
  mqtt_seen = 0;
  ocpp_updated = 0;
}

abbrev calls : List (Call Milli)
calls =
    serves ((cmd_route, (readings, asks "do" "start")) ∷ [])
    ∷ tasks (pass_at 2030 peak_c false) 2030
    ∷ tasks (pass_at 2020 peak_c false) 2020
    ∷ tasks (pass_at 2010 peak_c false) 2010
    ∷ tasks (pass_at 2000 peak_c false) 2000
    ∷ []

-- After the calls, the latest first.
abbrev after : List (Call Milli) → Device Milli Store
after [] = on
after (c ∷ cs) = make same same as_text as_amps as_int table nobody c (after cs)

after-IsRunning :
    (cs : List (Call Milli)) → IsRunning same same as_text as_amps as_int table nobody (after cs)
after-IsRunning [] = started settings true setup_readings off on refl refl
after-IsRunning (c ∷ cs) = made c (after cs) (after-IsRunning cs)

running-closed_example :
    let s = (after calls).board.site.evse in
    (s.state ≡ charging)
    × (asks_power s.vehicle_state ≡ true)
    × (s.error_lockout ≡ false)
    × (s.current_test ≡ false)
unfolding machine make task serve_all setup init_hardware evse_loop_task constructed check_auth
    serve handle_cmd command_of arg load_config lookup Boot.is_boot_count_high
    set_throttle_alive_timeout
running-closed_example =
    running-closed same same as_text as_amps as_int table nobody (after calls)
      (after-IsRunning calls) refl
