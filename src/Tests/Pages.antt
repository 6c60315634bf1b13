-- ===== src/Tests/Pages.antt =====
-- The web pages, and a start of the firmware after them.
use Prim.Native.String.{String}
use text.Mathlib.Text.{◌==◌ as str_eq}
use evse_sync_charge.Base.{◌≡◌, refl, true, false, List, [], ◌∷◌, none, some, arith, if◌then◌else◌}
use evse_sync_charge.Float.Milli.{Milli, milli_float, Milli-IsRounded}
use evse_sync_charge.Float.Laws.{◌≼◌}
use evse_sync_charge.Types.{ready}
use evse_sync_charge.Prefs.{Value, table, table-IsStore}
use evse_sync_charge.Config
use evse_sync_charge.Config.{AppConfig, save_config, load_config}
use evse_sync_charge.Config.Stored.{load_config-save_config}
use evse_sync_charge.Pilot.{min_current, max_current}
use evse_sync_charge.Charge.Run.{start, run, constructed}
use evse_sync_charge.Led
use evse_sync_charge.Web.{Site, Request, has_arg, check_auth, restarts}
use evse_sync_charge.Web.Save.{handle_save_config, reboot_required}
use evse_sync_charge.Web.Routes.{
  WebReadings, Route, save_config_route, cmd_route, factory_reset_route, do_update_route,
  update_upload_route, file_start, handle_evse_reset, serve, serve_all,
}
use evse_sync_charge.Web.Access.{none_admitted, needs_login, serve_all_denied, anyone_restarts}
use evse_sync_charge.Web.Commands.{commands, serve-run}
use evse_sync_charge.Charge.Unbegun.{leaves_monitor, all_leave_monitor}
use evse_sync_charge.Web.Stored.{IsInSync, factory_reset-keeps}
use evse_sync_charge.Web.Settings.{handle_save_config-max, handle_save_config-settings}
use evse_sync_charge.Web.Reset.{reset-stuck}
use evse_sync_charge.Web.Status.{handle_status, handle_status-run}
use evse_sync_charge.Web.Refresh.{Dashboard, handle_root}
use evse_sync_charge.Tests.Console.{same, reader, client}
use evse_sync_charge.Tests.Samples
use evse_sync_charge.Tests.Samples.{amps, settings, start_readings, session}
use evse_sync_charge.Tests.Network.{as_amps, as_int, ocpp, mqtt}

abbrev pub Store : Type 0
Store = List (String × Value Milli)

abbrev pub readings : WebReadings
readings = record {
  start = start_readings;
  now = 7000;
  written = true;
  channel = true;
  handle_made = true;
  configured = true;
  begun = true;
  update_error = false;
}

-- A request with one argument, and the same from a stranger.
abbrev pub asks : String → String → Request
asks k v = record {
  argument = λ (j : String). if str_eq j k then some v else none;
  authenticate = λ (u p : String). true;
}

abbrev stranger : String → String → Request
stranger k v = record {
  argument = λ (j : String). if str_eq j k then some v else none;
  authenticate = λ (u p : String). false;
}

abbrev config : AppConfig Milli
config = Config.new

abbrev pub site : Site Milli Store
site = record {
  evse = session;
  mqtt = record mqtt {
    config_failsafe = (config.mqtt_failsafe_enabled, config.mqtt_failsafe_timeout);
    config_rcm = config.rcm_enabled;
  };
  ocpp = ocpp;
  rfid = reader;
  telnet = client;
  led = Led.new;
  config = config;
  stored = save_config table config [];
  stored_led = [];
  ap_mode = false;
  reboot_pending = false;
  reboot_timestamp = 0;
  ota_updating = false;
}

pub site-IsInSync : IsInSync table site
site-IsInSync = record {
  stored_config = load_config-save_config table table-IsStore config [];
  failsafe_config = refl;
  rcm_config = refl;
}

abbrev pub serve_here : List (Route × (WebReadings × Request)) → Site Milli Store → Site Milli Store
serve_here = serve_all same as_amps as_int table

serve_all_denied_example :
    serve_here
      ((cmd_route, (readings, stranger "do" "start"))
        ∷ (save_config_route, (readings, stranger "rcmen" "0"))
        ∷ [])
      site
    ≡ site
unfolding none_admitted needs_login check_auth
serve_all_denied_example =
    serve_all_denied same as_amps as_int table
      ((cmd_route, (readings, stranger "do" "start"))
        ∷ (save_config_route, (readings, stranger "rcmen" "0"))
        ∷ [])
      site refl

anyone_restarts_example :
    let q = stranger "" "" in
    let started =
      serve same as_amps as_int table (update_upload_route file_start) readings q site in
    (started.evse.state ≡ ready)
    × (started.ota_updating ≡ true)
    × (restarts 9000 (serve same as_amps as_int table do_update_route readings q started) ≡ true)
anyone_restarts_example =
    anyone_restarts same as_amps as_int table readings readings (stranger "" "") (stranger "" "")
      9000 site refl (omega arith) (omega arith)

serve-run_test :
    (serve same as_amps as_int table cmd_route readings (asks "do" "stop") site).evse
    ≡ run (commands same as_amps as_int table cmd_route readings (asks "do" "stop") site) site.evse
serve-run_test = serve-run same as_amps as_int table cmd_route readings (asks "do" "stop") site

factory_reset-keeps_test :
    let r = serve same as_amps as_int table factory_reset_route readings (asks "" "") site in
    (load_config table r.stored ≡ config)
    × (r.evse.state ≡ ready)
    × (r.rfid ≡ site.rfid)
    × (r.led ≡ site.led)
    × (r.stored_led ≡ site.stored_led)
    × (r.telnet ≡ site.telnet)
    × (r.config ≡ site.config)
    × (r.reboot_pending ≡ true)
unfolding check_auth
factory_reset-keeps_test =
    factory_reset-keeps same as_amps as_int table table-IsStore readings (asks "" "") site refl

handle_save_config-settings_example :
    let r = handle_save_config as_amps as_int table 7000 (asks "maxcur" "16") site in
    (r.evse.settings ≡ site.evse.settings)
    × (r.evse.current_limit ≡ site.evse.current_limit)
    × (r.evse.state ≡ site.evse.state)
    × (r.reboot_pending ≡ site.reboot_pending)
unfolding reboot_required has_arg
handle_save_config-settings_example =
    handle_save_config-settings as_amps as_int table 7000 (asks "maxcur" "16") site refl refl

handle_save_config-max_test :
    let r =
      (handle_save_config as_amps as_int table 7000 (asks "maxcur" "16") site).config.max_current in
    (min_current ≼ r) × (r ≼ max_current)
unfolding Config.new
handle_save_config-max_test =
    handle_save_config-max as_amps as_int table Milli-IsRounded 7000 (asks "maxcur" "16") site refl
      refl refl

-- The monitor was disabled at the start and not begun.
abbrev unbegun : Site Milli Store
unbegun = record site {
  evse = record session {
    rcm_enabled = false;
    rcm = record { created = false; given = false; test_pin = false };
  };
}

reset-stuck_example :
    let reset = handle_evse_reset table readings (asks "" "") unbegun in
    (run (start start_readings ∷ []) reset.evse).state ≡ ready
unfolding check_auth all_leave_monitor leaves_monitor
reset-stuck_example =
    reset-stuck table readings (asks "" "") unbegun (start start_readings ∷ []) refl refl refl

handle_status-run_test :
    let s = run Samples.commands (constructed settings true) in
    let shown = handle_status 9000 s in
    (shown.acrel ≡ false → s.relay.desired ≡ false)
    × (shown.pwm ≡ none → s.relay.desired ≡ false)
    × (shown.lock ≡ true → (shown.pwm ≡ none) × (shown.acrel ≡ false))
handle_status-run_test = handle_status-run settings true Samples.commands 9000

-- The page as it was before the commands.
abbrev opened : Dashboard Milli
opened = handle_root 1000 (constructed settings true)
