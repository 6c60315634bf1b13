-- ===== src/Tests/Board.antt =====
-- A start of the firmware after requests to the web pages.
use evse_sync_charge.Base.{◌≡◌, refl, true, false, List, [], ◌∷◌}
use evse_sync_charge.Float.Milli.{Milli, milli_float}
use evse_sync_charge.Prefs.{table, table-IsStore}
use evse_sync_charge.Web.{Site, Request}
use evse_sync_charge.Mqtt.Command.{set_failsafe}
use evse_sync_charge.Web.Routes.{WebReadings, Route, save_config_route}
use evse_sync_charge.Web.Stored
use evse_sync_charge.Main.Setup.{Board, SetupReadings, settings_of, setup}
use evse_sync_charge.Main.Restart.{restart-applies}
use evse_sync_charge.Main.Persist.{Edit, asked, told, all_keep, edit_all, restart-persists}
use evse_sync_charge.Tests.Console.{same}
use evse_sync_charge.Tests.Network.{as_amps, as_int, callback_readings}
use evse_sync_charge.Tests.Pages.{Store, readings, asks, site, site-IsInSync, serve_here}

abbrev pub setup_readings : SetupReadings
setup_readings = record {
  wifi = true;
  telnet_enabled = false;
  telnet_port = 23;
  channel = true;
  handle_made = true;
  configured = true;
  begun = true;
  now = 1000;
  semaphore = true;
  edge = true;
}

abbrev requests : List (Route × (WebReadings × Request))
requests = (save_config_route, (readings, asks "maxcur" "16")) ∷ []

-- The board at the next start: the parts are as they happen to be, the store is the one that is left.
abbrev board : Board Milli Store
board = record {
  site = record site { stored = (serve_here requests site).stored };
  register = 0;
  fallback_ap = false;
}

restart-applies_test :
    let c = (serve_here requests site).config in
    let r = (setup table setup_readings board).site in
    (r.config ≡ c)
    × (r.evse.settings ≡ settings_of c)
    × (r.evse.current_limit ≡ c.max_current)
    × (r.evse.rcm_enabled ≡ c.rcm_enabled)
    × (r.evse.throttle_alive_timeout ≡ c.solar_stop_timeout)
unfolding Stored.all_keep
restart-applies_test =
    restart-applies table same as_amps as_int table-IsStore requests site setup_readings board refl
      site-IsInSync refl

-- A new maximum from the page, and a message that enables the failsafe.
abbrev edits : List Edit
edits =
    asked save_config_route readings (asks "maxcur" "16")
    ∷ told (callback_readings, (set_failsafe, "1"))
    ∷ []

abbrev edited : Site Milli Store
edited = edit_all same same as_amps as_int table edits site

abbrev edited_board : Board Milli Store
edited_board = record {
  site = record site { stored = edited.stored };
  register = 0;
  fallback_ap = false;
}

restart-persists_example :
    let c = edited.config in
    let r = (setup table setup_readings edited_board).site in
    (r.config ≡ c)
    × (r.evse.settings ≡ settings_of c)
    × (r.evse.current_limit ≡ c.max_current)
    × (r.evse.rcm_enabled ≡ c.rcm_enabled)
    × (r.evse.throttle_alive_timeout ≡ c.solar_stop_timeout)
unfolding all_keep
restart-persists_example =
    restart-persists same same as_amps as_int table table-IsStore edits site setup_readings
      edited_board refl site-IsInSync refl
