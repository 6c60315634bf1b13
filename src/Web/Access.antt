-- ===== src/Web/Access.antt =====
-- Which requests need the credentials.
use evse_sync_charge.Base.{
  ℕ, ℤ, ◌+◌, ◌≡◌, ◌<◌, refl, Bool, true, false, not, ◌&&◌, List, [], ◌∷◌, arith,
}
use Prim.Native.String.{String}
use evse_sync_charge.Float.{Float}
use evse_sync_charge.Types.{ready}
use evse_sync_charge.Prefs.{Preferences}
use evse_sync_charge.Charge.Contactor.{and_parts}
use evse_sync_charge.Charge.Control.{stop_charging}
use evse_sync_charge.Web.{Site, Request, check_auth, request_reboot, restarts}
use evse_sync_charge.Web.Save.{handle_save_config}
use evse_sync_charge.Web.Routes.{
  file_start, WebReadings, Route, save_config_route, cmd_route, test_cmd_route, factory_reset_route,
  wifi_reset_route, evse_reset_route, reboot_route, do_update_route, rfid_save_route,
  rfid_add_route, rfid_toggle_route, rfid_delete_route, rfid_learn_route, update_upload_route,
  page_route, handle_cmd, handle_test_cmd, handle_factory_reset, handle_wifi_reset,
  handle_evse_reset, handle_reboot, handle_do_update, handle_update_upload, rfid_save, rfid_learn,
  rfid_add, rfid_toggle, rfid_delete, serve, serve_all,
}

-- The access point's mode opens the form, and the two routes of the updater are open in any mode.
unfoldable pub needs_login : Bool → Route → Bool
needs_login ap_mode save_config_route = not ap_mode
needs_login ap_mode do_update_route = false
needs_login ap_mode (update_upload_route u) = false
needs_login ap_mode _ = true

-- All the requests are for routes that need the credentials, and none has them.
unfoldable pub none_admitted :
    {F P : Type 0} → List (Route × (WebReadings × Request)) → Site F P → Bool
none_admitted [] w = true
none_admitted ((r, (t, q)) ∷ rest) w =
    (needs_login w.ap_mode r && not (check_auth q w)) && none_admitted rest w

module _ {F P : Type 0} ⦃fl : Float F⦄ (upper : String → String) (to_float : String → F)
    (to_int : String → ℤ) (pr : Preferences F P) where
  serve_denied :
      (r : Route) (t : WebReadings) (q : Request) (w : Site F P)
      → (needs_login w.ap_mode r && not (check_auth q w)) ≡ true
      → serve upper to_float to_int pr r t q w ≡ w
  unfolding serve needs_login handle_save_config handle_cmd handle_test_cmd handle_factory_reset
      handle_wifi_reset handle_evse_reset handle_reboot rfid_save rfid_learn rfid_add rfid_toggle
      rfid_delete
  serve_denied save_config_route t q w h = ground arith
  serve_denied cmd_route t q w h = ground arith
  serve_denied test_cmd_route t q w h = ground arith
  serve_denied factory_reset_route t q w h = ground arith
  serve_denied wifi_reset_route t q w h = ground arith
  serve_denied evse_reset_route t q w h = ground arith
  serve_denied reboot_route t q w h = ground arith
  serve_denied do_update_route t q w h = ground arith
  serve_denied rfid_save_route t q w h = ground arith
  serve_denied rfid_add_route t q w h = ground arith
  serve_denied rfid_toggle_route t q w h = ground arith
  serve_denied rfid_delete_route t q w h = ground arith
  serve_denied rfid_learn_route t q w h = ground arith
  serve_denied (update_upload_route u) t q w h = ground arith
  serve_denied page_route t q w h = refl

  -- Requests without the user and the password that the configuration holds, in any number, change
  -- nothing, if they are for none of the updater's two routes and, where the access point is up, not
  -- for the form.
  pub serve_all_denied :
      (rs : List (Route × (WebReadings × Request))) (w : Site F P)
      → none_admitted rs w ≡ true
      → serve_all upper to_float to_int pr rs w ≡ w
  unfolding serve_all none_admitted
  serve_all_denied [] w h = refl
  serve_all_denied ((r, (t, q)) ∷ rest) w h =
      let (a, b) =
        and_parts (needs_login w.ap_mode r && not (check_auth q w)) (none_admitted rest w) h in
      rw (serve_denied r t q w a) (serve_all_denied rest w b)

  -- Whatever the requests' credentials, the start of an upload ends a charging session and raises the
  -- flag at which the controller's task deletes itself, and the updater's completion without an error
  -- restarts the chip at a pass of the loop more than a second later, before the clock wraps.
  pub anyone_restarts :
      (t u : WebReadings) (q p : Request) (later : ℕ) (w : Site F P)
      → u.update_error ≡ false
      → u.now + 1000 < later
      → later < 4294967296
      → let started = serve upper to_float to_int pr (update_upload_route file_start) t q w in
        (started.evse.state ≡ ready)
        × (started.ota_updating ≡ true)
        × (restarts later (serve upper to_float to_int pr do_update_route u p started) ≡ true)
  unfolding serve handle_update_upload handle_do_update stop_charging restarts request_reboot
  anyone_restarts t u q p later w e l b = ground arith
