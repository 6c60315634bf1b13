-- ===== src/Web/Reset.antt =====
-- The reset of the charging settings, and the monitor that it enables.
use evse_sync_charge.Base.{◌≡◌, true, false, List, arith}
use evse_sync_charge.Float.{Float}
use evse_sync_charge.Types.{ready}
use evse_sync_charge.Prefs.{Preferences}
use evse_sync_charge.Charge
use evse_sync_charge.Charge.{set_rcm_enabled}
use evse_sync_charge.Charge.Run.{Command, run}
use evse_sync_charge.Charge.Unbegun.{IsUnbegun, all_leave_monitor, run-IsUnbegun}
use evse_sync_charge.Web.{Site, Request, check_auth}
use evse_sync_charge.Web.Routes.{WebReadings, handle_evse_reset}

module _ {F P : Type 0} ⦃fl : Float F⦄ (pr : Preferences F P) where
  reset-IsUnbegun :
      (t : WebReadings) (q : Request) (w : Site F P)
      → check_auth q w ≡ true
      → w.evse.rcm.created ≡ false
      → IsUnbegun (handle_evse_reset pr t q w).evse
  unfolding handle_evse_reset Charge.setup set_rcm_enabled
  reset-IsUnbegun t q w h n = ground arith

  -- After an admitted reset of the charging settings on a controller whose monitor was not begun, as
  -- where it was disabled at the start, no sequence of commands without the monitor's begin or its
  -- disabling leads out of the ready state.
  pub reset-stuck :
      (t : WebReadings) (q : Request) (w : Site F P) (cs : List (Command F))
      → check_auth q w ≡ true
      → w.evse.rcm.created ≡ false
      → all_leave_monitor cs ≡ true
      → (run cs (handle_evse_reset pr t q w).evse).state ≡ ready
  reset-stuck t q w cs h n l = (run-IsUnbegun cs _ l (reset-IsUnbegun t q w h n)).is_ready
