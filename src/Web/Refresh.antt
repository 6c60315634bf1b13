-- ===== src/Web/Refresh.antt =====
-- The dashboard of `handleRoot` and the script `ajaxScript` of EVSE-SyncCharge/WebPages.cpp, which
-- writes the status document into the page that is open, but not into its banner of a fault. The texts of the numbers, the colours and
-- the signal strength are left out.
use evse_sync_charge.Base.{ℕ, Bool, true, false, not, ◌&&◌, Option, none, some, if◌then◌else◌}
use evse_sync_charge.Float.{Float}
use evse_sync_charge.Types.{is_charging, VehicleState}
use evse_sync_charge.Pilot
use evse_sync_charge.Charge.{Evse, asks_power}
use evse_sync_charge.Web.Status.{Status, buttons, get_uptime}

-- The commands that the second button sends.
pub data Action : Type 0 where
  pause start : Action

-- The elements of the page that depend on the controller, and what the second button's click does.
pub record Dashboard (F : Type 0) : Type 0 where
  pub vst : VehicleState
  pub clim : F
  pub pwm : Option F
  pub pvolt : F
  pub acrel : Bool
  pub upt : ℕ × ℕ × ℕ × ℕ
  pub lock : Bool
  pub start_enabled : Bool
  pub pause_enabled : Bool
  -- Whether the second button's text is RESUME CHARGING.
  pub resumes : Bool
  pub action : Action
  -- Whether the page has the banner of a residual current fault, which has no id.
  pub rcm_fault : Bool

module _ {F : Type 0} where
  -- The part of the script for `btn-pause`. Where the button is disabled, its click is left as it is.
  unfoldable pub refresh_pause : Status F → Dashboard F → Dashboard F
  refresh_pause d p =
      if is_charging d.state
      then record p { pause_enabled = d.conn; resumes = false; action = pause }
      else if d.paused
      then record p { pause_enabled = d.conn; resumes = true; action = start }
      else record p { pause_enabled = false; resumes = false }

  unfoldable pub refresh : Status F → Dashboard F → Dashboard F
  unfolding refresh_pause
  refresh d p = refresh_pause d (record p {
    vst = d.vst;
    clim = d.clim;
    pwm = d.pwm;
    pvolt = d.pvolt;
    acrel = d.acrel;
    upt = d.upt;
    lock = d.lock;
    start_enabled = d.conn && not (is_charging d.state) && not d.paused;
  })

module _ {F : Type 0} ⦃fl : Float F⦄ where
  unfoldable pub handle_root : ℕ → Evse F → Dashboard F
  unfolding buttons
  handle_root now s =
      let b = buttons s in
      record {
        vst = s.vehicle_state;
        clim = s.current_limit;
        pwm = if is_charging s.state then some (Pilot.get_pwm_duty s.pilot) else none;
        pvolt = Pilot.get_voltage s.pilot;
        acrel = is_charging s.state && asks_power s.vehicle_state;
        upt = get_uptime now;
        lock = s.error_lockout;
        start_enabled = b.can_start;
        pause_enabled = b.pr_enabled;
        resumes = b.resumes;
        action = if b.resumes then start else pause;
        rcm_fault = s.rcm_enabled && s.rcm_tripped;
      }
