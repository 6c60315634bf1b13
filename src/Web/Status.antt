-- ===== src/Web/Status.antt =====
-- `handleStatus`, `getUptime` and the buttons of `handleRoot`: what the dashboard shows.
use evse_sync_charge.Base.{
  ℕ, ◌+◌, ◌*◌, ◌/◌, ◌%◌, ◌<◌, ◌≡◌, Bool, true, false, not, ◌&&◌, ◌||◌, Option, none, some, List,
  arith, if◌then◌else◌,
}
use evse_sync_charge.Float.{Float}
use evse_sync_charge.Types.{ChargingSettings, ChargeState, charging, is_charging, VehicleState}
use evse_sync_charge.Pilot
use evse_sync_charge.Charge.{Evse, is_vehicle_connected, is_connected, asks_power}
use evse_sync_charge.Charge.Control.{pause_charging}
use evse_sync_charge.Charge.Session.{IsSafe}
use evse_sync_charge.Charge.Run.{Command, run, constructed, run-IsSafe, constructed-IsSafe}

-- getUptime: days, hours, minutes and seconds of the clock.
unfoldable pub get_uptime : ℕ → ℕ × ℕ × ℕ × ℕ
get_uptime now = let s = now / 1000 in (s / 86400, s % 86400 / 3600, s % 3600 / 60, s % 60)

-- The uptime shown has fewer than 24 hours, 60 minutes and 60 seconds, and is the clock's whole seconds.
pub get_uptime_lem :
    (now : ℕ)
    → let (d, h, m, s) = get_uptime now in
      (h < 24) × (m < 60) × (s < 60) × (((d * 24 + h) * 60 + m) * 60 + s ≡ now / 1000)
unfolding get_uptime
get_uptime_lem now = omega arith

-- The values of the document, without the text of the vehicle's state and the signal strength. The
-- duty cycle is none where the text is DISABLED.
pub record Status (F : Type 0) : Type 0 where
  pub vst : VehicleState
  pub clim : F
  pub pwm : Option F
  pub pvolt : F
  -- Whether acrel is CLOSED.
  pub acrel : Bool
  pub upt : ℕ × ℕ × ℕ × ℕ
  pub state : ChargeState
  pub paused : Bool
  pub conn : Bool
  pub lock : Bool

-- The two buttons: whether START is enabled, whether the second one is, and whether it resumes.
pub record Buttons : Type 0 where
  pub can_start : Bool
  pub pr_enabled : Bool
  pub resumes : Bool

module _ {F : Type 0} ⦃fl : Float F⦄ where
  unfoldable pub handle_status : ℕ → Evse F → Status F
  unfolding get_uptime
  handle_status now s = record {
    vst = s.vehicle_state;
    clim = s.current_limit;
    pwm = if is_charging s.state then some (Pilot.get_pwm_duty s.pilot) else none;
    pvolt = Pilot.get_voltage s.pilot;
    acrel = is_charging s.state && asks_power s.vehicle_state;
    upt = get_uptime now;
    state = s.state;
    paused = s.user_paused;
    conn = is_vehicle_connected s;
    lock = s.error_lockout;
  }

  unfoldable pub buttons : Evse F → Buttons
  buttons s =
      let connected = is_vehicle_connected s in
      record {
        can_start = connected && not (is_charging s.state) && not s.user_paused;
        pr_enabled = (is_charging s.state || s.user_paused) && connected;
        resumes = not (is_charging s.state) && s.user_paused;
      }

  -- The two buttons are never enabled at once; and pausing a session of a connected vehicle turns the
  -- second one into an enabled RESUME.
  pub buttons-pause :
      (s : Evse F)
      → ((buttons s).can_start && (buttons s).pr_enabled ≡ false)
        × (s.state ≡ charging
            → is_connected s.vehicle_state ≡ true
            → let b = buttons (pause_charging s) in
              (b.resumes ≡ true) × (b.pr_enabled ≡ true) × (b.can_start ≡ false))
  unfolding buttons pause_charging is_vehicle_connected
  buttons-pause s = ground arith

  pub status-open :
      (now : ℕ) (s : Evse F)
      → IsSafe s
      → let shown = handle_status now s in
        (shown.acrel ≡ false → s.relay.desired ≡ false)
        × (shown.pwm ≡ none → s.relay.desired ≡ false)
        × (shown.lock ≡ true → (shown.pwm ≡ none) × (shown.acrel ≡ false))
  unfolding handle_status
  status-open now s v = ground arith

  module _ (defaults : ChargingSettings F) (allocated : Bool) (cs : List (Command F)) where
    -- After any sequence of commands from power-up, a dashboard that shows the AC relay as OPEN, or the
    -- duty cycle as DISABLED, is right that the contactor is not asked to close, and one that shows the
    -- safety lock shows both.
    pub handle_status-run :
        (now : ℕ)
        → let s = run cs (constructed defaults allocated) in
          let shown = handle_status now s in
          (shown.acrel ≡ false → s.relay.desired ≡ false)
          × (shown.pwm ≡ none → s.relay.desired ≡ false)
          × (shown.lock ≡ true → (shown.pwm ≡ none) × (shown.acrel ≡ false))
    handle_status-run now =
        status-open now _ (run-IsSafe cs _ (constructed-IsSafe defaults allocated))
