-- ===== src/Led/Loop.antt =====
-- `loop`: which setting is shown, and the test sequence.
use evse_sync_charge.Base.{
  ℕ, ◌/◌, ◌==◌, Bool, true, false, not, ◌&&◌, Option, none, some, List, [], ◌∷◌, ℤ, pos, negsuc,
  ltb, sub32, if◌then◌else◌,
}
use evse_sync_charge.Led.{
  Led, LedSettings, LedStateSetting, EvseLedState, led_off, led_boot, led_ready, led_connected,
  led_charging, led_error, led_wifi_config, led_solar_idle, led_safety_lockout, led_rfid_ok,
  led_rfid_reject, shows, col_off, eff_off,
}
use evse_sync_charge.Led.Strip.{StripCall, clear, show}
use evse_sync_charge.Led.Run.{run_effect}

unfoldable pub state_setting : EvseLedState → LedSettings → LedStateSetting
state_setting led_boot c = c.state_boot
state_setting led_ready c = c.state_standby
state_setting led_connected c = c.state_connected
state_setting led_charging c = c.state_charging
state_setting led_error c = c.state_error
state_setting led_wifi_config c = c.state_wifi
state_setting led_solar_idle c = c.state_solar_idle
state_setting led_safety_lockout c = c.state_safety_lockout
state_setting led_rfid_ok c = c.state_rfid_ok
state_setting led_rfid_reject c = c.state_rfid_reject
state_setting led_off c = shows col_off eff_off

-- The setting of a step of the test sequence, which ends after step 7.
unfoldable pub test_setting : ℕ → LedSettings → Option LedStateSetting
test_setting step c =
    if step == 0
    then some c.state_standby
    else if step == 1
    then some c.state_connected
    else if step == 2
    then some c.state_charging
    else if step == 3
    then some c.state_error
    else if step == 4
    then some c.state_wifi
    else if step == 5
    then some c.state_boot
    else if step == 6
    then some c.state_solar_idle
    else if step == 7
    then some c.state_safety_lockout
    else none

-- `step != _currentTestStep`
abbrev same_step : ℕ → ℤ → Bool
same_step step (pos n) = step == n
same_step step (negsuc n) = false

unfoldable pub enter_test_step : ℕ → Led → Led
enter_test_step step l = if same_step step l.current_test_step then l else record l {
  current_test_step = pos step;
  anim_step = pos 0;
  anim_dir = true;
  last_update = 0;
}

unfoldable pub end_test : Led → Led
end_test l = record l {
  test_mode = false;
  current_test_step = negsuc 0;
  anim_step = pos 0;
  last_update = 0;
}

module _ (pack_color : ℕ → ℕ → ℕ → ℕ) (draw pixel : ℕ → ℕ) (waved : ℕ → ℕ → ℤ → ℕ → ℕ)
    (faded : ℕ → ℕ) where
  -- `now` is the clock in loop, `effect_now` in runEffect, and `num_pixels` the driver's count.
  unfoldable pub loop : ℕ → ℕ → ℕ → Led → List StripCall × Led
  unfolding enter_test_step end_test run_effect
  loop num_pixels now effect_now l =
      if not l.config.enabled && not l.test_mode
      then (if not (pixel 0 == 0) && ltb 0 num_pixels then clear ∷ show ∷ [] else [], l)
      else if l.test_mode
      then (let step = sub32 now l.test_sequence_start / 5000 in
          let entered = enter_test_step step l in
          elim (test_setting step l.config) [
            | none ↦ ([], end_test entered)
            | some setting ↦ run_effect pack_color draw pixel waved faded effect_now setting entered
          ])
      else run_effect pack_color draw pixel waved faded effect_now
          (state_setting l.current_state l.config) l
