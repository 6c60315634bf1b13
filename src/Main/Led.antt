-- ===== src/Main/Led.antt =====
-- What the status LED's state says of the controller.
use evse_sync_charge.Base.{ℕ, ◌≤◌, ◌≡◌, ◌↔◌, Bool, true, false, arith}
use evse_sync_charge.Float.{Float}
use evse_sync_charge.Types.{charging, ready, not_connected}
use evse_sync_charge.Boot.{is_boot_count_high}
use evse_sync_charge.Charge.{Evse, is_fault}
use evse_sync_charge.Led.{led_error, led_ready, led_charging}
use evse_sync_charge.Main.{Feedback, update_led_state}

module _ {F : Type 0} ⦃fl : Float F⦄ (now register : ℕ) (feedback : Feedback) (fallback_ap : Bool)
    (s : Evse F) where
  -- Outside the feedback of a card, the LED shows the error if and only if the vehicle's state is a
  -- fault of the pilot; and where it shows charging, a session runs, the boot count is not high, and
  -- the pilot has no fault; and where it shows ready, no session runs and no vehicle is connected.
  pub led_lem :
      feedback.until ≤ now
      → let shown = update_led_state now feedback register fallback_ap s in
        ((shown ≡ led_error) ↔ (is_fault s.vehicle_state ≡ true))
        × (shown ≡ led_charging
            → (s.state ≡ charging)
              × (is_boot_count_high register ≡ false)
              × (is_fault s.vehicle_state ≡ false))
        × (shown ≡ led_ready → (s.state ≡ ready) × (s.vehicle_state ≡ not_connected))
  unfolding update_led_state
  led_lem h = ground arith
