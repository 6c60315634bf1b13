-- ===== src/Main/Gate.antt =====
-- The gate on the safety lockout at boot, and the MQTT failsafe.
use evse_sync_charge.Base.{
  ℕ, ◌*◌, ◌≤◌, ◌<◌, ◌≡◌, refl, Bool, true, false, not, ◌&&◌, ◌||◌, List, [], ◌∷◌, sub32, mul32,
  arith,
}
use evse_sync_charge.Float.{Float}
use evse_sync_charge.Types.{ready}
use evse_sync_charge.Rcm
use evse_sync_charge.Charge
use evse_sync_charge.Charge.{Evse}
use evse_sync_charge.Charge.Control.{stop_charging, set_safety_lockout}
use evse_sync_charge.Boot.{is_boot_count_high}
use evse_sync_charge.Main.{Init, test_rcm, init_hardware, mqtt_failsafe}

module _ {F : Type 0} ⦃fl : Float F⦄ where
  -- After the initialisation, from any state, the controller is ready and its safety lockout is in
  -- force exactly if the boot count is high, or the monitor is enabled and its semaphore was not made
  -- or the edge of its self-test did not come.
  pub init_hardware-lockout :
      (i : Init F) (s : Evse F)
      → let r = init_hardware i s in
        (r.state ≡ ready)
        × (r.error_lockout
            ≡ (is_boot_count_high i.register || (i.rcm_enabled && not (i.semaphore && i.edge))))
  unfolding init_hardware test_rcm set_safety_lockout Charge.setup Charge.set_rcm_enabled Rcm.begin
      Rcm.self_test
  init_hardware-lockout i s = ground arith

  -- Passes of the failsafe at which the client is not connected, at the given readings of the clock.
  unfoldable pub failsafe_passes : Bool → Bool → ℕ → List ℕ → ℕ × Evse F → ℕ × Evse F
  failsafe_passes mqtt_enabled enabled timeout [] c = c
  failsafe_passes mqtt_enabled enabled timeout (now ∷ rest) c =
      failsafe_passes mqtt_enabled enabled timeout rest
        (mqtt_failsafe mqtt_enabled false enabled timeout now c)

  failsafe_passes-seen :
      (mqtt_enabled enabled : Bool) (timeout : ℕ) (nows : List ℕ) (seen : ℕ) (s : Evse F)
      → (failsafe_passes mqtt_enabled enabled timeout nows (seen, s)).0 ≡ seen
  unfolding failsafe_passes mqtt_failsafe
  failsafe_passes-seen mqtt_enabled enabled timeout [] seen s = refl
  failsafe_passes-seen mqtt_enabled enabled timeout (now ∷ rest) seen s =
      let ih = failsafe_passes-seen mqtt_enabled enabled timeout rest seen in
      ground (arith, ih s, ih (stop_charging s))

  failsafe_stops_once :
      (mqtt_enabled : Bool) (timeout now : ℕ) (c : ℕ × Evse F)
      → timeout ≤ 4294967
      → timeout * 1000 < sub32 now c.0
      → (mqtt_failsafe mqtt_enabled false true timeout now c).1.state ≡ ready
  unfolding mqtt_failsafe stop_charging
  failsafe_stops_once mqtt_enabled timeout now (seen, s) h l = ground arith

  -- With the failsafe enabled and a timeout of at most 4294967 s, a pass without a connection that
  -- comes more than the timeout after the connection was last seen, after any passes without a
  -- connection in between, leaves no charging session.
  pub failsafe_stops :
      (mqtt_enabled : Bool) (timeout : ℕ) (nows : List ℕ) (now seen : ℕ) (s : Evse F)
      → timeout ≤ 4294967
      → timeout * 1000 < sub32 now seen
      → let c = failsafe_passes mqtt_enabled true timeout nows (seen, s) in
        (mqtt_failsafe mqtt_enabled false true timeout now c).1.state ≡ ready
  failsafe_stops mqtt_enabled timeout nows now seen s h l =
      let c = failsafe_passes mqtt_enabled true timeout nows (seen, s) in
      failsafe_stops_once mqtt_enabled timeout now c h
        (rw (failsafe_passes-seen mqtt_enabled true timeout nows seen s) l)

  -- Within the timeout, or with the failsafe disabled, or while connected, a pass of the failsafe leaves
  -- the controller as it is.
  pub failsafe_waits :
      (mqtt_enabled connected enabled : Bool) (timeout now seen : ℕ) (s : Evse F)
      → (enabled ≡ true → sub32 now seen ≤ mul32 timeout 1000)
      → (mqtt_failsafe mqtt_enabled connected enabled timeout now (seen, s)).1 ≡ s
  unfolding mqtt_failsafe
  failsafe_waits mqtt_enabled connected enabled timeout now seen s h = ground arith
