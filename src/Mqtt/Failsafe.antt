-- ===== src/Mqtt/Failsafe.antt =====
-- What a message can do to the failsafe's configuration and to the controller.
use Prim.Native.String.{String}
use text.Mathlib.Text.{◌==◌ as str_eq}
use evse_sync_charge.Base.{
  ℕ, ◌≤◌, ◌≡◌, refl, ◌∙◌, ℤ, pos, negsuc, Option, none, some, List, [], ◌∷◌, ◌++◌, Bool, true,
  false, ◌||◌, if◌then◌else◌, arith,
}
use evse_sync_charge.Float.{Float}
use evse_sync_charge.Types.{charging}
use evse_sync_charge.Charge.{Evse}
use evse_sync_charge.Charge.Run.{
  Command, start, stop, limit, alive, allow_below_6, test_mode, test_amps, enable_rcm, exec, run,
}
use evse_sync_charge.Pilot.{duty_to_amps}
use evse_sync_charge.Charge.Control.{enable_current_test, set_current_test}
use evse_sync_charge.Mqtt
use evse_sync_charge.Mqtt.{Mqtt, Publication, publish}
use evse_sync_charge.Mqtt.Command.{
  Topic, CallbackReadings, command, set_current, set_allow_below_6_amp_charging_topic, current_test,
  set_failsafe, set_failsafe_timeout, rcm_config, other, is_on, clamp_timeout, change_failsafe,
  change_timeout, clamp_duty, test_message, mqtt_callback,
}

module _ {F : Type 0} where
  -- The failsafe's switch and its timeout as a subscriber knows them after a publication.
  abbrev next_switch : Option Bool → Publication F → Option Bool
  next_switch last (Mqtt.failsafe b) = some b
  next_switch last _ = last

  abbrev next_timeout : Option ℕ → Publication F → Option ℕ
  next_timeout last (Mqtt.failsafe_timeout n) = some n
  next_timeout last _ = last

  -- After all publications.
  abbrev pub reported_switch : Option Bool → List (Publication F) → Option Bool
  reported_switch last [] = last
  reported_switch last (p ∷ ps) = reported_switch (next_switch last p) ps

  abbrev pub reported_timeout : Option ℕ → List (Publication F) → Option ℕ
  reported_timeout last [] = last
  reported_timeout last (p ∷ ps) = reported_timeout (next_timeout last p) ps

  switch-append :
      (last : Option Bool) (ps qs : List (Publication F))
      → reported_switch last (ps ++ qs) ≡ reported_switch (reported_switch last ps) qs
  switch-append last [] qs = refl
  switch-append last (p ∷ ps) qs = switch-append (next_switch last p) ps qs

  timeout-append :
      (last : Option ℕ) (ps qs : List (Publication F))
      → reported_timeout last (ps ++ qs) ≡ reported_timeout (reported_timeout last ps) qs
  timeout-append last [] qs = refl
  timeout-append last (p ∷ ps) qs = timeout-append (next_timeout last p) ps qs

-- The configuration has what the client caches and has published last, and the timeout is from 10 s to
-- an hour.
pub record IsFailsafe {F : Type 0} (m : Mqtt F) : Type 0 where
  pub switch_reported : reported_switch none m.published ≡ some m.fs_enabled
  pub timeout_reported : reported_timeout none m.published ≡ some m.fs_timeout
  pub synced : m.config_failsafe ≡ (m.fs_enabled, m.fs_timeout)
  pub longest : m.fs_timeout ≤ 3600
  pub shortest : 10 ≤ m.fs_timeout

clamp_timeout-bounds : (z : ℤ) → (10 ≤ clamp_timeout z) × (clamp_timeout z ≤ 3600)
unfolding clamp_timeout
clamp_timeout-bounds (pos n) = ground arith
clamp_timeout-bounds (negsuc n) = omega arith

module _ {F : Type 0} where
  -- A publication on another topic.
  publish-IsFailsafe :
      (p : Publication F) (m : Mqtt F)
      → ((x : Option Bool) → next_switch x p ≡ x)
      → ((x : Option ℕ) → next_timeout x p ≡ x)
      → IsFailsafe m
      → IsFailsafe (publish p m)
  unfolding publish
  publish-IsFailsafe p m h k v = record {
    switch_reported = switch-append none m.published (p ∷ []) ∙ h _ ∙ v.switch_reported;
    timeout_reported = timeout-append none m.published (p ∷ []) ∙ k _ ∙ v.timeout_reported;
    synced = v.synced;
    longest = v.longest;
    shortest = v.shortest;
  }

  change_failsafe-IsFailsafe :
      (b : Bool) (m : Mqtt F) → IsFailsafe m → IsFailsafe (change_failsafe b m)
  unfolding change_failsafe publish
  change_failsafe-IsFailsafe b m v =
      let p : List (Publication F) = Mqtt.failsafe b ∷ [] in
      ground (arith, switch-append none m.published p, timeout-append none m.published p)

  change_timeout-IsFailsafe :
      (n : ℕ) (m : Mqtt F) → (10 ≤ n) × (n ≤ 3600) → IsFailsafe m → IsFailsafe (change_timeout n m)
  unfolding change_timeout publish
  change_timeout-IsFailsafe n m h v =
      let p : List (Publication F) = Mqtt.failsafe_timeout n ∷ [] in
      ground (arith, switch-append none m.published p, timeout-append none m.published p)

module _ (lower : String → String) {F : Type 0} ⦃fl : Float F⦄ (to_float : String → F)
    (to_int : String → ℤ) where
  test-IsFailsafe :
      (msg : String) (m : Mqtt F) (s : Evse F)
      → IsFailsafe m
      → IsFailsafe (test_message lower to_float to_int msg (m, s)).0
  unfolding test_message clamp_duty
  test-IsFailsafe msg m s v =
      let duty = clamp_duty (to_float msg) in
      let set : Publication F = Mqtt.test_duty duty (duty_to_amps duty) in
      ground (
        arith,
        publish-IsFailsafe Mqtt.test_enabled m (λ x. refl) (λ x. refl) v,
        publish-IsFailsafe Mqtt.test_disabled m (λ x. refl) (λ x. refl) v,
        publish-IsFailsafe set m (λ x. refl) (λ x. refl) v,
      )

  -- Whatever message comes on whatever topic: if the failsafe's switch and timeout in the configuration
  -- are the ones that the client caches, and were the last ones published on their topics, so they are
  -- after the message, and the timeout stays from 10 s to an hour.
  pub callback-IsFailsafe :
      (t : CallbackReadings) (topic : Topic) (msg : String) (m : Mqtt F) (s : Evse F)
      → IsFailsafe m
      → IsFailsafe (mqtt_callback lower to_float to_int t topic msg (m, s)).0
  unfolding mqtt_callback
  callback-IsFailsafe t command msg m s v = ground arith
  callback-IsFailsafe t set_current msg m s v = v
  callback-IsFailsafe t set_allow_below_6_amp_charging_topic msg m s v =
      let on = is_on (lower msg) in
      publish-IsFailsafe (Mqtt.allow_below_6_amp on) m (λ x. refl) (λ x. refl) v
  callback-IsFailsafe t current_test msg m s v = test-IsFailsafe msg m s v
  callback-IsFailsafe t set_failsafe msg m s v = change_failsafe-IsFailsafe (is_on (lower msg)) m v
  callback-IsFailsafe t set_failsafe_timeout msg m s v =
      change_timeout-IsFailsafe (clamp_timeout (to_int msg)) m (clamp_timeout-bounds (to_int msg)) v
  callback-IsFailsafe t rcm_config msg m s v = record {
    switch_reported = v.switch_reported;
    timeout_reported = v.timeout_reported;
    synced = v.synced;
    longest = v.longest;
    shortest = v.shortest;
  }
  callback-IsFailsafe t other msg m s v = v

  unfoldable pub test_commands : String → List (Command F)
  test_commands msg =
      let low = lower msg in
      if str_eq low "on" || str_eq low "enable"
      then test_mode true ∷ []
      else if str_eq low "off" || str_eq low "disable"
      then test_mode false ∷ []
      else test_mode true ∷ test_amps (duty_to_amps (clamp_duty (to_float msg))) ∷ []

  -- The commands that a message gives the controller.
  unfoldable pub commands : CallbackReadings → Topic → String → List (Command F)
  unfolding test_commands
  commands t command msg =
      if str_eq msg "start"
      then start t.start ∷ alive t.alive ∷ []
      else if str_eq msg "stop"
      then stop ∷ []
      else []
  commands t set_current msg = limit t.applied (to_float msg) ∷ alive t.alive ∷ []
  commands t set_allow_below_6_amp_charging_topic msg =
      allow_below_6 t.applied (is_on (lower msg)) ∷ []
  commands t current_test msg = test_commands msg
  commands t set_failsafe msg = []
  commands t set_failsafe_timeout msg = []
  commands t rcm_config msg = enable_rcm (is_on (lower msg)) ∷ []
  commands t other msg = []

  -- What a message does to the controller is what a sequence of commands does, which the topic and the
  -- text give; the failsafe's topics give none.
  pub callback-run :
      (t : CallbackReadings) (topic : Topic) (msg : String) (m : Mqtt F) (s : Evse F)
      → (mqtt_callback lower to_float to_int t topic msg (m, s)).1 ≡ run (commands t topic msg) s
  unfolding mqtt_callback test_message commands test_commands run exec
  callback-run t command msg m s = ground arith
  callback-run t set_current msg m s = refl
  callback-run t set_allow_below_6_amp_charging_topic msg m s = refl
  callback-run t current_test msg m s = ground arith
  callback-run t set_failsafe msg m s = refl
  callback-run t set_failsafe_timeout msg m s = refl
  callback-run t rcm_config msg m s = refl
  callback-run t other msg m s = refl

  -- In a charging session outside the current test, no message of the current test but off and disable
  -- changes the controller.
  pub test_refused :
      (t : CallbackReadings) (msg : String) (m : Mqtt F) (s : Evse F)
      → s.state ≡ charging
      → s.current_test ≡ false
      → (str_eq (lower msg) "off" || str_eq (lower msg) "disable") ≡ false
      → (mqtt_callback lower to_float to_int t current_test msg (m, s)).1 ≡ s
  unfolding mqtt_callback test_message enable_current_test set_current_test
  test_refused t msg m s c n h = ground arith
