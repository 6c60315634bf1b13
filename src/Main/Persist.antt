-- ===== src/Main/Persist.antt =====
-- What the pages and the MQTT messages set in the configuration, and the next start of the chip.
use Prim.Native.String.{String}
use evse_sync_charge.Base.{
  ℤ, ◌≡◌, refl, ◌∙◌, ap, Bool, true, false, ◌&&◌, List, [], ◌∷◌, arith, Bool-cases, inl, inr,
}
use evse_sync_charge.Float.{Float}
use evse_sync_charge.Prefs.{Preferences, IsStore}
use evse_sync_charge.Config.{load_config}
use evse_sync_charge.Config.Stored.{load_config-save_config}
use evse_sync_charge.Charge.Contactor.{and_parts}
use evse_sync_charge.Mqtt.{publish}
use evse_sync_charge.Mqtt.Command.{
  Topic, command, set_current, set_allow_below_6_amp_charging_topic, current_test, set_failsafe,
  set_failsafe_timeout, rcm_config, other, CallbackReadings, mqtt_callback, test_message,
  change_failsafe, change_timeout,
}
use evse_sync_charge.Web.{Site, Request}
use evse_sync_charge.Web.Routes.{WebReadings, Route, serve}
use evse_sync_charge.Web.Stored.{IsInSync, keeps_config, serve-IsInSync}
use evse_sync_charge.Main.Setup.{Board, SetupReadings, settings_of, setup}
use evse_sync_charge.Main.Restart.{setup-loaded}
use evse_sync_charge.Main.Device.{Delivery, saves, called_back, deliver}

-- A request to the pages or an MQTT message.
pub data Edit : Type 0 where
  asked : Route → WebReadings → Request → Edit
  told : Delivery → Edit

-- Any but a factory reset.
abbrev pub keeps : Edit → Bool
keeps (asked r t q) = keeps_config r
keeps (told x) = true

unfoldable pub all_keep : List Edit → Bool
all_keep [] = true
all_keep (e ∷ es) = keeps e && all_keep es

module _ (lower : String → String) {F P : Type 0} ⦃fl : Float F⦄ (to_float : String → F)
    (to_int : String → ℤ) (pr : Preferences F P) (st : IsStore pr) where
  -- A message whose callback leaves the settings of the failsafe and the monitor.
  quiet-IsInSync :
      (t : CallbackReadings) (topic : Topic) (msg : String) (w : Site F P)
      → (mqtt_callback lower to_float to_int t topic msg (w.mqtt, w.evse)).0.config_failsafe
        ≡ w.mqtt.config_failsafe
      → (mqtt_callback lower to_float to_int t topic msg (w.mqtt, w.evse)).0.config_rcm
        ≡ w.mqtt.config_rcm
      → saves topic w.mqtt (mqtt_callback lower to_float to_int t topic msg (w.mqtt, w.evse)).0
        ≡ false
      → IsInSync pr w
      → IsInSync pr (deliver lower to_float to_int pr (t, (topic, msg)) w)
  unfolding deliver
  quiet-IsInSync t topic msg w f r n v = ground arith

  -- A message after which the configuration is saved.
  saved-IsInSync :
      (t : CallbackReadings) (topic : Topic) (msg : String) (w : Site F P)
      → saves topic w.mqtt (mqtt_callback lower to_float to_int t topic msg (w.mqtt, w.evse)).0
        ≡ true
      → IsInSync pr (deliver lower to_float to_int pr (t, (topic, msg)) w)
  unfolding deliver
  saved-IsInSync t topic msg w n =
      let m = (mqtt_callback lower to_float to_int t topic msg (w.mqtt, w.evse)).0 in
      ground (arith, load_config-save_config pr st (called_back m w.config) w.stored)

  deliver-IsInSync :
      (x : Delivery) (w : Site F P)
      → IsInSync pr w
      → IsInSync pr (deliver lower to_float to_int pr x w)
  unfolding mqtt_callback test_message change_failsafe change_timeout publish
  deliver-IsInSync (t, (command, msg)) w v =
      quiet-IsInSync t command msg w (ground arith) (ground arith) refl v
  deliver-IsInSync (t, (set_current, msg)) w v = quiet-IsInSync t set_current msg w refl refl refl v
  deliver-IsInSync (t, (set_allow_below_6_amp_charging_topic, msg)) w v =
      quiet-IsInSync t set_allow_below_6_amp_charging_topic msg w refl refl refl v
  deliver-IsInSync (t, (current_test, msg)) w v =
      quiet-IsInSync t current_test msg w (ground arith) (ground arith) refl v
  deliver-IsInSync (t, (set_failsafe, msg)) w v =
      elim (Bool-cases (
        saves set_failsafe w.mqtt
          (mqtt_callback lower to_float to_int t set_failsafe msg (w.mqtt, w.evse)).0)) [
            | inl e ↦ saved-IsInSync t set_failsafe msg w e
            | inr e ↦ quiet-IsInSync t set_failsafe msg w (ground arith) (ground arith) e v
          ]
  deliver-IsInSync (t, (set_failsafe_timeout, msg)) w v =
      elim (Bool-cases (
        saves set_failsafe_timeout w.mqtt
          (mqtt_callback lower to_float to_int t set_failsafe_timeout msg (w.mqtt, w.evse)).0)) [
            | inl e ↦ saved-IsInSync t set_failsafe_timeout msg w e
            | inr e ↦ quiet-IsInSync t set_failsafe_timeout msg w (ground arith) (ground arith) e v
          ]
  deliver-IsInSync (t, (rcm_config, msg)) w v = saved-IsInSync t rcm_config msg w refl
  deliver-IsInSync (t, (other, msg)) w v = quiet-IsInSync t other msg w refl refl refl v

module _ (lower upper : String → String) {F P : Type 0} ⦃fl : Float F⦄ (to_float : String → F)
    (to_int : String → ℤ) (pr : Preferences F P) where
  unfoldable pub edit : Edit → Site F P → Site F P
  edit (asked r t q) w = serve upper to_float to_int pr r t q w
  edit (told x) w = deliver lower to_float to_int pr x w

  unfoldable pub edit_all : List Edit → Site F P → Site F P
  edit_all [] w = w
  edit_all (e ∷ es) w = edit_all es (edit e w)

  edit_all-IsInSync :
      IsStore pr
      → (es : List Edit) (w : Site F P) → all_keep es ≡ true
      → IsInSync pr w
      → IsInSync pr (edit_all es w)
  unfolding edit_all edit all_keep
  edit_all-IsInSync st [] w h v = v
  edit_all-IsInSync st (asked r t q ∷ es) w h v =
      let (a, b) = and_parts (keeps_config r) (all_keep es) h in
      edit_all-IsInSync st es _ b (serve-IsInSync upper to_float to_int pr st r t q w a v)
  edit_all-IsInSync st (told x ∷ es) w h v =
      let (a, b) = and_parts true (all_keep es) h in
      edit_all-IsInSync st es _ b (deliver-IsInSync lower to_float to_int pr st x w v)

  -- Over a store that reads back what was last written to a key, and from a configuration in step with
  -- the store: the configuration as requests to the pages and MQTT messages leave it, in any order and
  -- any but factory resets, is the configuration after the next start from that store, whatever the
  -- parts of the board were, and the controller then has its settings, its current limit, the
  -- monitor's switch and the throttle timeout from it. What a message sets in the controller alone is
  -- not in the configuration.
  pub restart-persists :
      IsStore pr
      → (es : List Edit) (w : Site F P) (t : SetupReadings) (b : Board F P) → all_keep es ≡ true
      → IsInSync pr w
      → b.site.stored ≡ (edit_all es w).stored
      → let c = (edit_all es w).config in
        let r = (setup pr t b).site in
        (r.config ≡ c)
        × (r.evse.settings ≡ settings_of c)
        × (r.evse.current_limit ≡ c.max_current)
        × (r.evse.rcm_enabled ≡ c.rcm_enabled)
        × (r.evse.throttle_alive_timeout ≡ c.solar_stop_timeout)
  restart-persists st es w t b h v e =
      let sync = edit_all-IsInSync st es w h v in
      let loaded = ap (load_config pr) e ∙ sync.stored_config in
      let (config, settings, limit, rcm, timeout, _, _) = setup-loaded pr t b in
      (
        config ∙ loaded,
        settings ∙ ap settings_of loaded,
        limit ∙ ap (λ c. c.max_current) loaded,
        rcm ∙ ap (λ c. c.rcm_enabled) loaded,
        timeout ∙ ap (λ c. c.solar_stop_timeout) loaded,
      )
