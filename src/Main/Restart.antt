-- ===== src/Main/Restart.antt =====
-- What a start of the firmware does with the stored configuration.
use Prim.Native.String.{String}
use evse_sync_charge.Base.{
  ℤ, ◌≡◌, Bool, true, not, ◌&&◌, ◌||◌, List, arith, ◌∙◌, ap, to_u32, some, none, if◌then◌else◌,
}
use evse_sync_charge.Float.{Float}
use evse_sync_charge.Types.{ready}
use evse_sync_charge.Prefs.{Preferences, IsStore}
use evse_sync_charge.Config.{load_config}
use evse_sync_charge.Boot
use evse_sync_charge.Boot.{is_boot_count_high}
use evse_sync_charge.Charge
use evse_sync_charge.Charge.{Evse, preinit_hard, set_throttle_alive_timeout}
use evse_sync_charge.Charge.Control.{set_safety_lockout}
use evse_sync_charge.Ocpp
use evse_sync_charge.Main.{Init, init_hardware, test_rcm}
use evse_sync_charge.Main.Gate.{init_hardware-lockout}
use evse_sync_charge.Main.Setup.{
  Board, SetupReadings, settings_of, apply_mqtt_config, connect, load, init_of, setup,
}
use evse_sync_charge.Web.{Site, Request}
use evse_sync_charge.Web.Routes.{Route, WebReadings, serve_all}
use evse_sync_charge.Web.Stored.{IsInSync, all_keep, serve_all-IsInSync}

module _ {F P : Type 0} where
  connect-frame :
      (wifi : Bool) (b : Board F P)
      → let r = connect wifi b in
        (r.site.config ≡ b.site.config) × (r.site.evse ≡ b.site.evse) × (r.register ≡ b.register)
  unfolding connect apply_mqtt_config
  connect-frame wifi b = ground arith

  connect-ocpp : (wifi : Bool) (b : Board F P) → (connect wifi b).site.ocpp ≡ b.site.ocpp
  unfolding connect apply_mqtt_config
  connect-ocpp wifi b = ground arith

module _ {F : Type 0} ⦃fl : Float F⦄ where
  init-settings :
      (i : Init F) (s : Evse F)
      → let r = init_hardware i s in
        (r.settings ≡ i.settings)
        × (r.current_limit ≡ i.settings.max_current)
        × (r.rcm_enabled ≡ i.rcm_enabled)
        × (r.throttle_alive_timeout ≡ s.throttle_alive_timeout)
  unfolding init_hardware test_rcm set_safety_lockout Charge.setup Charge.set_rcm_enabled
  init-settings i s = ground arith

module _ {F P : Type 0} ⦃fl : Float F⦄ (pr : Preferences F P) where
  load-frame :
      (b : Board F P)
      → let r = load pr b in
        (r.site.config ≡ load_config pr b.site.stored)
        × (r.register ≡ Boot.begin b.register)
        × (r.site.evse.throttle_alive_timeout ≡ (load_config pr b.site.stored).solar_stop_timeout)
  unfolding load set_throttle_alive_timeout
  load-frame b = ground arith

  -- After the setup, whatever the outcome of WiFi and of the hardware's initialisation, the
  -- configuration is the stored one, the controller is ready and has that configuration's settings,
  -- with its maximum as the limit; and the safety lockout is in force exactly if the boot count is high,
  -- this start counted, or the configuration enables the monitor and its semaphore is not made or its
  -- self-test fails.
  pub setup-loaded :
      (t : SetupReadings) (b : Board F P)
      → let r = (setup pr t b).site in
        let c = load_config pr b.site.stored in
        (r.config ≡ c)
        × (r.evse.settings ≡ settings_of c)
        × (r.evse.current_limit ≡ c.max_current)
        × (r.evse.rcm_enabled ≡ c.rcm_enabled)
        × (r.evse.throttle_alive_timeout ≡ c.solar_stop_timeout)
        × (r.evse.state ≡ ready)
        × (r.evse.error_lockout ≡ (
            is_boot_count_high (Boot.begin b.register)
            || (c.rcm_enabled && not (t.semaphore && t.edge))))
  unfolding setup init_of
  setup-loaded t b =
      let l = load pr b in
      let n = connect t.wifi l in
      let i = init_of t n.site.config n.register in
      let (config, register, timeout) = load-frame b in
      let (config', evse', register') = connect-frame t.wifi l in
      let (settings, limit, rcm, timeout') = init-settings i n.site.evse in
      let (state, lockout) = init_hardware-lockout i n.site.evse in
      (
        config' ∙ config,
        settings ∙ ap settings_of (config' ∙ config),
        limit ∙ ap (λ c. c.max_current) (config' ∙ config),
        rcm ∙ ap (λ c. c.rcm_enabled) (config' ∙ config),
        timeout' ∙ ap (λ s. s.throttle_alive_timeout) evse' ∙ timeout,
        state,
        lockout
            ∙ ap
                (λ r.
                  is_boot_count_high r
                  || (n.site.config.rcm_enabled && not (t.semaphore && t.edge)))
                (register' ∙ register)
            ∙ ap
                (λ c.
                  is_boot_count_high (Boot.begin b.register)
                  || (c.rcm_enabled && not (t.semaphore && t.edge)))
                (config' ∙ config),
      )

  -- Over a store that reads back what was last written to a key: what was set through the pages, with
  -- any requests but a factory reset, from a configuration in step with the store, is what the
  -- controller has after the next start from that store, whatever the parts of the board were.
  pub restart-applies :
      (upper : String → String) (to_float : String → F) (to_int : String → ℤ)
      → IsStore pr
      → (rs : List (Route × (WebReadings × Request))) (w : Site F P) (t : SetupReadings)
        (b : Board F P)
      → all_keep rs ≡ true
      → IsInSync pr w
      → b.site.stored ≡ (serve_all upper to_float to_int pr rs w).stored
      → let c = (serve_all upper to_float to_int pr rs w).config in
        let r = (setup pr t b).site in
        (r.config ≡ c)
        × (r.evse.settings ≡ settings_of c)
        × (r.evse.current_limit ≡ c.max_current)
        × (r.evse.rcm_enabled ≡ c.rcm_enabled)
        × (r.evse.throttle_alive_timeout ≡ c.solar_stop_timeout)
  restart-applies upper to_float to_int st rs w t b h v e =
      let sync = serve_all-IsInSync upper to_float to_int pr st rs w h v in
      let loaded = ap (load_config pr) e ∙ sync.stored_config in
      let (config, settings, limit, rcm, timeout, _, _) = setup-loaded t b in
      (
        config ∙ loaded,
        settings ∙ ap settings_of loaded,
        limit ∙ ap (λ c. c.max_current) loaded,
        rcm ∙ ap (λ c. c.rcm_enabled) loaded,
        timeout ∙ ap (λ c. c.solar_stop_timeout) loaded,
      )

  -- After the setup, the OCPP client's begin gives the web socket the server that is stored, with or
  -- without TLS as is stored, if the stored configuration enables the client, and nothing otherwise.
  pub setup-begin :
      (t : SetupReadings) (b : Board F P)
      → let c = load_config pr b.site.stored in
        Ocpp.begin (setup pr t b).site.ocpp ≡ (
          if c.ocpp_enabled
          then some (record {
            tls = c.ocpp_use_tls;
            host = c.ocpp_host;
            port = c.ocpp_port;
            url = c.ocpp_url;
            interval = to_u32 c.ocpp_reconnect_interval;
          })
          else none)
  unfolding setup load Ocpp.set_config Ocpp.begin
  setup-begin t b = rw (connect-ocpp t.wifi (load pr b)) (ground arith)
