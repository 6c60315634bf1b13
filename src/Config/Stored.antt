-- ===== src/Config/Stored.antt =====
-- Loading the configuration after saving it.
use evse_sync_charge.Base.{◌≡◌}
use evse_sync_charge.Float.{Float}
use evse_sync_charge.Prefs.{Preferences, IsStore, get-put_all}
use evse_sync_charge.Config.{AppConfig, save_config, load_config}

module _ {F P : Type 0} ⦃fl : Float F⦄ (pr : Preferences F P) where
  -- Over a store that reads back what was last written to a key, the configuration that is loaded
  -- after a save is the one that was saved, in every field.
  pub load_config-save_config :
      IsStore pr → (c : AppConfig F) (p : P) → load_config pr (save_config pr c p) ≡ c
  unfolding load_config save_config
  load_config-save_config st c p = simp (get-put_all pr st)
