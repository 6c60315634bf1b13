-- ===== src/Led/Breath.antt =====
-- The first frame of the breath effect after a change of the state.
use evse_sync_charge.Base.{ℕ, ◌≤◌, ◌<◌, ◌≡◌, ◌≢◌, true, false, ℤ, negsuc, arith, sub32}
use evse_sync_charge.Led.{Led, EvseLedState, same_led, set_state, col_off, eff_breath}
use evse_sync_charge.Led.Strip.{set_all, get_color, each_channel}
use evse_sync_charge.Led.Effects.{breath, breathed}
use evse_sync_charge.Led.Run.{timing, frame_of, run_effect}
use evse_sync_charge.Led.Loop.{state_setting, loop}

breathed_flash : (channel : ℕ) → 0 < channel → channel < 256 → 254 ≤ breathed channel (negsuc 1)
unfolding breathed
breathed_flash channel l h = ground arith

module _ (pack_color : ℕ → ℕ → ℕ → ℕ) (draw pixel : ℕ → ℕ) (waved : ℕ → ℕ → ℤ → ℕ → ℕ)
    (faded : ℕ → ℕ) where
  -- If the state changes while the animation runs down, to a state that is shown as breath in a colour
  -- that is not off, the next pass of an enabled strip that draws sets every LED to the colour with
  -- each channel that is not 0 raised to 254 or more, although the step has been reset to dark.
  pub breath_flash :
      (state : EvseLedState) (num_pixels now effect_now : ℕ) (l : Led)
      → same_led l.current_state state ≡ false
      → l.anim_dir ≡ false
      → l.config.enabled ≡ true
      → l.test_mode ≡ false
      → (state_setting state l.config).effect ≡ eff_breath
      → (state_setting state l.config).color ≢ col_off
      → 20 < sub32 effect_now 0
      → ((loop pack_color draw pixel waved faded num_pixels now effect_now (set_state state l)).0
          ≡ set_all l.config.num_leds (
              each_channel pack_color
                (λ channel. breathed channel (negsuc 1))
                (get_color pack_color (state_setting state l.config).color)))
        × ((channel : ℕ) → 0 < channel → channel < 256 → 254 ≤ breathed channel (negsuc 1))
  unfolding loop run_effect frame_of breath timing set_state
  breath_flash state num_pixels now effect_now l s d e t b c h = (ground arith, breathed_flash)
