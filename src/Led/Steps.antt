-- ===== src/Led/Steps.antt =====
-- The bounds of the animation's step, effect by effect.
use evse_sync_charge.Base.{ℕ, ◌≤◌, ◌<◌, Bool, true, false, ℤ, pos, negsuc, arith}
use evse_sync_charge.Led.Strip.{Frame}
use evse_sync_charge.Led.Effects.{
  blink, breath, rainbow, knight_rider, chase, theater_chase, color_wipe, rainbow_chase, comet,
  pulse,
}
use evse_sync_charge.Led.Run.{sparkle, fire, wave, twinkle, frame_of}

-- A step and its direction: the step is from -3 to 65542, at most 65539 while it rises, and rises if
-- it is negative.
abbrev pub IsAnimated : ℤ → Bool → Type 0
IsAnimated (pos n) true = n ≤ 65539
IsAnimated (pos n) false = n ≤ 65542
IsAnimated (negsuc n) true = n ≤ 2
IsAnimated (negsuc n) false = ⊥

abbrev FrameIsAnimated : Frame → Type 0
FrameIsAnimated f = IsAnimated f.step f.dir

module _ (pack_color : ℕ → ℕ → ℕ → ℕ) (c n : ℕ) (few : n < 65536) where
  blink-IsAnimated :
      (step : ℤ) (dir : Bool)
      → IsAnimated step dir
      → FrameIsAnimated (blink pack_color c n step dir)
  unfolding blink
  blink-IsAnimated step dir v = ground arith

  breath-IsAnimated :
      (step : ℤ) (dir : Bool)
      → IsAnimated step dir
      → FrameIsAnimated (breath pack_color c n step dir)
  unfolding breath
  breath-IsAnimated step dir v = ground arith

  rainbow-IsAnimated :
      (step : ℤ) (dir : Bool)
      → IsAnimated step dir
      → FrameIsAnimated (rainbow pack_color c n step dir)
  unfolding rainbow
  rainbow-IsAnimated step dir v = ground arith

  knight_rider-IsAnimated :
      (step : ℤ) (dir : Bool)
      → IsAnimated step dir
      → FrameIsAnimated (knight_rider pack_color c n step dir)
  unfolding knight_rider
  knight_rider-IsAnimated step dir v = ground arith

  chase-IsAnimated :
      (step : ℤ) (dir : Bool)
      → IsAnimated step dir
      → FrameIsAnimated (chase pack_color c n step dir)
  unfolding chase
  chase-IsAnimated step dir v = ground arith

  theater_chase-IsAnimated :
      (step : ℤ) (dir : Bool)
      → IsAnimated step dir
      → FrameIsAnimated (theater_chase pack_color c n step dir)
  unfolding theater_chase
  theater_chase-IsAnimated step dir v = ground arith

  color_wipe-IsAnimated :
      (step : ℤ) (dir : Bool)
      → IsAnimated step dir
      → FrameIsAnimated (color_wipe pack_color c n step dir)
  unfolding color_wipe
  color_wipe-IsAnimated step dir v = ground arith

  rainbow_chase-IsAnimated :
      (step : ℤ) (dir : Bool)
      → IsAnimated step dir
      → FrameIsAnimated (rainbow_chase pack_color c n step dir)
  unfolding rainbow_chase
  rainbow_chase-IsAnimated step dir v = ground arith

  comet-IsAnimated :
      (step : ℤ) (dir : Bool)
      → IsAnimated step dir
      → FrameIsAnimated (comet pack_color c n step dir)
  unfolding comet
  comet-IsAnimated step dir v = ground arith

  pulse-IsAnimated :
      (step : ℤ) (dir : Bool)
      → IsAnimated step dir
      → FrameIsAnimated (pulse pack_color c n step dir)
  unfolding pulse
  pulse-IsAnimated step dir v = ground arith

  module _ (draw pixel : ℕ → ℕ) (waved : ℕ → ℕ → ℤ → ℕ → ℕ) (faded : ℕ → ℕ) where
    wave-IsAnimated :
        (step : ℤ) (dir : Bool)
        → IsAnimated step dir
        → FrameIsAnimated (wave pack_color draw pixel waved faded c n step dir)
    unfolding wave
    wave-IsAnimated step dir v = ground arith

    -- The other three effects leave the step alone.
    pub frame_of-IsAnimated :
        (e : ℕ) (step : ℤ) (dir : Bool)
        → IsAnimated step dir
        → FrameIsAnimated (frame_of pack_color draw pixel waved faded e c n step dir)
    unfolding frame_of sparkle fire twinkle
    frame_of-IsAnimated e step dir v = ground (
      arith,
      blink-IsAnimated step dir v,
      breath-IsAnimated step dir v,
      rainbow-IsAnimated step dir v,
      knight_rider-IsAnimated step dir v,
      chase-IsAnimated step dir v,
      theater_chase-IsAnimated step dir v,
      wave-IsAnimated step dir v,
      color_wipe-IsAnimated step dir v,
      rainbow_chase-IsAnimated step dir v,
      comet-IsAnimated step dir v,
      pulse-IsAnimated step dir v,
    )
