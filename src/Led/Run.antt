-- ===== src/Led/Run.antt =====
-- The frames of the other effects, and `runEffect`. `random` is a library function: `draw k` is what
-- its call k of a frame returns, and `pixel i` what the driver's getPixelColor returns. The arithmetic
-- of `double` is a parameter: `waved n i step channel` is the channel of pixel i of n in the wave, and
-- `faded channel` the channel times 0.9.
use evse_sync_charge.Base.{
  ℕ, ◌*◌, ◌/◌, ◌%◌, ◌==◌, Bool, ◌||◌, List, [], ◌∷◌, ◌++◌, ℤ, pos, ltb, above, plus, sub32,
  if◌then◌else◌,
}
use evse_sync_charge.Led.{
  Led, LedStateSetting, eff_off, eff_solid, eff_blink_slow, eff_blink_fast, eff_breath, eff_rainbow,
  eff_knight_rider, eff_chase, eff_sparkle, eff_theater_chase, eff_fire, eff_wave, eff_twinkle,
  eff_color_wipe, eff_rainbow_chase, eff_comet, eff_pulse, eff_strobe, col_off,
}
use evse_sync_charge.Led.Strip.{
  StripCall, set_pixel, clear, show, Frame, pixels, set_all, get_color, each_channel,
}
use evse_sync_charge.Led.Effects.{
  blink, breath, rainbow, knight_rider, chase, theater_chase, color_wipe, rainbow_chase, comet,
  pulse,
}

-- The time between two frames, in milliseconds.
unfoldable pub timing : ℕ → ℕ
timing e =
    if e == eff_blink_slow
    then 1000
    else if e == eff_blink_fast
    then 250
    else if e == eff_breath || e == eff_rainbow || e == eff_pulse
    then 20
    else if e == eff_knight_rider
    then 40
    else if e == eff_theater_chase || e == eff_twinkle
    then 100
    else if e == eff_fire || e == eff_wave || e == eff_rainbow_chase || e == eff_comet
    then 30
    else 50

module _ (pack_color : ℕ → ℕ → ℕ → ℕ) (draw pixel : ℕ → ℕ) (waved : ℕ → ℕ → ℤ → ℕ → ℕ)
    (faded : ℕ → ℕ) where
  unfoldable pub sparkle : ℕ → ℕ → ℤ → Bool → Frame
  sparkle c n step dir = record {
    calls = clear ∷ (pixels (n / 3) (λ i. set_pixel (pos (draw i)) c ∷ []) ++ (show ∷ []));
    step = step;
    dir = dir;
  }

  unfoldable pub fire : ℕ → ℕ → ℤ → Bool → Frame
  fire c n step dir = record {
    calls =
        pixels n (λ i.
          set_pixel (pos i) (each_channel pack_color (λ channel. channel * draw i / 100 % 256) c)
          ∷ [])
        ++ (show ∷ []);
    step = step;
    dir = dir;
  }

  unfoldable pub wave : ℕ → ℕ → ℤ → Bool → Frame
  wave c n step dir =
      let moved = if above (plus step 1) 360 then pos 0 else plus step 1 in
      record {
        calls =
            pixels n (λ i. set_pixel (pos i) (each_channel pack_color (waved n i moved) c) ∷ [])
            ++ (show ∷ []);
        step = moved;
        dir = dir;
      }

  unfoldable pub twinkle : ℕ → ℕ → ℤ → Bool → Frame
  twinkle c n step dir = record {
    calls =
        pixels n (λ i. set_pixel (pos i) (each_channel pack_color faded (pixel i)) ∷ [])
        ++ ((if ltb (draw 0) 30 then set_pixel (pos (draw 1)) c ∷ [] else []) ++ (show ∷ []));
    step = step;
    dir = dir;
  }

  -- The branch of an effect that has frames.
  unfoldable pub frame_of : ℕ → ℕ → ℕ → ℤ → Bool → Frame
  frame_of e c n step dir =
      if e == eff_blink_slow || e == eff_blink_fast || e == eff_strobe
      then blink pack_color c n step dir
      else if e == eff_breath
      then breath pack_color c n step dir
      else if e == eff_rainbow
      then rainbow pack_color c n step dir
      else if e == eff_knight_rider
      then knight_rider pack_color c n step dir
      else if e == eff_chase
      then chase pack_color c n step dir
      else if e == eff_sparkle
      then sparkle c n step dir
      else if e == eff_theater_chase
      then theater_chase pack_color c n step dir
      else if e == eff_fire
      then fire c n step dir
      else if e == eff_wave
      then wave c n step dir
      else if e == eff_twinkle
      then twinkle c n step dir
      else if e == eff_color_wipe
      then color_wipe pack_color c n step dir
      else if e == eff_rainbow_chase
      then rainbow_chase pack_color c n step dir
      else if e == eff_comet
      then comet pack_color c n step dir
      else pulse pack_color c n step dir

  -- An effect that is none of the named ones does nothing.
  unfoldable pub run_effect : ℕ → LedStateSetting → Led → List StripCall × Led
  unfolding get_color set_all timing
  run_effect now setting l =
      let n = l.config.num_leds in
      let c = get_color pack_color setting.color in
      if setting.effect == eff_off || setting.color == col_off
      then (set_all n 0, l)
      else if setting.effect == eff_solid
      then (set_all n c, l)
      else if ltb eff_strobe setting.effect
      then ([], l)
      else if ltb (timing setting.effect) (sub32 now l.last_update)
      then (let frame = frame_of setting.effect c n l.anim_step l.anim_dir in
          (
            frame.calls,
            record l { last_update = now; anim_step = frame.step; anim_dir = frame.dir },
          ))
      else ([], l)
