-- ===== src/Led/Bounded.antt =====
-- The strip over sequences of calls.
use evse_sync_charge.Base.{ℕ, ◌<◌, List, [], ◌∷◌, ℤ, arith}
use evse_sync_charge.Led.{
  Led, LedSettings, LedStateSetting, EvseLedState, set_state, start_test_sequence, new,
}
use evse_sync_charge.Led.Run.{run_effect}
use evse_sync_charge.Led.Loop.{enter_test_step, end_test, loop}
use evse_sync_charge.Led.Steps.{IsAnimated, frame_of-IsAnimated}

-- A call of the strip. A pass has its clock readings and what the driver and `random` return.
pub data Call : Type 0 where
  show_state : EvseLedState → Call
  start_test : ℕ → Call
  configure : (c : LedSettings) → c.num_leds < 65536 → Call
  pass : (num_pixels now effect_now : ℕ) → (draw pixel : ℕ → ℕ) → Call

-- The number of LEDs is a uint16_t.
pub record IsBounded (l : Led) : Type 0 where
  pub few : l.config.num_leds < 65536
  pub animated : IsAnimated l.anim_step l.anim_dir

module _ (pack_color : ℕ → ℕ → ℕ → ℕ) (waved : ℕ → ℕ → ℤ → ℕ → ℕ) (faded : ℕ → ℕ) where
  unfoldable pub exec : Call → Led → Led
  exec (show_state state) l = set_state state l
  exec (start_test now) l = start_test_sequence now l
  exec (configure c _) l = record l { config = c }
  exec (pass num_pixels now effect_now draw pixel) l =
      (loop pack_color draw pixel waved faded num_pixels now effect_now l).1

  unfoldable pub run : List Call → Led → Led
  run [] l = l
  run (c ∷ cs) l = run cs (exec c l)

  run_effect-IsBounded :
      (draw pixel : ℕ → ℕ) (now : ℕ) (setting : LedStateSetting) (l : Led)
      → IsBounded l
      → IsBounded (run_effect pack_color draw pixel waved faded now setting l).1
  unfolding run_effect
  run_effect-IsBounded draw pixel now setting l v = grind (arith, frame_of-IsAnimated)

  loop-IsBounded :
      (draw pixel : ℕ → ℕ) (num_pixels now effect_now : ℕ) (l : Led)
      → IsBounded l
      → IsBounded (loop pack_color draw pixel waved faded num_pixels now effect_now l).1
  unfolding loop enter_test_step end_test
  loop-IsBounded draw pixel num_pixels now effect_now l v = grind (arith, run_effect-IsBounded)

  exec-IsBounded : (c : Call) (l : Led) → IsBounded l → IsBounded (exec c l)
  unfolding exec set_state start_test_sequence
  exec-IsBounded (show_state state) l v = ground arith
  exec-IsBounded (start_test now) l v = ground arith
  exec-IsBounded (configure c few) l v = record { few = few; animated = v.animated }
  exec-IsBounded (pass num_pixels now effect_now draw pixel) l v =
      loop-IsBounded draw pixel num_pixels now effect_now l v

  run-IsBounded : (cs : List Call) (l : Led) → IsBounded l → IsBounded (run cs l)
  unfolding run
  run-IsBounded [] l v = v
  run-IsBounded (c ∷ cs) l v = run-IsBounded cs (exec c l) (exec-IsBounded c l v)

  new-IsBounded : IsBounded new
  unfolding new
  new-IsBounded = ground arith

  -- Whatever is asked of the strip, with settings of fewer than 65536 LEDs, and whatever its passes
  -- read, the animation's step stays from -3 to 65542, so it never overflows.
  pub run-IsAnimated : (cs : List Call) → IsAnimated (run cs new).anim_step (run cs new).anim_dir
  run-IsAnimated cs = (run-IsBounded cs new new-IsBounded).animated
