-- ===== src/Led/Effects.antt =====
-- The frames of the effects that depend on the step and the direction only.
use evse_sync_charge.Base.{
  ℕ, ◌+◌, ◌-◌, ◌*◌, ◌/◌, ◌%◌, ◌==◌, Bool, true, false, not, ◌&&◌, ◌||◌, List, [], ◌∷◌, ◌++◌, ℤ, pos,
  negsuc, leb, at_least, above, at_most, plus, minus, if◌then◌else◌,
}
use evse_sync_charge.Led.Strip.{
  StripCall, set_pixel, clear, show, wait, Frame, pixels_from, pixels, set_all, wheel, each_channel,
  rainbow_position,
}

-- (uint8_t)((channel * step) >> 8); the shift of a negative number rounds down.
unfoldable pub breathed : ℕ → ℤ → ℕ
breathed channel (pos n) = channel * n / 256 % 256
breathed channel (negsuc n) = (256 - (channel * (n + 1) + 255) / 256 % 256) % 256

-- (i + step) % 3 == 0, and i % 3 == (step / 10) % 3; division rounds to 0.
abbrev pub third : ℤ → Bool
third (pos n) = n % 3 == 0
third (negsuc n) = (n + 1) % 3 == 0

abbrev pub same_third : ℕ → ℤ → Bool
same_third i (pos n) = i % 3 == n / 10 % 3
same_third i (negsuc n) = (n + 1) / 10 % 3 == 0 && i % 3 == 0

-- abs(i - center)
abbrev pub distance : ℕ → ℕ → ℕ
distance i center = if leb center i then i - center else center - i

-- step - distance * 30, and 0 if that is negative.
abbrev pub pulse_brightness : ℤ → ℕ → ℕ
pulse_brightness (pos n) d = n - d * 30
pulse_brightness (negsuc n) d = 0

module _ (pack_color : ℕ → ℕ → ℕ → ℕ) where
  unfoldable pub blink : ℕ → ℕ → ℤ → Bool → Frame
  unfolding set_all
  blink c n step dir =
      let lit = at_least step 1 || not (at_least step 0) in
      record {
        calls = set_all n (if lit then 0 else c);
        step = if lit then pos 0 else pos 1;
        dir = dir;
      }

  unfoldable pub breath : ℕ → ℕ → ℤ → Bool → Frame
  unfolding set_all breathed
  breath c n step dir =
      let moved = if dir then plus step 2 else minus step 2 in
      record {
        calls = set_all n (each_channel pack_color (λ channel. breathed channel moved) c);
        step = moved;
        dir = if at_most moved 5 then true else if at_least moved 255 then false else dir;
      }

  unfoldable pub rainbow : ℕ → ℕ → ℤ → Bool → Frame
  unfolding wheel
  rainbow c n step dir =
      let moved = if above (plus step 1) 255 then pos 0 else plus step 1 in
      record {
        calls =
            pixels n (λ i. set_pixel (pos i) (wheel pack_color (rainbow_position i n moved)) ∷ [])
            ++ (show ∷ []);
        step = moved;
        dir = dir;
      }

  -- What trails the light: a pixel at a quarter of the brightness.
  abbrev pub trail : ℕ → ℕ → ℤ → Bool → List StripCall
  trail c n step dir =
      let quarter = each_channel pack_color (λ channel. channel / 4) c in
      if dir && above step 0
      then set_pixel (minus step 1) quarter ∷ []
      else if not dir && not (at_least (plus step 1) n)
      then set_pixel (plus step 1) quarter ∷ []
      else []

  unfoldable pub knight_rider : ℕ → ℕ → ℤ → Bool → Frame
  knight_rider c n step dir =
      let moved = if dir then plus step 1 else minus step 1 in
      let turned =
        if at_most moved 0 then true else if at_least (plus moved 1) n then false else dir in
      record {
        calls = clear ∷ set_pixel moved c ∷ (trail c n moved turned ++ (show ∷ []));
        step = moved;
        dir = turned;
      }

  unfoldable pub chase : ℕ → ℕ → ℤ → Bool → Frame
  chase c n step dir =
      let moved = if at_least (plus step 1) n then pos 0 else plus step 1 in
      record { calls = clear ∷ set_pixel moved c ∷ show ∷ []; step = moved; dir = dir }

  unfoldable pub theater_chase : ℕ → ℕ → ℤ → Bool → Frame
  theater_chase c n step dir = record {
    calls =
        clear
        ∷ (pixels n (λ i. if third (plus step i) then set_pixel (pos i) c ∷ [] else [])
            ++ (show ∷ []));
    step = if at_least (plus step 1) 3 then pos 0 else plus step 1;
    dir = dir;
  }

  unfoldable pub color_wipe : ℕ → ℕ → ℤ → Bool → Frame
  color_wipe c n step dir =
      let full = at_least (plus step 1) n in
      record {
        calls = set_pixel step c ∷ show ∷ (if full then wait 300 ∷ clear ∷ [] else []);
        step = if full then pos 0 else plus step 1;
        dir = dir;
      }

  unfoldable pub rainbow_chase : ℕ → ℕ → ℤ → Bool → Frame
  unfolding wheel
  rainbow_chase c n step dir =
      let moved = if above (plus step 1) 255 then pos 0 else plus step 1 in
      record {
        calls =
            pixels n (λ i.
              set_pixel (pos i)
                (if same_third i moved then wheel pack_color (rainbow_position i n moved) else 0)
              ∷ [])
            ++ (show ∷ []);
        step = moved;
        dir = dir;
      }

  -- Pixel j of the tail.
  abbrev pub tail_pixel : ℕ → ℤ → ℕ → List StripCall
  tail_pixel c step j =
      let at = minus step j in
      if at_least at 0
      then set_pixel at (each_channel pack_color (λ channel. channel / (j + 1)) c) ∷ []
      else []

  unfoldable pub comet : ℕ → ℕ → ℤ → Bool → Frame
  comet c n step dir =
      let done = at_least (plus step 1) (n + 5) in
      record {
        calls =
            clear
            ∷ set_pixel step c
            ∷ (pixels_from 1 4 (tail_pixel c step)
                ++ (if done then wait 200 ∷ show ∷ [] else show ∷ []));
        step = if done then pos 0 else plus step 1;
        dir = dir;
      }

  unfoldable pub pulse : ℕ → ℕ → ℤ → Bool → Frame
  pulse c n step dir =
      let moved = if dir then plus step 3 else minus step 3 in
      record {
        calls =
            pixels n (λ i.
              let brightness = pulse_brightness moved (distance i (n / 2)) in
              set_pixel (pos i)
                (each_channel pack_color (λ channel. channel * brightness / 255 % 256) c)
              ∷ [])
            ++ (show ∷ []);
        step = moved;
        dir = if at_most moved 0 then true else if at_least moved 255 then false else dir;
      }
