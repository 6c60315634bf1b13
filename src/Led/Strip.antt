-- ===== src/Led/Strip.antt =====
-- The calls of the strip's driver, `setAll`, `getColor` and `Wheel`. The driver's `Color`, which packs
-- three channels into a number, is the section parameter `pack_color`.
use evse_sync_charge.Base.{
  ℕ, zero, suc, ◌+◌, ◌-◌, ◌*◌, ◌/◌, ◌%◌, ◌==◌, Bool, List, [], ◌∷◌, ◌++◌, ℤ, pos, ltb, plus, to_u8,
  if◌then◌else◌,
}
use evse_sync_charge.Led.{
  col_red, col_green, col_blue, col_yellow, col_cyan, col_magenta, col_white, col_orange,
  col_purple, col_pink, col_teal, col_lime, col_indigo, col_warm_white,
}

-- A call of the driver, or a delay() in milliseconds.
pub data StripCall : Type 0 where
  set_pixel : ℤ → ℕ → StripCall
  clear show : StripCall
  wait : ℕ → StripCall

-- What an effect does at one of its frames: the calls, and the step and the direction after it.
pub record Frame : Type 0 where
  pub calls : List StripCall
  pub step : ℤ
  pub dir : Bool

-- The calls for so many pixels from i on.
unfoldable pub pixels_from : ℕ → ℕ → (ℕ → List StripCall) → List StripCall
pixels_from i zero f = []
pixels_from i (suc n) f = f i ++ pixels_from (i + 1) n f

abbrev pub pixels : ℕ → (ℕ → List StripCall) → List StripCall
pixels n f = pixels_from 0 n f

unfoldable pub set_all : ℕ → ℕ → List StripCall
set_all n color = pixels n (λ i. set_pixel (pos i) color ∷ []) ++ (show ∷ [])

-- (i * 256 / n + step) & 255
abbrev pub rainbow_position : ℕ → ℕ → ℤ → ℕ
rainbow_position i n step = to_u8 (plus step (i * 256 / n))

module _ (pack_color : ℕ → ℕ → ℕ → ℕ) where
  unfoldable pub get_color : ℕ → ℕ
  get_color c =
      if c == col_red
      then pack_color 255 0 0
      else if c == col_green
      then pack_color 0 255 0
      else if c == col_blue
      then pack_color 0 0 255
      else if c == col_yellow
      then pack_color 255 200 0
      else if c == col_cyan
      then pack_color 0 255 255
      else if c == col_magenta
      then pack_color 255 0 255
      else if c == col_white
      then pack_color 255 255 255
      else if c == col_orange
      then pack_color 255 140 0
      else if c == col_purple
      then pack_color 128 0 128
      else if c == col_pink
      then pack_color 255 105 180
      else if c == col_teal
      then pack_color 0 128 128
      else if c == col_lime
      then pack_color 50 205 50
      else if c == col_indigo
      then pack_color 75 0 130
      else if c == col_warm_white
      then pack_color 255 220 150
      else 0

  -- The position is a byte.
  unfoldable pub wheel : ℕ → ℕ
  wheel position =
      let w = 255 - position in
      if ltb w 85
      then pack_color (255 - w * 3) 0 (w * 3)
      else if ltb w 170
      then pack_color 0 ((w - 85) * 3) (255 - (w - 85) * 3)
      else pack_color ((w - 170) * 3) (255 - (w - 170) * 3) 0

  -- Each channel of the colour c, (c >> 16) & 0xFF, (c >> 8) & 0xFF and c & 0xFF, changed by f.
  abbrev pub each_channel : (ℕ → ℕ) → ℕ → ℕ
  each_channel f c = pack_color (f (c / 65536 % 256)) (f (c / 256 % 256)) (f (c % 256))
