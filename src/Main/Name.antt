-- ===== src/Main/Name.antt =====
-- The device's name, which `setup` makes of the chip's identifier. Texts are lists of bytes.
use evse_sync_charge.Base.{
  ℕ, ◌+◌, ◌-◌, ◌*◌, ◌/◌, ◌%◌, ◌^◌, ◌<◌, ◌≡◌, refl, sym, ap, ◌∙◌, List, [], ◌∷◌, ◌++◌, ltb, length,
  arith, if◌then◌else◌,
}

-- A digit of %X.
abbrev digit : ℕ → ℕ
digit d = if ltb d 10 then 48 + d else 55 + d

-- %02X of a byte.
unfoldable pub hex_byte : ℕ → List ℕ
hex_byte b = digit (b / 16) ∷ digit (b % 16) ∷ []

-- `devName`, from EVSE- on, of the upper three of the identifier's six bytes.
unfoldable pub device_name : ℕ → List ℕ
unfolding hex_byte
device_name chipid =
    (69 ∷ 86 ∷ 83 ∷ 69 ∷ 45 ∷ [])
    ++ (hex_byte (chipid / 2 ^ 24 % 256)
        ++ (hex_byte (chipid / 2 ^ 32 % 256) ++ hex_byte (chipid / 2 ^ 40 % 256)))

-- What a digit stands for.
abbrev value : ℕ → ℕ
value c = if ltb c 58 then c - 48 else c - 55

value-digit : (d : ℕ) → value (digit d) ≡ d
value-digit d = ground arith

byte_of : ℕ → ℕ → ℕ
byte_of h l = value h * 16 + value l

byte_of-hex : (b : ℕ) → byte_of (digit (b / 16)) (digit (b % 16)) ≡ b
unfolding byte_of
byte_of-hex b = let high = value-digit (b / 16) in let low = value-digit (b % 16) in omega arith

-- The upper three bytes of the identifier, read back from a name.
abbrev upper_half : List ℕ → ℕ
upper_half (x1 ∷ x2 ∷ x3 ∷ x4 ∷ x5 ∷ a ∷ b ∷ c ∷ d ∷ e ∷ f ∷ []) =
    byte_of a b + byte_of c d * 256 + byte_of e f * 65536
upper_half name = 0

upper_half-name : (n : ℕ) → n < 2 ^ 48 → upper_half (device_name n) ≡ n / 2 ^ 24
unfolding device_name hex_byte
upper_half-name n h =
    rw
      (
        byte_of-hex (n / 2 ^ 24 % 256),
        byte_of-hex (n / 2 ^ 32 % 256),
        byte_of-hex (n / 2 ^ 40 % 256),
      )
      (omega arith)

-- Chips whose identifiers of 48 bits differ in the upper half get different names, and every name has
-- 11 characters.
pub device_name_lem :
    (m n : ℕ)
    → m < 2 ^ 48
    → n < 2 ^ 48
    → (device_name m ≡ device_name n → m / 2 ^ 24 ≡ n / 2 ^ 24) × (length (device_name m) ≡ 11)
unfolding device_name hex_byte
device_name_lem m n h k =
    (λ e. sym (upper_half-name m h) ∙ ap upper_half e ∙ upper_half-name n k, refl)
