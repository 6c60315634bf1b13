-- ===== src/Rfid/Hex.antt =====
-- `uidToHexString`: a card's identifier as a text, given as the list of its hexadecimal digits.
use evse_sync_charge.Base.{
  ℕ, ◌+◌, ◌*◌, ◌/◌, ◌%◌, ◌≡◌, refl, sym, ◌∙◌, ap, List, [], ◌∷◌, ltb, length, arith, if◌then◌else◌,
}

-- The digits of `String(b, HEX)`, after the "0" that is put before a single one, then the others'.
unfoldable pub uid_to_hex_string : List ℕ → List ℕ
uid_to_hex_string [] = []
uid_to_hex_string (b ∷ bs) =
    let rest = uid_to_hex_string bs in if ltb b 16 then 0 ∷ b ∷ rest else b / 16 ∷ b % 16 ∷ rest

-- Two digits a byte.
unfoldable pub bytes_of : List ℕ → List ℕ
bytes_of [] = []
bytes_of (h ∷ []) = []
bytes_of (h ∷ l ∷ rest) = (h * 16 + l) ∷ bytes_of rest

hex-bytes : (bs : List ℕ) → bytes_of (uid_to_hex_string bs) ≡ bs
unfolding bytes_of uid_to_hex_string
hex-bytes [] = refl
hex-bytes (b ∷ bs) = ground (arith, hex-bytes bs)

length-hex : (bs : List ℕ) → length (uid_to_hex_string bs) ≡ 2 * length bs
unfolding uid_to_hex_string
length-hex [] = refl
length-hex (b ∷ bs) = ground (arith, length-hex bs)

-- Two cards whose identifiers have different bytes, or different numbers of bytes, have different
-- texts, and the text has two digits a byte.
pub uid_to_hex_string_lem :
    (xs ys : List ℕ)
    → (uid_to_hex_string xs ≡ uid_to_hex_string ys → xs ≡ ys)
      × (length (uid_to_hex_string xs) ≡ 2 * length xs)
uid_to_hex_string_lem xs ys =
    (λ e. sym (hex-bytes xs) ∙ ap bytes_of e ∙ hex-bytes ys, length-hex xs)
