-- ===== src/Receipt.antt =====
-- The receipt text of `pos_service/services/receipt.py`: this module lays out single lines.
pub mod Dates
pub mod Format
pub mod Layout
pub mod Width
pub mod Status
mod Tests
use hightower_pos.Prelude.{
  ℕ, ◌+◌, ◌-◌, ◌*◌, ◌/◌, ◌%◌, Bool, true, false, ◌&&◌, List, [], ◌∷◌, ◌++◌, if◌then◌else◌, ltb, leb,
  ◌==◌, take, length, replicate,
}
use hightower_pos.Prelude.Int.{ℤ, pos, negsuc, magnitude, ltb_ℤ}
use hightower_pos.Prelude.Text.{Text, strip, codes}
use hightower_pos.Prelude.Digits.{two_decimals}

abbrev pub receipt_width : ℕ
receipt_width = 30

abbrev pub spaces : ℕ → Text
spaces n = replicate n b' '

-- `text.center(width)` where the text is shorter: the odd space goes left only if the width is odd.
unfoldable pub centered : Text → (width : ℕ) → Text
centered text width =
    let pad = width - length text in
    let left = pad / 2 + pad % 2 * (width % 2) in spaces left ++ text ++ spaces (pad - left)

unfoldable pub center : Text → (width : ℕ) → Text
unfolding centered
center text width =
    if leb width (length (strip text)) then take width (strip text) else centered (strip text) width

unfoldable pub pad_pair : (left right : Text) (width : ℕ) → Text
pad_pair left right width =
    if ltb width (length left + length right + 1)
    then take (width - length right - 1) left ++ b' ' ∷ right
    else left ++ spaces (width - length left - length right) ++ right

-- `f"{cents / 100:.2f}"`
unfoldable pub decimal_text : ℤ → Text
unfolding two_decimals
decimal_text (pos cents) = two_decimals cents
decimal_text (negsuc n) = b'-' ∷ two_decimals (n + 1)

unfoldable pub money : ℤ → Text
unfolding decimal_text
money cents = b'$' ∷ decimal_text cents

-- `_money(cents, signed=True)`
unfoldable pub signed_money : ℤ → Text
unfolding money two_decimals
signed_money (pos cents) = money (pos cents)
signed_money (negsuc n) = b'-' ∷ b'$' ∷ two_decimals (n + 1)
