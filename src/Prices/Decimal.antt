-- ===== src/Prices/Decimal.antt =====
-- `decimal.Decimal` as `import_csv` of `pos_service/services/pricing.py` uses it, in the default context
-- of 28 digits: reading a text, `price * 100`, and `quantize(Decimal("1"), rounding=ROUND_HALF_UP)`.
-- Of the digits of other scripts, which Python accepts too, only the ASCII ones are read.
use hightower_pos.Prelude.{
  ℕ, ◌+◌, ◌-◌, ◌*◌, ◌/◌, ◌^◌, Bool, true, false, ◌&&◌, ◌||◌, Option, none, some, [], ◌∷◌,
  if◌then◌else◌, ltb, leb, ◌==◌, length, take, drop,
}
use hightower_pos.Prelude.Int.{ℤ, pos, negsuc, neg, ◌-ℤ◌, ◌+ℤ◌}
use hightower_pos.Prelude.Text.{Text, codes, text_eq, strip}
use hightower_pos.Prelude.Digits.{show_ℕ}
use hightower_pos.Checkout.Pricing.{round_half_even}

-- A number is `coefficient * 10 ^ exponent` with a sign.
pub data Decimal : Type 0 where
  finite : (is_negative : Bool) (coefficient : ℕ) (exponent : ℤ) → Decimal
  infinite : (is_negative : Bool) → Decimal
  nan : Decimal

abbrev pub is_digit : ℕ → Bool
is_digit c = leb b'0' c && leb c b'9'

-- The digits at the head of a text: how many, the number that they spell after `n`, and what is left.
pub record Digits : Type 0 where
  pub count : ℕ
  pub value : ℕ
  pub rest : Text

unfoldable pub take_digits : (count n : ℕ) → Text → Digits
take_digits count n [] = record { count = count; value = n; rest = [] }
take_digits count n (c ∷ text) =
    let more = take_digits (count + 1) (n * 10 + (c - b'0')) text in
    if is_digit c then more else record { count = count; value = n; rest = c ∷ text }

-- `lower` of a letter of the words that are read.
abbrev pub lower_char : ℕ → ℕ
lower_char c = if leb b'A' c && leb c b'Z' then c + 32 else c

abbrev pub lower : Text → Text
lower [] = []
lower (c ∷ text) = lower_char c ∷ lower text

-- The exponent after the digits: none, or `E` with a sign and digits to the end.
unfoldable pub read_exponent : Text → Option ℤ
unfolding take_digits
read_exponent [] = some (pos 0)
read_exponent (c ∷ text) = if lower_char c == b'e' then signed text else none
  where
    whole : (is_negative : Bool) → Digits → Option ℤ
    whole is_negative d = elim d.rest [
      | [] ↦
          if d.count == 0
          then none
          else some (if is_negative then neg (pos d.value) else pos d.value)
      | c ∷ t ↦ none
    ]

    signed : Text → Option ℤ
    signed [] = none
    signed (c ∷ text) =
        if c == b'-'
        then whole true (take_digits 0 0 text)
        else if c == b'+'
        then whole false (take_digits 0 0 text)
        else whole false (take_digits 0 0 (c ∷ text))

-- Digits with an optional point, at least one digit in all, and an exponent.
unfoldable pub read_finite : (is_negative : Bool) → Text → Option Decimal
unfolding take_digits read_exponent
read_finite is_negative text = after_whole (take_digits 0 0 text)
  where
    finish : (count value fraction : ℕ) → Text → Option Decimal
    finish count value fraction rest = elim (read_exponent rest) [
      | none ↦ none
      | some e ↦ if count == 0 then none else some (finite is_negative value (e -ℤ pos fraction))
    ]

    after_point : (count value : ℕ) → Text → Option Decimal
    after_point count value text =
        let d = take_digits 0 value text in finish (count + d.count) d.value d.count d.rest

    after_whole : Digits → Option Decimal
    after_whole d = elim d.rest [
      | [] ↦ finish d.count d.value 0 []
      | c ∷ t ↦
          if c == b'.' then after_point d.count d.value t else finish d.count d.value 0 (c ∷ t)
    ]

-- `NaN` and `sNaN` with digits after them.
abbrev only_digits : Text → Bool
only_digits [] = true
only_digits (c ∷ text) = is_digit c && only_digits text

abbrev is_nan : Text → Bool
is_nan t =
    text_eq (take 3 t) (codes "nan") && only_digits (drop 3 t)
    || text_eq (take 4 t) (codes "snan") && only_digits (drop 4 t)

unfoldable pub read_unsigned : (is_negative : Bool) → Text → Option Decimal
unfolding read_finite
read_unsigned is_negative text =
    if text_eq (lower text) (codes "inf") || text_eq (lower text) (codes "infinity")
    then some (infinite is_negative)
    else if is_nan (lower text)
    then some nan
    else read_finite is_negative text

abbrev without_underscores : Text → Text
without_underscores [] = []
without_underscores (c ∷ text) =
    let rest = without_underscores text in if c == b'_' then rest else c ∷ rest

-- `Decimal(text)`: `none` is InvalidOperation.
unfoldable pub decimal : Text → Option Decimal
unfolding read_unsigned
decimal text = signed (without_underscores (strip text))
  where
    signed : Text → Option Decimal
    signed [] = none
    signed (c ∷ t) =
        if c == b'-'
        then read_unsigned true t
        else if c == b'+'
        then read_unsigned false t
        else read_unsigned false (c ∷ t)

-- The digits of a coefficient beyond the 28 of the context.
abbrev pub precision : ℕ
precision = 28

abbrev pub digit_count : ℕ → ℕ
digit_count n = length (show_ℕ n)

-- `n * 10 ^ e` rounded to the context's digits, halves to even.
unfoldable pub rounded : (coefficient : ℕ) (exponent : ℤ) → ℕ × ℤ
unfolding round_half_even
rounded coefficient exponent =
    let excess = digit_count coefficient - precision in
    if ltb precision (digit_count coefficient)
    then (round_half_even coefficient (10 ^ excess), exponent +ℤ pos excess)
    else (coefficient, exponent)

-- The nearest whole number to `n / d`, and the larger one at a half.
unfoldable pub round_half_up : (n d : ℕ) → ℕ
round_half_up n d = (2 * n + d) / (2 * d)

-- `int(x.quantize(Decimal("1"), rounding=ROUND_HALF_UP))` of a number that is not negative: `none` is
-- InvalidOperation, for a result of more digits than the context has.
unfoldable pub whole_number : ℕ × ℤ → Option ℕ
unfolding round_half_up
whole_number (coefficient, pos e) =
    if ltb precision (digit_count (coefficient * 10 ^ e)) then none else some (coefficient * 10 ^ e)
whole_number (coefficient, negsuc e) = some (round_half_up coefficient (10 ^ (e + 1)))

-- `int((price * 100).quantize(...))`
unfoldable pub to_cents : (coefficient : ℕ) (exponent : ℤ) → Option ℕ
unfolding rounded whole_number
to_cents coefficient exponent =
    let (n, e) = rounded (coefficient * 100) exponent in whole_number (n, e)
