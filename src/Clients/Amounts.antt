-- ===== src/Clients/Amounts.antt =====
-- The amounts that `pos_service/clients/windcave.py` writes.
use hightower_pos.Prelude.{◌≡◌, ap, Option, none, some, arith}
use hightower_pos.Prelude.Int.{ℤ, pos, negsuc, ◌<ℤ◌}
use hightower_pos.Prelude.Text.{Text}
use hightower_pos.Prelude.Digits.{spelled_after, spelled-two_decimals}
use hightower_pos.Clients.Windcave.{format_amount}

-- The text of an amount reads back as the amount; a negative amount has none.
abbrev pub IsSpelled : ℤ → Option Text → Type 0
IsSpelled amount_cents none = amount_cents <ℤ pos 0
IsSpelled amount_cents (some text) = pos (spelled_after 0 text) ≡ amount_cents

-- An amount of cents is written so that its digits read back as the cents, and only a negative amount
-- is refused.
pub format_amount-IsSpelled :
    (amount_cents : ℤ) → IsSpelled amount_cents (format_amount amount_cents)
unfolding format_amount
format_amount-IsSpelled (pos n) = ap pos (spelled-two_decimals n)
format_amount-IsSpelled (negsuc n) = omega arith
