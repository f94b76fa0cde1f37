-- ===== src/Receipt/Format.antt =====
-- The lines of a receipt: `format_receipt`, `_cart_body_lines`, `_tender_lines` and
-- `_extract_windcave_receipt` of `pos_service/services/receipt.py`.
use hightower_pos.Prelude.{
  ℕ, zero, ◌*◌, Bool, true, false, Option, none, some, List, [], ◌∷◌, ◌++◌, if◌then◌else◌, take,
  ◌==◌, replicate,
}
use hightower_pos.Prelude.Int.{ℤ, pos, magnitude}
use hightower_pos.Prelude.Text.{Text, strip, codes}
use hightower_pos.Prelude.Digits.{show_ℕ, two_decimals}
use hightower_pos.Model.{RichLine, Tender, Txn, cash, card, Settings, is_card, is_refund_type}
use hightower_pos.Checkout.Pricing.{round_half_even}
use hightower_pos.Clients.Windcave.{XmlParser, child_text}
use hightower_pos.Receipt.{receipt_width, center, pad_pair, money, signed_money, decimal_text}
use hightower_pos.Receipt.Dates.{date_text, timestamp_text}

-- The part of `Settings` that only the receipt reads.
pub record StoreInfo : Type 0 where
  pub store_name : Text
  pub store_address_line_1 : Text
  pub store_address_line_2 : Text
  pub store_phone : Text

abbrev pub magnitude_money : ℤ → Text
magnitude_money cents = money (pos (magnitude cents))

-- `f"{sku} {name}".strip() if name else sku`
unfoldable pub line_header : (sku name : Text) → Text
line_header sku [] = sku
line_header sku (c ∷ name) = strip (sku ++ b' ' ∷ c ∷ name)

unfoldable pub cart_line_pair : (is_refund : Bool) → RichLine → Text
unfolding show_ℕ
cart_line_pair is_refund line =
    let right : Text =
      if is_refund
      then b'-' ∷ magnitude_money line.line_total_cents
      else money line.line_total_cents in
    let left : Text =
      codes "  Qty "
      ++ show_ℕ (magnitude line.quantity)
      ++ codes " @ $"
      ++ decimal_text line.unit_price_cents in
    pad_pair left right receipt_width

-- `_cart_body_lines`; the column is always filled.
unfoldable pub cart_body_lines : (is_refund : Bool) → List RichLine → List Text
unfolding line_header cart_line_pair
cart_body_lines is_refund [] = []
cart_body_lines is_refund (line ∷ cart) =
    take receipt_width (line_header line.sku line.name)
    ∷ cart_line_pair is_refund line
    ∷ cart_body_lines is_refund cart

-- `value or default` on a text.
unfoldable pub text_or : Option Text → Text → Text
text_or none default = default
text_or (some []) default = default
text_or (some (c ∷ text)) default = c ∷ text

unfoldable pub auth_lines : Option Text → List Text
auth_lines none = []
auth_lines (some []) = []
auth_lines (some (c ∷ auth)) = (codes "Auth: " ++ c ∷ auth) ∷ []

unfoldable pub card_lines : (is_refund : Bool) → Tender → List Text
unfolding text_or auth_lines
card_lines is_refund tender =
    let head : Text = if is_refund then codes "Refunded to: " else codes "Paid: " in
    (head
      ++ text_or tender.card_brand (codes "Card")
      ++ codes " ****"
      ++ text_or tender.card_last4 (codes "----"))
    ∷ auth_lines tender.auth_code

-- `tendered or default` on an amount.
unfoldable pub amount_or : Option ℤ → ℤ → ℤ
amount_or none default = default
amount_or (some (pos zero)) default = default
amount_or (some a) default = a

unfoldable pub cash_lines : (is_refund : Bool) → Tender → List Text
unfolding amount_or
cash_lines true tender =
    pad_pair (codes "Cash returned") (magnitude_money tender.amount_cents) receipt_width ∷ []
cash_lines false tender =
    pad_pair (codes "Cash tendered")
      (money (amount_or tender.amount_tendered_cents tender.amount_cents)) receipt_width
    ∷ pad_pair (codes "Change") (money (amount_or tender.change_cents (pos 0))) receipt_width
    ∷ []

unfoldable pub tender_lines : (is_refund : Bool) → List Tender → List Text
unfolding card_lines cash_lines
tender_lines is_refund [] = []
tender_lines is_refund (tender ∷ tenders) =
    let rest = tender_lines is_refund tenders in
    elim tender.method [
      | card ↦ card_lines is_refund tender ++ rest
      | cash ↦ cash_lines is_refund tender ++ rest
    ]

-- The receipt that Windcave sent, empty where there is none.
unfoldable pub extract_windcave_receipt : XmlParser → Text → Text
unfolding child_text
extract_windcave_receipt parse_xml xml = starting (strip xml)
  where
    starting : Text → Text
    starting [] = []
    starting (c ∷ rest) =
        if c == b'<'
        then elim (parse_xml xml) [ none ↦ [] | some findtext ↦ child_text findtext (codes "Rcpt") ]
        else []

-- The receipt of a card payment stands for the cart's lines, where there is one.
unfoldable pub body_lines : XmlParser → (is_refund : Bool) → Txn → List Text
unfolding extract_windcave_receipt cart_body_lines
body_lines parse_xml is_refund transaction =
    if is_card transaction.payment_method
    then windcave
        (extract_windcave_receipt parse_xml (text_or transaction.windcave_response_xml []))
    else cart_body_lines is_refund transaction.cart
  where
    windcave : Text → List Text
    windcave [] = cart_body_lines is_refund transaction.cart
    windcave (c ∷ rcpt) = (c ∷ rcpt) ∷ []

abbrev pub rule : ℕ → Text
rule c = replicate receipt_width c

-- `if text: out.append(_center(text))`
unfoldable pub centered_if : Text → List Text
centered_if [] = []
centered_if (c ∷ text) = center (c ∷ text) receipt_width ∷ []

unfoldable pub header_lines : StoreInfo → List Text
unfolding centered_if
header_lines store =
    center store.store_name receipt_width ∷ centered_if store.store_address_line_1
    ++ centered_if store.store_address_line_2
    ++ centered_if store.store_phone
    ++ rule b'=' ∷ []

unfoldable pub original_lines : Option Txn → List Text
unfolding date_text
original_lines none = []
original_lines (some parent) =
    center (codes "Orig txn: " ++ take 12 parent.id) receipt_width
    ∷ center (codes "Orig date: " ++ date_text parent.created_at) receipt_width
    ∷ []

unfoldable pub refund_lines : (is_refund : Bool) → (parent : Option Txn) → List Text
unfolding original_lines
refund_lines false parent = []
refund_lines true parent =
    center (codes "REFUND") receipt_width ∷ original_lines parent ++ rule b'=' ∷ []

-- `f"({settings.tax_rate * 100:.2f}%)"`, exact for a rate of at most four decimals.
unfoldable pub rate_label : Settings → Text
unfolding two_decimals round_half_even
rate_label settings =
    b'(' ∷ two_decimals (round_half_even (settings.tax_rate_digits * 10000) settings.tax_rate_scale)
    ++ codes "%)"

unfoldable pub total_lines : (is_refund : Bool) → Settings → Txn → List Text
unfolding rate_label
total_lines true settings txn =
    pad_pair (codes "Refund subtotal") (signed_money txn.subtotal_cents) receipt_width
    ∷ pad_pair (codes "Refund tax " ++ rate_label settings) (signed_money txn.tax_cents)
        receipt_width
    ∷ rule b'-'
    ∷ pad_pair (codes "REFUND TOTAL") (signed_money txn.total_cents) receipt_width
    ∷ []
total_lines false settings txn =
    pad_pair (codes "Subtotal") (money txn.subtotal_cents) receipt_width
    ∷ pad_pair (codes "Tax " ++ rate_label settings) (money txn.tax_cents) receipt_width
    ∷ rule b'-'
    ∷ pad_pair (codes "TOTAL") (money txn.total_cents) receipt_width
    ∷ []

unfoldable pub footer_lines : (is_refund : Bool) → Txn → List Text
unfolding timestamp_text
footer_lines is_refund txn =
    let thanks : List Text =
      if is_refund then [] else center (codes "Thank you!") receipt_width ∷ [] in
    let label : Text = if is_refund then codes "Refund txn" else codes "Transaction" in
    rule b'=' ∷ thanks
    ++ center (label ++ codes ": " ++ take 12 txn.id) receipt_width
      ∷ center (timestamp_text txn.created_at) receipt_width
      ∷ []

abbrev pub stored_tenders : Option (List Tender) → List Tender
stored_tenders none = []
stored_tenders (some tenders) = tenders

unfoldable pub receipt_lines :
    XmlParser → Settings → StoreInfo → (parent : Option Txn) → Txn → List Text
unfolding header_lines refund_lines body_lines total_lines tender_lines footer_lines
receipt_lines parse_xml settings store parent txn =
    let is_refund = is_refund_type txn.txn_type in
    header_lines store
    ++ refund_lines is_refund parent
    ++ body_lines parse_xml is_refund txn
    ++ rule b'-' ∷ total_lines is_refund settings txn
    ++ [] ∷ tender_lines is_refund (stored_tenders txn.tenders)
    ++ footer_lines is_refund txn

-- `"\n".join(out)`
unfoldable pub join_lines : List Text → Text
join_lines [] = []
join_lines (line ∷ []) = line
join_lines (line ∷ next ∷ lines) = line ++ b'\n' ∷ join_lines (next ∷ lines)

unfoldable pub format_receipt :
    XmlParser → Settings → StoreInfo → (parent : Option Txn) → Txn → Text
unfolding receipt_lines join_lines
format_receipt parse_xml settings store parent txn =
    join_lines (receipt_lines parse_xml settings store parent txn)
