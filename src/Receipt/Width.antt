-- ===== src/Receipt/Width.antt =====
-- The width of whole receipts of `pos_service/services/receipt.py`.
use hightower_pos.Prelude.{
  ℕ, zero, suc, ◌≤◌, ◌≡◌, refl, Bool, true, false, Option, none, some, List, [], ◌∷◌, ◌++◌, arith,
  length, length-take, length-replicate, All, if-cases,
}
use hightower_pos.Prelude.Int.{ℤ, pos, negsuc, magnitude}
use hightower_pos.Prelude.Text.{Text}
use hightower_pos.Model.{RichLine, Tender, Txn, cash, Settings, is_card, is_refund_type}
use hightower_pos.Clients.Windcave.{XmlParser}
use hightower_pos.Receipt.{receipt_width, center, pad_pair, money, signed_money}
use hightower_pos.Receipt.Layout.{
  length-center, pad_pair-fits, IsSmall, length-money, length-signed_money,
}
use hightower_pos.Receipt.Format.{
  StoreInfo, magnitude_money, cart_line_pair, cart_body_lines, cash_lines, tender_lines, body_lines,
  rule, centered_if, header_lines, original_lines, refund_lines, total_lines, footer_lines,
  stored_tenders, receipt_lines, amount_or, line_header,
}

pub record Fits (line : Text) : Type 0 where
  pub short : length line ≤ receipt_width

abbrev pub AllFit : List Text → Type 0
AllFit lines = All Fits lines

append-AllFit : (xs ys : List Text) → AllFit xs → AllFit ys → AllFit (xs ++ ys)
append-AllFit [] ys hx hy = hy
append-AllFit (x ∷ xs) ys hx hy = (hx.0, append-AllFit xs ys hx.1 hy)

center-Fits : (text : Text) → Fits (center text receipt_width)
center-Fits text = record { short = length-center text receipt_width }

pair-Fits : (left right : Text) → length right ≤ 16 → Fits (pad_pair left right receipt_width)
pair-Fits left right h = record {
  short = omega (arith, (pad_pair-fits left right receipt_width (omega (arith, h))).0);
}

money-Fits :
    (left : Text) (cents : ℤ) → IsSmall cents → Fits (pad_pair left (money cents) receipt_width)
money-Fits left cents h = pair-Fits left (money cents) (omega (arith, length-money cents h))

signed-Fits :
    (left : Text) (cents : ℤ)
    → IsSmall cents
    → Fits (pad_pair left (signed_money cents) receipt_width)
signed-Fits left cents h =
    pair-Fits left (signed_money cents) (omega (arith, length-signed_money cents h))

abs_IsSmall : (cents : ℤ) → IsSmall cents → IsSmall (pos (magnitude cents))
abs_IsSmall cents h = omega (arith, h)

rule-Fits : (c : ℕ) → Fits (rule c)
rule-Fits c = record { short = omega (arith, length-replicate 30 c) }

cart_line_pair-Fits :
    (is_refund : Bool) (line : RichLine)
    → IsSmall line.line_total_cents
    → Fits (cart_line_pair is_refund line)
unfolding cart_line_pair
cart_line_pair-Fits true line h = pair-Fits _ (b'-' ∷ magnitude_money line.line_total_cents) (
    omega (
      arith,
      length-money (pos (magnitude line.line_total_cents)) (abs_IsSmall line.line_total_cents h),
    ))
cart_line_pair-Fits false line h = money-Fits _ line.line_total_cents h

cart_body_lines-AllFit :
    (is_refund : Bool) (cart : List RichLine)
    → All (λ line. IsSmall line.line_total_cents) cart
    → AllFit (cart_body_lines is_refund cart)
unfolding cart_body_lines
cart_body_lines-AllFit is_refund [] h = tt
cart_body_lines-AllFit is_refund (line ∷ cart) h = (
  record { short = omega (arith, length-take 30 (line_header line.sku line.name)) },
  (cart_line_pair-Fits is_refund line h.0, cart_body_lines-AllFit is_refund cart h.1),
)

-- Cash, with amounts that are small.
pub record IsCashTender (t : Tender) : Type 0 where
  pub method_cash : t.method ≡ cash
  pub small : IsSmall t.amount_cents
  pub tendered_small : (a : ℤ) → t.amount_tendered_cents ≡ some a → IsSmall a
  pub change_small : (a : ℤ) → t.change_cents ≡ some a → IsSmall a

amount_or-IsSmall :
    (o : Option ℤ) (d : ℤ)
    → ((a : ℤ) → o ≡ some a → IsSmall a)
    → IsSmall d
    → IsSmall (amount_or o d)
unfolding amount_or
amount_or-IsSmall none d h hd = hd
amount_or-IsSmall (some (pos zero)) d h hd = hd
amount_or-IsSmall (some (pos (suc n))) d h hd = h (pos (suc n)) refl
amount_or-IsSmall (some (negsuc n)) d h hd = h (negsuc n) refl

cash_lines-AllFit :
    (is_refund : Bool) (t : Tender) → IsCashTender t → AllFit (cash_lines is_refund t)
unfolding cash_lines
cash_lines-AllFit true t h =
    (money-Fits _ (pos (magnitude t.amount_cents)) (abs_IsSmall t.amount_cents h.small), tt)
cash_lines-AllFit false t h = (
  money-Fits _ (amount_or t.amount_tendered_cents t.amount_cents)
      (amount_or-IsSmall t.amount_tendered_cents t.amount_cents h.tendered_small h.small),
  (
    money-Fits _ (amount_or t.change_cents (pos 0))
        (amount_or-IsSmall t.change_cents (pos 0) h.change_small (omega arith)),
    tt,
  ),
)

tender_lines-AllFit :
    (is_refund : Bool) (tenders : List Tender)
    → All IsCashTender tenders
    → AllFit (tender_lines is_refund tenders)
unfolding tender_lines
tender_lines-AllFit is_refund [] h = tt
tender_lines-AllFit is_refund (t ∷ tenders) h =
    rw (tender_lines, h.0.method_cash)
      (append-AllFit (cash_lines is_refund t) (tender_lines is_refund tenders)
        (cash_lines-AllFit is_refund t h.0) (tender_lines-AllFit is_refund tenders h.1))

body_lines-AllFit :
    (parse_xml : XmlParser) (is_refund : Bool) (txn : Txn)
    → is_card txn.payment_method ≡ false
    → All (λ line. IsSmall line.line_total_cents) txn.cart
    → AllFit (body_lines parse_xml is_refund txn)
unfolding body_lines
body_lines-AllFit parse_xml is_refund txn not_card h =
    if-cases AllFit (is_card txn.payment_method) _ _ (λ is. cc (not_card))
      (λ _. cart_body_lines-AllFit is_refund txn.cart h)

centered_if-AllFit : (text : Text) → AllFit (centered_if text)
unfolding centered_if
centered_if-AllFit [] = tt
centered_if-AllFit (c ∷ text) = (center-Fits (c ∷ text), tt)

header_lines-AllFit : (store : StoreInfo) → AllFit (header_lines store)
unfolding header_lines
header_lines-AllFit store =
    let top : List Text =
      center store.store_name receipt_width ∷ centered_if store.store_address_line_1 in
    let address = top ++ centered_if store.store_address_line_2 in
    append-AllFit (address ++ centered_if store.store_phone) (rule b'=' ∷ [])
      (append-AllFit address (centered_if store.store_phone)
        (append-AllFit top (centered_if store.store_address_line_2)
          (center-Fits store.store_name, centered_if-AllFit store.store_address_line_1)
          (centered_if-AllFit store.store_address_line_2))
        (centered_if-AllFit store.store_phone))
      (rule-Fits b'=', tt)

original_lines-AllFit : (parent : Option Txn) → AllFit (original_lines parent)
unfolding original_lines
original_lines-AllFit none = tt
original_lines-AllFit (some parent) = (center-Fits _, (center-Fits _, tt))

refund_lines-AllFit :
    (is_refund : Bool) (parent : Option Txn) → AllFit (refund_lines is_refund parent)
unfolding refund_lines
refund_lines-AllFit false parent = tt
refund_lines-AllFit true parent = (
  center-Fits _,
  append-AllFit (original_lines parent) (rule b'=' ∷ []) (original_lines-AllFit parent)
      (rule-Fits b'=', tt),
)

total_lines-AllFit :
    (is_refund : Bool) (settings : Settings) (txn : Txn)
    → IsSmall txn.subtotal_cents
    → IsSmall txn.tax_cents
    → IsSmall txn.total_cents
    → AllFit (total_lines is_refund settings txn)
unfolding total_lines
total_lines-AllFit true settings txn hs ht hv = (
  signed-Fits _ txn.subtotal_cents hs,
  (signed-Fits _ txn.tax_cents ht, (rule-Fits b'-', (signed-Fits _ txn.total_cents hv, tt))),
)
total_lines-AllFit false settings txn hs ht hv = (
  money-Fits _ txn.subtotal_cents hs,
  (money-Fits _ txn.tax_cents ht, (rule-Fits b'-', (money-Fits _ txn.total_cents hv, tt))),
)

footer_lines-AllFit : (is_refund : Bool) (txn : Txn) → AllFit (footer_lines is_refund txn)
unfolding footer_lines
footer_lines-AllFit true txn = (rule-Fits b'=', (center-Fits _, (center-Fits _, tt)))
footer_lines-AllFit false txn =
    (rule-Fits b'=', (center-Fits _, (center-Fits _, (center-Fits _, tt))))

-- No line of the receipt of a cash sale or a cash refund is longer than 30 characters, whatever its
-- texts are, if its amounts are less than ten billion.
pub receipt_lines-AllFit :
    (parse_xml : XmlParser) (settings : Settings) (store : StoreInfo) (parent : Option Txn)
    (txn : Txn)
    → is_card txn.payment_method ≡ false
    → All (λ line. IsSmall line.line_total_cents) txn.cart
    → IsSmall txn.subtotal_cents
    → IsSmall txn.tax_cents
    → IsSmall txn.total_cents
    → All IsCashTender (stored_tenders txn.tenders)
    → AllFit (receipt_lines parse_xml settings store parent txn)
unfolding receipt_lines
receipt_lines-AllFit parse_xml settings store parent txn not_card cart hs ht hv tenders =
    let is_refund = is_refund_type txn.txn_type in
    let head = header_lines store ++ refund_lines is_refund parent in
    let body = head ++ body_lines parse_xml is_refund txn in
    let totals = body ++ rule b'-' ∷ total_lines is_refund settings txn in
    let paid = totals ++ [] ∷ tender_lines is_refund (stored_tenders txn.tenders) in
    append-AllFit paid (footer_lines is_refund txn)
      (append-AllFit totals ([] ∷ tender_lines is_refund (stored_tenders txn.tenders))
        (append-AllFit body (rule b'-' ∷ total_lines is_refund settings txn)
          (append-AllFit head (body_lines parse_xml is_refund txn)
            (append-AllFit (header_lines store) (refund_lines is_refund parent)
              (header_lines-AllFit store) (refund_lines-AllFit is_refund parent))
            (body_lines-AllFit parse_xml is_refund txn not_card cart))
          (rule-Fits b'-', total_lines-AllFit is_refund settings txn hs ht hv))
        (
          record { short = omega arith },
          tender_lines-AllFit is_refund (stored_tenders txn.tenders) tenders,
        ))
      (footer_lines-AllFit is_refund txn)
