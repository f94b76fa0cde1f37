-- ===== src/Checkout/Pricing.antt =====
-- Starting a sale: `compute_line_tax` and `start_checkout` of `pos_service/services/checkout.py`, and
-- `get_price_cents` of `pos_service/services/pricing.py`.
use hightower_pos.Prelude.{
  ℕ, ◌+◌, ◌*◌, ◌/◌, ◌%◌, Bool, true, false, Option, none, some, List, [], ◌∷◌, ◌++◌, map, ltb, ◌==◌,
  if◌then◌else◌, or_else, is_some,
}
use hightower_pos.Prelude.Int.{ℤ, pos, neg, ◌+ℤ◌, ◌*ℤ◌, magnitude, ltb_ℤ}
use hightower_pos.Prelude.Text.{Text, text_eq}
use hightower_pos.Table
use hightower_pos.Model.{
  pending_validation, validation_failed, awaiting_payment, sale, RichLine, Txn, Price, Settings,
  Env, Services, Reply, returned, failed, crashed, ValidationResult, CartLine,
  sentry_unavailable_error, conflicts_error, price_key, Action, pure, raise, raise_if, gets, modify,
  ◌>>=◌, ◌>>◌, price_missing, sentry_unavailable, validation_failed_error, unhandled_exception,
  save_txn, add_txn, call, validate_cart, or_text,
}

-- A request line of `POST /api/checkout/start`, whose quantity is positive.
pub record LineIn : Type 0 where
  pub sku : Text
  pub name : Text
  pub warehouse_id : Text
  pub bin_id : Text
  pub quantity : ℤ
  pub is_taxable : Bool

pub record Customer : Type 0 where
  pub customer_id : Option Text
  pub name : Option Text
  pub email : Option Text
  pub phone : Option Text

abbrev pub get_price_cents : List Price → Text → Option ℤ
get_price_cents prices sku = elim (Table.find price_key sku prices) [
  | none ↦ none
  | some p ↦ some p.unit_price_cents
]

-- `quantize(Decimal("1"), rounding=ROUND_HALF_EVEN)` of `n / d`.
unfoldable pub round_half_even : ℕ → ℕ → ℕ
round_half_even n d =
    if ltb (2 * (n % d)) d
    then n / d
    else if ltb d (2 * (n % d))
    then n / d + 1
    else if (n / d) % 2 == 0
    then n / d
    else n / d + 1

-- A decimal rounds by its magnitude and keeps its sign.
unfoldable pub compute_line_tax : (line_subtotal_cents : ℤ) → Settings → (taxable : Bool) → ℤ
unfolding round_half_even
compute_line_tax line_subtotal_cents settings taxable =
    let tax =
      round_half_even (magnitude line_subtotal_cents * settings.tax_rate_digits)
        settings.tax_rate_scale in
    if taxable
    then (if ltb_ℤ line_subtotal_cents (pos 0) then neg (pos tax) else pos tax)
    else pos 0

-- The dict `line_prices`, and membership in a list.
abbrev pub Prices : Type 0
Prices = List (Text × ℤ)

unfoldable pub price_in : Prices → Text → Option ℤ
price_in [] sku = none
price_in ((k, p) ∷ prices) sku = if text_eq k sku then some p else price_in prices sku

unfoldable pub listed : Text → List Text → Bool
listed sku [] = false
listed sku (k ∷ ks) = if text_eq k sku then true else listed sku ks

-- One turn of the first loop, on `skus_without_price` and `line_prices`.
unfoldable pub scan_line : List Price → LineIn → List Text × Prices → List Text × Prices
unfolding price_in listed
scan_line table line (missing, prices) =
    if is_some (price_in prices line.sku)
    then (missing, prices)
    else elim (get_price_cents table line.sku) [
      | some price ↦ (missing, prices ++ (line.sku, price) ∷ [])
      | none ↦ (if listed line.sku missing then missing else missing ++ line.sku ∷ [], prices)
    ]

unfoldable pub scan_prices : List Price → List LineIn → List Text × Prices → List Text × Prices
unfolding scan_line
scan_prices table [] found = found
scan_prices table (line ∷ lines) found = scan_prices table lines (scan_line table line found)

-- The price is there once the scan has missed none (`Prices.scan_prices_lem`).
unfoldable pub rich_line : Settings → Prices → LineIn → RichLine
unfolding price_in compute_line_tax
rich_line settings prices line =
    let unit_price = or_else (price_in prices line.sku) (pos 0) in
    let line_subtotal = unit_price *ℤ line.quantity in
    let line_tax = compute_line_tax line_subtotal settings line.is_taxable in
    record {
      sku = line.sku;
      name = line.name;
      warehouse_id = line.warehouse_id;
      bin_id = line.bin_id;
      quantity = line.quantity;
      is_taxable = line.is_taxable;
      unit_price_cents = unit_price;
      tax_cents = line_tax;
      line_total_cents = line_subtotal +ℤ line_tax;
    }

-- The second loop, with the lines, the subtotal and the tax so far.
unfoldable pub price_lines :
    Settings → Prices → List LineIn → List RichLine × ℤ × ℤ → List RichLine × ℤ × ℤ
unfolding rich_line
price_lines settings prices [] sums = sums
price_lines settings prices (line ∷ lines) (rich, subtotal, tax) =
    let r = rich_line settings prices line in
    price_lines settings prices lines
      (rich ++ r ∷ [], subtotal +ℤ r.unit_price_cents *ℤ line.quantity, tax +ℤ r.tax_cents)

abbrev pub no_customer : Customer
no_customer = record { customer_id = none; name = none; email = none; phone = none }

unfoldable pub new_sale :
    Settings → Env → List RichLine × ℤ × ℤ → (cashier_id : Text) → Customer → Txn
new_sale settings env (rich, subtotal, tax) cashier_id customer = record {
  id = env.txn_id;
  status = pending_validation;
  txn_type = sale;
  parent_transaction_id = none;
  refund_transaction_id = none;
  cart = rich;
  subtotal_cents = subtotal;
  tax_cents = tax;
  total_cents = subtotal +ℤ tax;
  payment_method = none;
  tenders = none;
  windcave_txn_ref = none;
  windcave_response_xml = none;
  sentry_so_id = none;
  cashier_id = cashier_id;
  terminal_id = settings.windcave_station;
  customer_id = or_text customer.customer_id none;
  customer_name = or_text customer.name none;
  customer_email = or_text customer.email none;
  customer_phone = or_text customer.phone none;
  last_error = none;
  retry_count = 0;
  till_session_id = none;
  created_at = env.now;
}

abbrev pub cart_line : LineIn → CartLine
cart_line line = record {
  sku = line.sku;
  warehouse_id = line.warehouse_id;
  bin_id = line.bin_id;
  quantity = line.quantity;
}

-- What the answer of `validate_cart` does to the new transaction.
unfoldable pub validated : Txn → Reply ValidationResult → Action Txn
validated txn (failed e) =
    modify (
      save_txn (record txn {
        status = validation_failed;
        last_error = some (sentry_unavailable_error e.message);
      }))
    >> raise sentry_unavailable 502
validated txn (returned result) =
    if result.valid
    then (let txn' : Txn = record txn { status = awaiting_payment } in
        modify (save_txn txn') >> pure txn')
    else (modify (
          save_txn (record txn {
            status = validation_failed;
            last_error = some (conflicts_error result.conflicts);
          }))
        >> raise (validation_failed_error result.conflicts) 409)
validated txn crashed = raise unhandled_exception 500

abbrev pub is_empty : {A : Type 0} → List A → Bool
is_empty [] = true
is_empty (x ∷ xs) = false

unfoldable pub start_checkout :
    Settings → Services → Env → List LineIn → (cashier_id : Text) → Option Customer → Action Txn
unfolding scan_prices price_lines new_sale validated
start_checkout settings services env lines cashier_id customer = do
  table ← gets (λ s. s.prices)
  let (missing, prices) = scan_prices table lines ([], [])
  raise_if (if is_empty missing then false else true) (price_missing missing) 422
  let sums = price_lines settings prices lines ([], pos 0, pos 0)
  let txn = new_sale settings env sums cashier_id (or_else customer no_customer)
  let cart_lines = map cart_line lines
  modify (add_txn txn)
  modify (call (validate_cart cart_lines))
  validated txn (services.validate_cart_reply cart_lines)
