-- ===== src/Checkout/Payment.antt =====
-- Paying for a sale: `charge_cash`, `charge_card`, `cancel_checkout` and what they share, of
-- `pos_service/services/checkout.py`.
use hightower_pos.Prelude.{
  ℕ, false, ◌&&◌, ◌||◌, not, Option, none, some, [], ◌∷◌, map, if◌then◌else◌, or_else,
}
use hightower_pos.Prelude.Int.{ℤ, ◌-ℤ◌, ltb_ℤ}
use hightower_pos.Prelude.Text.{Text, codes}
use hightower_pos.Model.{
  payment_in_flight, payment_success, payment_failed, inventory_update_failed, complete, cancelled,
  Method, cash, card, RichLine, Tender, Txn, Settings, Env, Services, Reply, returned, failed,
  crashed, CheckoutRequest, CheckoutLine, WindcaveStatus, WindcaveResult, approved,
  signature_required, ClientError, LastError, windcave_unavailable_error, signature_required_error,
  declined, declined_with, sentry_error, Action, ok, err, pure, raise, raise_if, modify, ◌>>=◌,
  ◌>>◌, transaction_not_found, invalid_state, insufficient_tender, windcave_unavailable,
  unhandled_exception, get_txn, save_txn, call, create_pos_so, log_inbound_activity,
  windcave_charge, windcave_cancel, or_text, or_amount, is_card, is_sale, is_awaiting_payment,
  is_payment_in_flight,
}
use hightower_pos.Till.{attribute_transaction}
use hightower_pos.Outbox.{enqueue}

unfoldable pub load_for_payment : Text → Action Txn
load_for_payment txn_id = λ s. elim (get_txn txn_id s) [
  | none ↦ (err transaction_not_found 404, s)
  | some txn ↦ (
    if is_sale txn.txn_type && is_awaiting_payment txn.status
        then ok txn
        else err (invalid_state txn.status) 400,
    s,
  )
]

abbrev pub checkout_line : RichLine → CheckoutLine
checkout_line line = record {
  sku = line.sku;
  warehouse_id = line.warehouse_id;
  bin_id = line.bin_id;
  quantity = line.quantity;
  unit_price_cents = line.unit_price_cents;
  tax_cents = line.tax_cents;
  line_total_cents = line.line_total_cents;
}

unfoldable pub build_checkout_request : (now : ℕ) → Txn → Method → CheckoutRequest
build_checkout_request now txn payment_method = record {
  idempotency_key = txn.id;
  external_txn_ref = txn.windcave_txn_ref;
  cashier_id = txn.cashier_id;
  terminal_id = txn.terminal_id;
  completed_at = now;
  payment_summary = record {
    method = payment_method;
    subtotal_cents = txn.subtotal_cents;
    tax_cents = txn.tax_cents;
    total_cents = txn.total_cents;
    tenders = or_else txn.tenders [];
  };
  lines = map checkout_line txn.cart;
}

-- `f"{exc.error_code or 'unknown'}: {exc}"`
abbrev pub sentry_failure : ClientError → Option Text
sentry_failure e = or_text e.error_code (some (codes "unknown"))

-- What the answer of `create_pos_so` does to the paid transaction.
unfoldable pub settle_sale : Settings → Env → Txn → Reply Text → Action Txn
settle_sale settings env txn (returned so_id) s =
    let (txn', s') =
      attribute_transaction false (record txn { status = complete; sentry_so_id = some so_id }) s in
    (ok txn', save_txn txn' (enqueue settings env txn' s'))
settle_sale settings env txn (failed e) s =
    let txn' : Txn = record txn {
      status = inventory_update_failed;
      last_error = some (sentry_error (or_else (sentry_failure e) []) e.message);
    } in
    (ok txn', call (log_inbound_activity txn.id) (save_txn txn' (enqueue settings env txn' s)))
settle_sale settings env txn crashed s = (err unhandled_exception 500, s)

unfoldable pub send_to_sentry : Settings → Services → Env → Txn → Method → Action Txn
unfolding build_checkout_request settle_sale
send_to_sentry settings services env txn payment_method =
    let request = build_checkout_request env.now txn payment_method in
    modify (call (create_pos_so request))
    >> settle_sale settings env txn (services.create_pos_so_reply request)

abbrev pub cash_tender : (amount_cents amount_tendered_cents change_cents : ℤ) → Tender
cash_tender amount_cents amount_tendered_cents change_cents = record {
  method = cash;
  amount_cents = amount_cents;
  card_brand = none;
  card_last4 = none;
  auth_code = none;
  external_ref = none;
  amount_tendered_cents = some amount_tendered_cents;
  change_cents = some change_cents;
}

-- The row that is committed when the cash is taken.
unfoldable pub paid_cash : (amount_tendered_cents : ℤ) → Txn → Txn
paid_cash amount_tendered_cents txn =
    let change_cents = amount_tendered_cents -ℤ txn.total_cents in
    record txn {
      status = payment_success;
      payment_method = some cash;
      tenders = some (cash_tender txn.total_cents amount_tendered_cents change_cents ∷ []);
    }

unfoldable pub charge_cash :
    Settings → Services → Env → (txn_id : Text) (amount_tendered_cents : ℤ) → Action Txn
unfolding load_for_payment paid_cash send_to_sentry
charge_cash settings services env txn_id amount_tendered_cents = do
  txn ← load_for_payment txn_id
  raise_if (ltb_ℤ amount_tendered_cents txn.total_cents) (insufficient_tender txn.total_cents) 400
  modify (save_txn (paid_cash amount_tendered_cents txn))
  send_to_sentry settings services env (paid_cash amount_tendered_cents txn) cash

abbrev pub card_tender : (amount_cents : ℤ) → WindcaveResult → Tender
card_tender amount_cents r = record {
  method = card;
  amount_cents = amount_cents;
  card_brand = r.card_brand;
  card_last4 = r.card_last4;
  auth_code = r.auth_code;
  external_ref = r.dps_txn_ref;
  amount_tendered_cents = none;
  change_cents = none;
}

-- The row that is committed when Windcave has approved the charge.
unfoldable pub paid_card : WindcaveResult → Txn → Txn
paid_card r txn = record txn {
  status = payment_success;
  payment_method = some card;
  windcave_txn_ref = r.dps_txn_ref;
  tenders = some (card_tender (or_amount r.amount_cents txn.total_cents) r ∷ []);
}

abbrev pub decline_error : Option WindcaveResult → LastError
decline_error none = declined
decline_error (some r) = declined_with (or_text r.response_text r.response_code)

-- The row after a charge that asked for a signature, or that was not approved.
abbrev pub unpaid_card : WindcaveStatus → Txn → Txn
unpaid_card status txn =
    if signature_required status
    then record txn { status = payment_failed; last_error = some signature_required_error }
    else record txn { status = payment_failed; last_error = some (decline_error status.result) }

abbrev pub with_response : WindcaveStatus → Txn → Txn
with_response status txn = record txn { windcave_response_xml = some status.raw_xml }

-- An approved charge has a result, so the last case is the failing `assert`.
unfoldable pub finalize_card_charge : Settings → Services → Env → Txn → WindcaveStatus → Action Txn
unfolding paid_card send_to_sentry
finalize_card_charge settings services env txn status =
    let txn₁ = with_response status txn in
    if signature_required status || not (approved status)
    then (modify (save_txn (unpaid_card status txn₁)) >> pure (unpaid_card status txn₁))
    else elim status.result [
      | some r ↦
          (modify (save_txn (paid_card r txn₁))
            >> send_to_sentry settings services env (paid_card r txn₁) card)
      | none ↦ raise unhandled_exception 500
    ]

-- What the answer of `windcave.charge` does.
unfoldable pub charged : Settings → Services → Env → Txn → Reply WindcaveStatus → Action Txn
unfolding finalize_card_charge
charged settings services env txn (failed e) =
    modify (
      save_txn (record txn {
        status = payment_failed;
        last_error = some (windcave_unavailable_error e.message);
      }))
    >> raise windcave_unavailable 502
charged settings services env txn (returned initial) =
    let txn₁ : Txn = record txn {
      payment_method = some card;
      windcave_response_xml = some initial.raw_xml;
    } in
    let txn₂ : Txn = record txn₁ { status = payment_in_flight } in
    if initial.complete
    then finalize_card_charge settings services env txn₁ initial
    else (modify (save_txn txn₂) >> pure txn₂)
charged settings services env txn crashed = raise unhandled_exception 500

unfoldable pub charge_card : Settings → Services → Env → (txn_id : Text) → Action Txn
unfolding load_for_payment charged
charge_card settings services env txn_id = do
  txn ← load_for_payment txn_id
  modify (call (windcave_charge txn.total_cents txn.id))
  charged settings services env txn (services.windcave_charge_reply txn.total_cents txn.id)

-- The request to stop a card charge; only an unexpected exception keeps the cancel from going on.
unfoldable pub stop_charge : Services → Txn → Action (Unit {0})
stop_charge services txn s =
    if is_payment_in_flight txn.status && is_card txn.payment_method
    then (elim (services.windcave_cancel_reply txn.id) [
      | crashed ↦ (err unhandled_exception 500, call (windcave_cancel txn.id) s)
      | _ ↦ (ok tt, call (windcave_cancel txn.id) s)
    ])
    else (ok tt, s)

unfoldable pub cancel_checkout : Services → (txn_id : Text) → Action Txn
unfolding stop_charge
cancel_checkout services txn_id s = elim (get_txn txn_id s) [
  | none ↦ (err transaction_not_found 404, s)
  | some txn ↦
      let txn' : Txn = record txn { status = cancelled } in
      (do
        raise_if (not (is_awaiting_payment txn.status || is_payment_in_flight txn.status))
            (invalid_state txn.status) 400
        stop_charge services txn
        modify (save_txn txn')
        pure txn')
        s
]
