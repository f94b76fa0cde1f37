-- ===== src/Refund/Start.antt =====
-- The gates and the start of a refund: `lookup_refund` and `start_refund` of
-- `pos_service/services/refund.py`.
use hightower_pos.Prelude.{
  ℕ, ◌-◌, ◌/◌, Bool, true, false, ◌&&◌, not, Option, none, some, map, ltb, if◌then◌else◌,
}
use hightower_pos.Prelude.Int.{neg}
use hightower_pos.Prelude.Text.{Text, text_eq}
use hightower_pos.Table
use hightower_pos.Model.{
  Status, refund_pending, refund_payment_in_flight, refund_payment_success,
  refund_inventory_update_failed, complete, refund, RichLine, Txn, Store, Settings, Env, Action,
  Result, ok, err, transaction_not_found, not_a_completed_sale, refund_window_expired,
  already_refunded, get_txn, add_txn, is_sale, is_complete,
}

-- `REFUND_BLOCKING_STATES`
abbrev pub is_blocking : Status → Bool
is_blocking refund_pending = true
is_blocking refund_payment_in_flight = true
is_blocking refund_payment_success = true
is_blocking refund_inventory_update_failed = true
is_blocking complete = true
is_blocking _ = false

abbrev pub has_parent : Text → Option Text → Bool
has_parent id none = false
has_parent id (some parent) = text_eq parent id

-- The row is a refund of this sale that blocks another.
abbrev pub blocks : Text → Txn → Bool
blocks id t = has_parent id t.parent_transaction_id && is_blocking t.status

unfoldable pub existing_blocking_refund : Text → Store → Option Txn
existing_blocking_refund id s = Table.first (blocks id) s.transactions

abbrev pub seconds_per_day : ℕ
seconds_per_day = 86400

-- Whole days since the sale; a sale from the future counts as none.
abbrev pub days_since : (now : ℕ) → Txn → ℕ
days_since now original = (now - original.created_at) / seconds_per_day

-- The gates, in order; the sale itself stands for the view that the cashier is shown.
unfoldable pub lookup_refund :
    Settings → (now : ℕ) (original_transaction_id : Text) → Store → Result Txn
unfolding existing_blocking_refund
lookup_refund settings now original_transaction_id s = elim (get_txn original_transaction_id s) [
  | none ↦ err transaction_not_found 404
  | some original ↦
      if not (is_sale original.txn_type && is_complete original.status)
      then err (not_a_completed_sale original.status) 422
      else if ltb settings.refund_window_days (days_since now original)
      then err (refund_window_expired (days_since now original)) 422
      else elim (existing_blocking_refund original.id s) [
        | some blocker ↦ err (already_refunded blocker.id) 422
        | none ↦ ok original
      ]
]

abbrev pub refund_line : RichLine → RichLine
refund_line line = record line {
  quantity = neg line.quantity;
  tax_cents = neg line.tax_cents;
  line_total_cents = neg line.line_total_cents;
}

unfoldable pub new_refund : Env → (cashier_id : Text) → Txn → Txn
new_refund env cashier_id original = record {
  id = env.txn_id;
  status = refund_pending;
  txn_type = refund;
  parent_transaction_id = some original.id;
  refund_transaction_id = none;
  cart = map refund_line original.cart;
  subtotal_cents = neg original.subtotal_cents;
  tax_cents = neg original.tax_cents;
  total_cents = neg original.total_cents;
  payment_method = original.payment_method;
  tenders = none;
  windcave_txn_ref = none;
  windcave_response_xml = none;
  sentry_so_id = none;
  cashier_id = cashier_id;
  terminal_id = original.terminal_id;
  customer_id = none;
  customer_name = none;
  customer_email = none;
  customer_phone = none;
  last_error = none;
  retry_count = 0;
  till_session_id = none;
  created_at = env.now;
}

unfoldable pub start_refund :
    Settings → Env → (original_transaction_id cashier_id : Text) → Action Txn
unfolding lookup_refund new_refund
start_refund settings env original_transaction_id cashier_id s =
    elim (lookup_refund settings env.now original_transaction_id s) [
      | err code http ↦ (err code http, s)
      | ok original ↦
          let refund_txn = new_refund env cashier_id original in
          (ok refund_txn, add_txn refund_txn s)
    ]
