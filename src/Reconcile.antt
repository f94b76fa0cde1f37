-- ===== src/Reconcile.antt =====
-- Retrying what Sentry refused after payment: `pos_service/services/reconciliation.py`.
pub mod Report
pub mod Moves
pub mod Loops
pub mod Runs
pub mod Reported
mod Tests
use hightower_pos.Prelude.{
  if◌then◌else◌, ℕ, ◌+◌, Bool, true, false, ◌&&◌, none, some, List, [], ◌∷◌, ◌++◌, keep, length,
  or_else,
}
use hightower_pos.Prelude.Text.{Text}
use hightower_pos.Model.{
  Status, inventory_update_failed, refund_inventory_update_failed, complete, cash, Txn, Store,
  Services, Reply, returned, failed, crashed, sentry_error, Result, ok, err, unhandled_exception,
  get_txn, transaction_not_found, invalid_state, sale, refund, save_txn, call, create_pos_so,
  create_pos_refund, is_sale, is_refund_type,
}
use hightower_pos.Checkout.Payment.{build_checkout_request, sentry_failure}
use hightower_pos.Refund.Payment.{build_refund_request, parent_of}

-- The row after a failed and after a successful retry.
abbrev pub retried : Txn → Text → Text → Txn
retried txn error_code message = record txn {
  last_error = some (sentry_error error_code message);
  retry_count = txn.retry_count + 1;
}

abbrev pub recovered : Txn → Text → Txn
recovered txn so_id = record txn {
  status = complete;
  sentry_so_id = some so_id;
  last_error = none;
  retry_count = txn.retry_count + 1;
}

unfoldable pub settle_retry_sale : Txn → Reply Text → Store → Result Bool × Store
settle_retry_sale txn (failed e) s =
    (ok false, save_txn (retried txn (or_else (sentry_failure e) []) e.message) s)
settle_retry_sale txn (returned so_id) s = (ok true, save_txn (recovered txn so_id) s)
settle_retry_sale txn crashed s = (err unhandled_exception 500, s)

unfoldable pub retry_one_sale : Services → (now : ℕ) → Txn → Store → Result Bool × Store
unfolding settle_retry_sale
retry_one_sale services now txn s =
    let request = build_checkout_request now txn (or_else txn.payment_method cash) in
    settle_retry_sale txn (services.create_pos_so_reply request) (call (create_pos_so request) s)

unfoldable pub settle_retry_refund : Txn → Txn → Reply Text → Store → Result Bool × Store
settle_retry_refund refund_txn original (failed e) s =
    (ok false, save_txn (retried refund_txn (or_else (sentry_failure e) []) e.message) s)
settle_retry_refund refund_txn original (returned refund_so_id) s = (
  ok true,
  save_txn (record original { refund_transaction_id = some refund_txn.id })
      (save_txn (recovered refund_txn refund_so_id) s),
)
settle_retry_refund refund_txn original crashed s = (err unhandled_exception 500, s)

unfoldable pub retry_one_refund : Services → (now : ℕ) → Txn → Store → Result Bool × Store
unfolding settle_retry_refund
retry_one_refund services now refund_txn s = elim (parent_of refund_txn s) [
  | none ↦ (ok false, s)
  | some original ↦
      let request = build_refund_request now refund_txn original in
      settle_retry_refund refund_txn original (services.create_pos_refund_reply request)
        (call (create_pos_refund request) s)
]

abbrev pub is_inventory_update_failed : Status → Bool
is_inventory_update_failed inventory_update_failed = true
is_inventory_update_failed _ = false

abbrev pub is_refund_inventory_update_failed : Status → Bool
is_refund_inventory_update_failed refund_inventory_update_failed = true
is_refund_inventory_update_failed _ = false

abbrev pub is_failed_sale : Txn → Bool
is_failed_sale t = is_sale t.txn_type && is_inventory_update_failed t.status

abbrev pub is_failed_refund : Txn → Bool
is_failed_refund t = is_refund_type t.txn_type && is_refund_inventory_update_failed t.status

pub record RetryReport : Type 0 where
  pub scanned : ℕ
  pub succeeded : List Text
  pub still_failing : List Text

abbrev pub report_one : Bool → Text → RetryReport → RetryReport
report_one true id r = record r { succeeded = r.succeeded ++ id ∷ [] }
report_one false id r = record r { still_failing = r.still_failing ++ id ∷ [] }

-- The loop of `retry_failed_sales` and `retry_failed_refunds`, over the rows that were read before it.
module _ (retry_one : Txn → Store → Result Bool × Store) where
  -- An exception leaves the loop; `rest` is the rest of it.
  unfoldable pub retry_turn :
      Txn
      → Result Bool × Store
      → (RetryReport → Store → Result RetryReport × Store)
      → RetryReport
      → Result RetryReport × Store
  retry_turn txn (ok done, s) rest report = rest (report_one done txn.id report) s
  retry_turn txn (err code http, s) rest report = (err code http, s)

  unfoldable pub retry_rows : List Txn → RetryReport → Store → Result RetryReport × Store
  unfolding retry_turn
  retry_rows [] report s = (ok report, s)
  retry_rows (txn ∷ rows) report s = retry_turn txn (retry_one txn s) (retry_rows rows) report

unfoldable pub retry_failed_sales : Services → (now : ℕ) → Store → Result RetryReport × Store
unfolding retry_rows retry_one_sale
retry_failed_sales services now s =
    let rows = keep is_failed_sale s.transactions in
    retry_rows (retry_one_sale services now) rows
      (record { scanned = length rows; succeeded = []; still_failing = [] }) s

unfoldable pub retry_failed_refunds : Services → (now : ℕ) → Store → Result RetryReport × Store
unfolding retry_rows retry_one_refund
retry_failed_refunds services now s =
    let rows = keep is_failed_refund s.transactions in
    retry_rows (retry_one_refund services now) rows
      (record { scanned = length rows; succeeded = []; still_failing = [] }) s

-- `POST /api/admin/transactions/{id}/retry-sentry`: one transaction, chosen by hand.
unfoldable pub retry_sentry :
    Services → (now : ℕ) (transaction_id : Text) → Store → Result Bool × Store
unfolding retry_one_sale retry_one_refund
retry_sentry services now transaction_id s = elim (get_txn transaction_id s) [
  | none ↦ (err transaction_not_found 404, s)
  | some txn ↦ elim txn.txn_type [
    | sale ↦
        if is_inventory_update_failed txn.status
        then retry_one_sale services now txn s
        else (err (invalid_state txn.status) 400, s)
    | refund ↦
        if is_refund_inventory_update_failed txn.status
        then retry_one_refund services now txn s
        else (err (invalid_state txn.status) 400, s)
  ]
]
