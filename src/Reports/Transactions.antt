-- ===== src/Reports/Transactions.antt =====
-- The reads of transactions and outbox entries: `list_session_transactions` of
-- `pos_service/routes/till.py`, and `list_transactions`, `get_transaction` and `list_fabric_outbox` of
-- `pos_service/routes/admin.py`. A filter is compared with the text of the column.
use hightower_pos.Prelude.{
  ℕ, Bool, true, false, ◌&&◌, ◌||◌, not, Option, none, some, List, [], ◌∷◌, if◌then◌else◌, map,
  keep,
}
use hightower_pos.Prelude.Int.{ℤ}
use hightower_pos.Prelude.Text.{Text, text_eq, codes}
use hightower_pos.Table
use hightower_pos.Model
use hightower_pos.Model.{
  TillSession, Txn, Status, TxnType, sale, refund, Method, Tender, RichLine, LastError, OutboxEntry,
  OutboxStatus, Store, Result, ok, err, transaction_not_found, till_key, get_txn,
}
use hightower_pos.Reports.{page, oldest_first}

-- A row of the listing of a till session.
pub record SessionTransaction : Type 0 where
  pub id : Text
  pub txn_type : TxnType
  pub status : Status
  pub payment_method : Option Method
  pub total_cents : ℤ
  pub sentry_so_id : Option Text
  pub cashier_id : Text
  pub created_at : ℕ

unfoldable pub session_transaction : Txn → SessionTransaction
session_transaction t = record {
  id = t.id;
  txn_type = t.txn_type;
  status = t.status;
  payment_method = t.payment_method;
  total_cents = t.total_cents;
  sentry_so_id = t.sentry_so_id;
  cashier_id = t.cashier_id;
  created_at = t.created_at;
}

abbrev in_session : Text → Option Text → Bool
in_session session_id none = false
in_session session_id (some id) = text_eq id session_id

-- `none` is 404, `session_not_found`.
unfoldable pub list_session_transactions :
    (session_id : Text) → Store → Option (List SessionTransaction)
unfolding session_transaction oldest_first
list_session_transactions session_id s = elim (Table.find till_key session_id s.till_sessions) [
  | none ↦ none
  | some session ↦ some (
      map session_transaction (
        oldest_first (λ t. t.created_at)
          (keep (λ t. in_session session_id t.till_session_id) s.transactions)))
]

-- The texts of the columns.
abbrev pub status_text : Status → Text
status_text Model.pending_validation = codes "PENDING_VALIDATION"
status_text Model.validation_failed = codes "VALIDATION_FAILED"
status_text Model.awaiting_payment = codes "AWAITING_PAYMENT"
status_text Model.payment_in_flight = codes "PAYMENT_IN_FLIGHT"
status_text Model.payment_success = codes "PAYMENT_SUCCESS"
status_text Model.payment_failed = codes "PAYMENT_FAILED"
status_text Model.inventory_update_failed = codes "INVENTORY_UPDATE_FAILED"
status_text Model.complete = codes "COMPLETE"
status_text Model.cancelled = codes "CANCELLED"
status_text Model.refund_pending = codes "REFUND_PENDING"
status_text Model.refund_payment_in_flight = codes "REFUND_PAYMENT_IN_FLIGHT"
status_text Model.refund_payment_success = codes "REFUND_PAYMENT_SUCCESS"
status_text Model.refund_payment_failed = codes "REFUND_PAYMENT_FAILED"
status_text Model.refund_inventory_update_failed = codes "REFUND_INVENTORY_UPDATE_FAILED"

abbrev pub type_text : TxnType → Text
type_text sale = codes "sale"
type_text refund = codes "refund"

-- `if filter:` and the comparison.
abbrev pub passes : Option Text → Text → Bool
passes none t = true
passes (some []) t = true
passes (some (c ∷ wanted)) t = text_eq t (c ∷ wanted)

-- `TransactionSummary`
pub record TransactionSummary : Type 0 where
  pub id : Text
  pub status : Status
  pub txn_type : TxnType
  pub payment_method : Option Method
  pub subtotal_cents : ℤ
  pub tax_cents : ℤ
  pub total_cents : ℤ
  pub sentry_so_id : Option Text
  pub cashier_id : Text
  pub terminal_id : Text
  pub parent_transaction_id : Option Text
  pub refund_transaction_id : Option Text
  pub last_error : Option LastError
  pub retry_count : ℕ
  pub created_at : ℕ

unfoldable pub summary : Txn → TransactionSummary
summary t = record {
  id = t.id;
  status = t.status;
  txn_type = t.txn_type;
  payment_method = t.payment_method;
  subtotal_cents = t.subtotal_cents;
  tax_cents = t.tax_cents;
  total_cents = t.total_cents;
  sentry_so_id = t.sentry_so_id;
  cashier_id = t.cashier_id;
  terminal_id = t.terminal_id;
  parent_transaction_id = t.parent_transaction_id;
  refund_transaction_id = t.refund_transaction_id;
  last_error = t.last_error;
  retry_count = t.retry_count;
  created_at = t.created_at;
}

unfoldable pub list_transactions :
    (status_filter txn_type : Option Text) (limit : ℕ) → Store → List TransactionSummary
unfolding page summary
list_transactions status_filter txn_type limit s = map summary (
    page (λ t. t.created_at)
      (λ t. passes status_filter (status_text t.status) && passes txn_type (type_text t.txn_type))
      limit 0 s.transactions)

-- `TransactionDetail`
pub record TransactionDetail : Type 0 where
  pub summary_of : TransactionSummary
  pub cart : List RichLine
  pub tenders : List Tender
  pub windcave_txn_ref : Option Text
  pub counterpart : Option TransactionSummary

unfoldable pub get_linked : Option Text → Store → Option Txn
get_linked none s = none
get_linked (some []) s = none
get_linked (some (c ∷ id)) s = get_txn (c ∷ id) s

-- The refund of a sale, the sale of a refund.
unfoldable pub counterpart_of : TxnType → Txn → Store → Option Txn
unfolding get_linked
counterpart_of sale t s = get_linked t.refund_transaction_id s
counterpart_of refund t s = get_linked t.parent_transaction_id s

unfoldable pub get_transaction : (transaction_id : Text) → Store → Result TransactionDetail
unfolding summary counterpart_of
get_transaction transaction_id s = elim (get_txn transaction_id s) [
  | none ↦ err transaction_not_found 404
  | some t ↦ ok (record {
    summary_of = summary t;
    cart = t.cart;
    tenders = elim t.tenders [ none ↦ [] | some tenders ↦ tenders ];
    windcave_txn_ref = t.windcave_txn_ref;
    counterpart = elim (counterpart_of t.txn_type t s) [
      | none ↦ none
      | some other ↦ some (summary other)
    ];
  })
]

-- `FabricOutboxSummary`
pub record OutboxSummary : Type 0 where
  pub id : Text
  pub pos_transaction_id : Text
  pub status : OutboxStatus
  pub attempt_count : ℕ
  pub next_attempt_at : ℕ
  pub last_error : Option Text
  pub fabric_so_id : Option Text
  pub created_at : ℕ

unfoldable pub outbox_summary : OutboxEntry → OutboxSummary
outbox_summary e = record {
  id = e.id;
  pos_transaction_id = e.pos_transaction_id;
  status = e.status;
  attempt_count = e.attempt_count;
  next_attempt_at = e.next_attempt_at;
  last_error = e.last_error;
  fabric_so_id = e.fabric_so_id;
  created_at = e.created_at;
}

abbrev pub outbox_status_text : OutboxStatus → Text
outbox_status_text Model.pending = codes "PENDING"
outbox_status_text Model.in_flight = codes "IN_FLIGHT"
outbox_status_text Model.delivered = codes "DELIVERED"
outbox_status_text Model.dlq = codes "DLQ"

abbrev is_outbox_status : Text → Bool
is_outbox_status t =
    text_eq t (codes "PENDING")
    || text_eq t (codes "IN_FLIGHT")
    || text_eq t (codes "DELIVERED")
    || text_eq t (codes "DLQ")

-- `none` is 400, `invalid_status`.
unfoldable pub list_fabric_outbox :
    (status_filter : Option Text) (limit : ℕ) → Store → Option (List OutboxSummary)
unfolding page outbox_summary
list_fabric_outbox none limit s =
    some (map outbox_summary (page (λ e. e.created_at) (λ e. true) limit 0 s.outbox))
list_fabric_outbox (some wanted) limit s =
    if not (is_outbox_status wanted)
    then none
    else some (
        map outbox_summary (
          page (λ e. e.created_at) (λ e. text_eq (outbox_status_text e.status) wanted) limit 0
            s.outbox))
