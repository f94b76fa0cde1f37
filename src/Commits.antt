-- ===== src/Commits.antt =====
-- What the services write, as a relation between stores: the writes of `pos_service/services/checkout.py`,
-- `pos_service/services/refund.py`, `pos_service/services/reconciliation.py` and
-- `pos_service/services/fabric_outbox.py`, so that an invariant of the store has one case for each kind.
pub mod Lifecycle
pub mod Books
pub mod Kept
pub mod Sequence
pub mod Posts
pub mod Tills
pub mod History
use hightower_pos.Prelude.{ℕ, ◌+◌, ◌≡◌, ◌⊎◌, Bool, true, false, Option, none, some}
use hightower_pos.Prelude.Text.{Text, text_eq}
use hightower_pos.Table
use hightower_pos.Model.{
  OutboxEntry, entry_key, save_entry, Status, pending_validation, validation_failed,
  awaiting_payment, payment_in_flight, payment_success, payment_failed, inventory_update_failed,
  complete, cancelled, refund_pending, refund_payment_in_flight, refund_payment_success,
  refund_payment_failed, refund_inventory_update_failed, TxnType, sale, refund, Txn, OutboxEntry,
  Store, Settings, Env, Call, get_txn, save_txn, add_txn, call,
}
use hightower_pos.Till.{attribute_transaction}
use hightower_pos.Outbox.{enqueue}
use hightower_pos.Refund.Start.{blocks}

-- The statuses whose transaction has been put into the outbox.
abbrev pub is_done : Status → Bool
is_done complete = true
is_done inventory_update_failed = true
is_done refund_inventory_update_failed = true
is_done _ = false

-- The steps of a sale, and of a refund.
abbrev pub may_follow : TxnType → Status → Status → Bool
may_follow sale pending_validation validation_failed = true
may_follow sale pending_validation awaiting_payment = true
may_follow sale awaiting_payment payment_success = true
may_follow sale awaiting_payment payment_failed = true
may_follow sale awaiting_payment payment_in_flight = true
may_follow sale awaiting_payment cancelled = true
may_follow sale payment_in_flight payment_success = true
may_follow sale payment_in_flight payment_failed = true
may_follow sale payment_in_flight cancelled = true
may_follow sale payment_success complete = true
may_follow sale payment_success inventory_update_failed = true
may_follow sale inventory_update_failed complete = true
may_follow refund refund_pending refund_payment_success = true
may_follow refund refund_pending refund_payment_failed = true
may_follow refund refund_pending refund_payment_in_flight = true
may_follow refund refund_pending cancelled = true
may_follow refund refund_payment_in_flight refund_payment_success = true
may_follow refund refund_payment_in_flight refund_payment_failed = true
may_follow refund refund_payment_in_flight cancelled = true
may_follow refund refund_payment_success complete = true
may_follow refund refund_payment_success refund_inventory_update_failed = true
may_follow refund refund_inventory_update_failed complete = true
may_follow _ _ _ = false

-- A new version of a row: its identity and its amounts stay, and its status stays or takes a step.
pub record Changes (old t : Txn) : Type 0 where
  pub same_id : t.id ≡ old.id
  pub same_type : t.txn_type ≡ old.txn_type
  pub same_parent : t.parent_transaction_id ≡ old.parent_transaction_id
  pub same_total : t.total_cents ≡ old.total_cents
  pub same_cashier : t.cashier_id ≡ old.cashier_id
  pub follows : (t.status ≡ old.status) ⊎ (may_follow old.txn_type old.status t.status ≡ true)

-- A new row is a sale before validation, or a refund of a sale that has no blocking refund.
pub data Starts (t : Txn) (s : Store) : Type 0 where
  starts_sale :
      t.txn_type ≡ sale
      → t.parent_transaction_id ≡ none
      → t.status ≡ pending_validation
      → Starts t s
  starts_refund :
      (p : Text) (o : Txn)
      → t.txn_type ≡ refund
      → t.parent_transaction_id ≡ some p
      → t.status ≡ refund_pending
      → get_txn p s ≡ some o
      → o.txn_type ≡ sale
      → Table.first (blocks p) s.transactions ≡ none
      → Starts t s

pub data Write : Store → Store → Type 0 where
  logs : (c : Call) (s : Store) → Write s (call c s)
  tallies :
      (is_refund : Bool) (txn : Txn) (s : Store) → Write s (attribute_transaction is_refund txn s).1
  changes :
      (t old : Txn) (s : Store)
      → get_txn t.id s ≡ some old
      → Changes old t
      → is_done t.status ≡ is_done old.status
      → Write s (save_txn t s)
  finishes :
      (settings : Settings) (env : Env) (t old : Txn) (s : Store)
      → get_txn t.id s ≡ some old
      → Changes old t
      → is_done old.status ≡ false
      → is_done t.status ≡ true
      → Write s (save_txn t (enqueue settings env t s))
  posts :
      (e old : OutboxEntry) (s : Store)
      → Table.find entry_key e.id s.outbox ≡ some old
      → e.pos_transaction_id ≡ old.pos_transaction_id
      → Write s (save_entry e s)
  adds : (t : Txn) (s : Store) → get_txn t.id s ≡ none → Starts t s → Write s (add_txn t s)

pub data Writes (s : Store) : Store → Type 0 where
  nothing : Writes s s
  then_write : {u v : Store} → Writes s u → Write u v → Writes s v
