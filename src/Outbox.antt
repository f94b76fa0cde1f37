-- ===== src/Outbox.antt =====
-- The sales-order outbox: `pos_service/services/fabric_outbox.py`, and the admin retry of
-- `pos_service/routes/admin.py`.
pub mod Backoff
pub mod Limits
pub mod Claim
pub mod Settled
pub mod Drain
mod Tests
use hightower_pos.Prelude.{
  ℕ, suc, ◌+◌, Bool, true, false, ◌&&◌, Option, none, some, List, [], ◌∷◌, map, leb, length, take,
  get_elem?, keep, if◌then◌else◌, or_else,
}
use hightower_pos.Prelude.Text.{Text, codes}
use hightower_pos.Table
use hightower_pos.Model.{
  Txn, Payload, OutboxEntry, OutboxStatus, pending, in_flight, delivered, dlq, is_pending,
  is_in_flight, Store, entry_key, save_entry, call, write_sales_order, Settings, Env, Reply,
  returned, failed, crashed, ClientError,
}

abbrev pub retry_schedule_seconds : List ℕ
retry_schedule_seconds = 0 ∷ 4 ∷ 15 ∷ 60 ∷ 300 ∷ 1800 ∷ 7200 ∷ 43200 ∷ []

abbrev pub max_attempts : ℕ
max_attempts = length retry_schedule_seconds

-- `completed_at` is `txn.updated_at or txn.created_at`, as the database has stamped it.
unfoldable pub build_payload : Settings → (completed_at : ℕ) → Txn → Payload
build_payload settings completed_at txn = record {
  external_so_ref = txn.id;
  sentry_so_id = txn.sentry_so_id;
  txn_type = txn.txn_type;
  parent_transaction_id = txn.parent_transaction_id;
  source = codes "POS";
  fulfillment_channel = codes "Store";
  status = codes "shipped";
  register_id = settings.windcave_device_id;
  cashier_id = txn.cashier_id;
  terminal_id = txn.terminal_id;
  completed_at = completed_at;
  currency = settings.windcave_currency;
  subtotal_cents = txn.subtotal_cents;
  tax_cents = txn.tax_cents;
  total_cents = txn.total_cents;
  payment_method = txn.payment_method;
  customer_id = txn.customer_id;
  customer_name = txn.customer_name;
  customer_email = txn.customer_email;
  customer_phone = txn.customer_phone;
  lines = txn.cart;
}

unfoldable pub new_entry : Settings → Env → Txn → OutboxEntry
unfolding build_payload
new_entry settings env txn = record {
  id = env.entry_id;
  pos_transaction_id = txn.id;
  payload = build_payload settings env.now txn;
  status = pending;
  attempt_count = 0;
  next_attempt_at = env.now;
  last_error = none;
  fabric_so_id = none;
  created_at = env.now;
}

-- The caller commits.
unfoldable pub enqueue : Settings → Env → Txn → Store → Store
unfolding new_entry
enqueue settings env txn s = record s {
  outbox = Table.insert entry_key (new_entry settings env txn) s.outbox;
}

abbrev pub is_due : ℕ → OutboxEntry → Bool
is_due now e = is_pending e.status && leb e.next_attempt_at now

-- `ORDER BY created_at`; rows of one time stay in the table's order.
unfoldable pub place : OutboxEntry → List OutboxEntry → List OutboxEntry
place e [] = e ∷ []
place e (x ∷ xs) =
    let further = x ∷ place e xs in if leb e.created_at x.created_at then e ∷ x ∷ xs else further

unfoldable pub by_created_at : List OutboxEntry → List OutboxEntry
unfolding place
by_created_at [] = []
by_created_at (e ∷ es) = place e (by_created_at es)

unfoldable pub due_batch : (batch_size now : ℕ) → List OutboxEntry → List OutboxEntry
unfolding by_created_at
due_batch batch_size now outbox = take batch_size (by_created_at (keep (is_due now) outbox))

abbrev pub claimed_entry : OutboxEntry → OutboxEntry
claimed_entry e = record e { status = in_flight }

unfoldable pub mark_in_flight : List OutboxEntry → Store → Store
mark_in_flight [] s = s
mark_in_flight (e ∷ es) s = mark_in_flight es (save_entry (claimed_entry e) s)

unfoldable pub claim_due : (batch_size now : ℕ) → Store → List Text × Store
unfolding due_batch mark_in_flight
claim_due batch_size now s =
    let entries = due_batch batch_size now s.outbox in
    (map entry_key entries, mark_in_flight entries s)

abbrev pub delivered_entry : Option Text → OutboxEntry → OutboxEntry
delivered_entry fabric_so_id e = record e {
  status = delivered;
  fabric_so_id = fabric_so_id;
  last_error = none;
}

unfoldable pub mark_delivered : Text → Option Text → Store → Store
mark_delivered entry_id fabric_so_id s = elim (Table.find entry_key entry_id s.outbox) [
  | none ↦ s
  | some e ↦ save_entry (delivered_entry fabric_so_id e) s
]

-- The entry after a failed attempt. The schedule is read below its length only.
unfoldable pub failed_entry : (now : ℕ) (error : Text) → OutboxEntry → OutboxEntry
failed_entry now error e =
    let attempts = e.attempt_count + 1 in
    if leb max_attempts attempts
    then record e { attempt_count = attempts; last_error = some error; status = dlq }
    else record e {
      attempt_count = attempts;
      last_error = some error;
      status = pending;
      next_attempt_at = now + or_else (get_elem? retry_schedule_seconds attempts) 0;
    }

-- The new status, or `none` for "MISSING".
unfoldable pub mark_failed : (now : ℕ) (entry_id error : Text) → Store → Option OutboxStatus × Store
unfolding failed_entry
mark_failed now entry_id error s = elim (Table.find entry_key entry_id s.outbox) [
  | none ↦ (none, s)
  | some e ↦ let e' = failed_entry now error e in (some e'.status, save_entry e' s)
]

pub record DrainResult : Type 0 where
  pub claimed : ℕ
  pub delivered : ℕ
  pub failed : ℕ
  pub dlq : ℕ

-- A drain ends with its counts, or an exception that it does not handle leaves it.
pub data DrainOutcome : Type 0 where
  finished : DrainResult → DrainOutcome
  aborted : DrainOutcome

abbrev pub count_failure : Option OutboxStatus → DrainResult → DrainResult
count_failure (some dlq) r = record r { dlq = r.dlq + 1 }
count_failure _ r = record r { failed = r.failed + 1 }

-- What the loop body does with the reply to one entry's payload; `rest` is the rest of the loop.
unfoldable pub settle :
    (now : ℕ) (entry_id : Text)
    → Reply (Option Text)
    → (DrainResult → Store → DrainOutcome × Store)
    → DrainResult
    → Store
    → DrainOutcome × Store
unfolding mark_failed mark_delivered
settle now entry_id (returned fabric_so_id) rest r s =
    rest (record r { delivered = r.delivered + 1 }) (mark_delivered entry_id fabric_so_id s)
settle now entry_id (failed e) rest r s =
    let (new_status, s') = mark_failed now entry_id e.message s in
    rest (count_failure new_status r) s'
settle now entry_id crashed rest r s = (aborted, s)

-- `write` is `client.write_sales_order`.
module _ (write : Payload → Reply (Option Text)) (now : ℕ) where
  unfoldable pub drain_entries : List Text → DrainResult → Store → DrainOutcome × Store
  unfolding settle
  drain_entries [] r s = (finished r, s)
  drain_entries (entry_id ∷ ids) r s = elim (Table.find entry_key entry_id s.outbox) [
    | none ↦ drain_entries ids r s
    | some e ↦ elim (is_in_flight e.status) [
      | false ↦ drain_entries ids r s
      | true ↦
          settle now entry_id (write e.payload) (drain_entries ids) r
            (call (write_sales_order e.payload) s)
    ]
  ]

  unfoldable pub drain_once : (batch_size : ℕ) → Store → DrainOutcome × Store
  unfolding claim_due drain_entries
  drain_once batch_size s =
      let (ids, s') = claim_due batch_size now s in
      drain_entries ids (record { claimed = length ids; delivered = 0; failed = 0; dlq = 0 }) s'

-- The answers of the admin retry endpoint.
pub data RetryAnswer : Type 0 where
  outbox_entry_not_found : RetryAnswer
  wrong_state : (current_status : OutboxStatus) → RetryAnswer
  rescheduled : OutboxEntry → RetryAnswer

abbrev pub is_retryable : OutboxStatus → Bool
is_retryable dlq = true
is_retryable delivered = true
is_retryable _ = false

unfoldable pub retry_fabric_outbox_entry : (now : ℕ) (entry_id : Text) → Store → RetryAnswer × Store
retry_fabric_outbox_entry now entry_id s = elim (Table.find entry_key entry_id s.outbox) [
  | none ↦ (outbox_entry_not_found, s)
  | some e ↦ elim (is_retryable e.status) [
    | false ↦ (wrong_state e.status, s)
    | true ↦
        let e' : OutboxEntry = record e {
          status = pending;
          attempt_count = 0;
          next_attempt_at = now;
          last_error = none;
        } in
        (rescheduled e', save_entry e' s)
  ]
]
