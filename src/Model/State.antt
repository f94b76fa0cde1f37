-- ===== src/Model/State.antt =====
-- The store of one POS service: its tables, and the log of the calls that it has made to the outside.
-- A handler is an `Action`: what it committed stays when it raises.
use hightower_pos.Prelude.{ℕ, Bool, Option, List, [], ◌∷◌, ◌++◌, if◌then◌else◌}
use hightower_pos.Prelude.Int.{ℤ}
use hightower_pos.Prelude.Text.{Text}
use hightower_pos.Table
use hightower_pos.Model.Rows.{
  Status, Method, CartConflict, Txn, TillSession, User, Session, Price, PriceImport, OutboxEntry,
  Payload,
}
use hightower_pos.Model.Wire.{CartLine, CheckoutRequest, RefundRequest}

-- A request that left the service.
pub data Call : Type 0 where
  validate_cart : List CartLine → Call
  create_pos_so : CheckoutRequest → Call
  create_pos_refund : RefundRequest → Call
  log_inbound_activity : (key : Text) → Call
  windcave_charge : (amount_cents : ℤ) (txn_ref : Text) → Call
  windcave_refund : (amount_cents : ℤ) (original_dps_txn_ref txn_ref : Text) → Call
  windcave_cancel : (txn_ref : Text) → Call
  write_sales_order : Payload → Call

pub record Store : Type 0 where
  pub transactions : List Txn
  pub till_sessions : List TillSession
  pub users : List User
  pub sessions : List Session
  pub prices : List Price
  pub price_imports : List PriceImport
  pub outbox : List OutboxEntry
  pub calls : List Call

-- `CheckoutError.code` with its `extra`; `unhandled_exception` is an exception that reaches the
-- framework.
pub data ErrorCode : Type 0 where
  price_missing : (skus_without_price : List Text) → ErrorCode
  sentry_unavailable windcave_unavailable transaction_not_found : ErrorCode
  validation_failed_error : (conflicts : List CartConflict) → ErrorCode
  insufficient_tender : (total_cents : ℤ) → ErrorCode
  invalid_state not_a_completed_sale : (current_status : Status) → ErrorCode
  refund_window_expired : (days_since_sale : ℕ) → ErrorCode
  already_refunded : (refund_transaction_id : Text) → ErrorCode
  tender_mismatch : (expected : Method) → ErrorCode
  missing_original_dps_txn_ref unhandled_exception : ErrorCode

pub data Result (A : Type 0) : Type 0 where
  ok : A → Result A
  err : (code : ErrorCode) (http_status : ℕ) → Result A

abbrev pub Action : Type 0 → Type 0
Action A = Store → Result A × Store

module _ {A : Type 0} where
  abbrev pub pure : A → Action A
  pure a s = (ok a, s)

  abbrev pub raise : ErrorCode → ℕ → Action A
  raise code http s = (err code http, s)

  abbrev pub gets : (Store → A) → Action A
  gets f s = (ok (f s), s)

infixl 5 ◌>>=◌ ◌>>◌
abbrev pub ◌>>=◌ : {A B : Type 0} → Action A → (A → Action B) → Action B
◌>>=◌ m f s = let (r, s') = m s in elim r [ ok a ↦ f a s' | err code http ↦ (err code http, s') ]

abbrev pub ◌>>◌ : {A B : Type 0} → Action A → Action B → Action B
m >> k = m >>= λ _. k

abbrev pub raise_if : Bool → ErrorCode → ℕ → Action (Unit {0})
raise_if c code http s = (if c then err code http else ok tt, s)

abbrev pub modify : (Store → Store) → Action (Unit {0})
modify f s = (ok tt, f s)

-- The tables' keys.
abbrev pub txn_key : Txn → Text
txn_key t = t.id

abbrev pub till_key : TillSession → Text
till_key t = t.id

abbrev pub entry_key : OutboxEntry → Text
entry_key e = e.id

abbrev pub user_key : User → Text
user_key u = u.username

abbrev pub session_key : Session → Text
session_key t = t.session_token

abbrev pub price_key : Price → Text
price_key p = p.sku

-- `db.get(POSTransaction, id)`.
abbrev pub get_txn : Text → Store → Option Txn
get_txn k s = Table.find txn_key k s.transactions

-- `db.commit()` with one changed transaction, one new one, and one changed till session.
abbrev pub save_txn : Txn → Store → Store
save_txn t s = record s { transactions = Table.put txn_key t s.transactions }

abbrev pub add_txn : Txn → Store → Store
add_txn t s = record s { transactions = Table.insert txn_key t s.transactions }

abbrev pub save_till : TillSession → Store → Store
save_till t s = record s { till_sessions = Table.put till_key t s.till_sessions }

abbrev pub save_entry : OutboxEntry → Store → Store
save_entry e s = record s { outbox = Table.put entry_key e s.outbox }

abbrev pub call : Call → Store → Store
call c s = record s { calls = s.calls ++ c ∷ [] }
