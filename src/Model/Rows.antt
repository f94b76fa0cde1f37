-- ===== src/Model/Rows.antt =====
-- The rows of `pos_service/models.py`. A status column holds one of a fixed set of strings, so it is
-- a data type; a JSON column holds the value that it encodes; a time is in whole seconds.
use hightower_pos.Prelude.{ℕ, Bool, Option, List}
use hightower_pos.Prelude.Int.{ℤ}
use hightower_pos.Prelude.Text.{Text}

-- `POSTransaction.status`, for sales and refunds.
pub data Status : Type 0 where
  pending_validation validation_failed awaiting_payment : Status
  payment_in_flight payment_success payment_failed : Status
  inventory_update_failed complete cancelled : Status
  refund_pending refund_payment_in_flight refund_payment_success : Status
  refund_payment_failed refund_inventory_update_failed : Status

pub data TxnType : Type 0 where
  sale refund : TxnType

-- The tender of a transaction.
pub data Method : Type 0 where
  cash card : Method

-- One line of `cart_json`.
pub record RichLine : Type 0 where
  pub sku : Text
  pub name : Text
  pub warehouse_id : Text
  pub bin_id : Text
  pub quantity : ℤ
  pub is_taxable : Bool
  pub unit_price_cents : ℤ
  pub tax_cents : ℤ
  pub line_total_cents : ℤ

-- One entry of `tenders_json`, with the keys of `clients/sentry.py`'s `Tender`.
pub record Tender : Type 0 where
  pub method : Method
  pub amount_cents : ℤ
  pub card_brand : Option Text
  pub card_last4 : Option Text
  pub auth_code : Option Text
  pub external_ref : Option Text
  pub amount_tendered_cents : Option ℤ
  pub change_cents : Option ℤ

-- A reason that Sentry gives for refusing a line.
pub record CartConflict : Type 0 where
  pub line_index : ℕ
  pub sku : Text
  pub warehouse_id : Text
  pub bin_id : Text
  pub requested_qty : ℤ
  pub available_qty : ℤ
  pub reason : Text

-- The texts that `last_error` is given, by the format strings that make them.
pub data LastError : Type 0 where
  sentry_unavailable_error : Text → LastError
  conflicts_error : List CartConflict → LastError
  windcave_unavailable_error : Text → LastError
  polling_timeout signature_required_error declined : LastError
  declined_with : Option Text → LastError
  sentry_error : (error_code message : Text) → LastError

pub record Txn : Type 0 where
  pub id : Text
  pub status : Status
  pub txn_type : TxnType
  pub parent_transaction_id : Option Text
  pub refund_transaction_id : Option Text
  pub cart : List RichLine
  pub subtotal_cents : ℤ
  pub tax_cents : ℤ
  pub total_cents : ℤ
  pub payment_method : Option Method
  pub tenders : Option (List Tender)
  pub windcave_txn_ref : Option Text
  pub windcave_response_xml : Option Text
  pub sentry_so_id : Option Text
  pub cashier_id : Text
  pub terminal_id : Text
  pub customer_id : Option Text
  pub customer_name : Option Text
  pub customer_email : Option Text
  pub customer_phone : Option Text
  pub last_error : Option LastError
  pub retry_count : ℕ
  pub till_session_id : Option Text
  pub created_at : ℕ

pub data TillStatus : Type 0 where
  opened closed : TillStatus

pub record TillSession : Type 0 where
  pub id : Text
  pub cashier_id : Text
  pub terminal_id : Text
  pub status : TillStatus
  pub opening_float_cents : ℤ
  pub opening_denominations : List (Text × ℤ)
  pub closing_count_cents : Option ℤ
  pub closing_denominations : Option (List (Text × ℤ))
  pub expected_closing_cents : Option ℤ
  pub variance_cents : Option ℤ
  pub cash_sales_cents : ℤ
  pub cash_refunds_cents : ℤ
  pub transaction_count : ℕ
  pub cash_transaction_count : ℕ
  pub opened_at : ℕ
  pub closed_at : Option ℕ
  pub pdf_path : Option Text

pub record User : Type 0 where
  pub username : Text
  pub password_hash : Text
  pub display_name : Text
  pub is_active : Bool
  pub must_change_password : Bool
  pub created_at : ℕ

pub record Session : Type 0 where
  pub session_token : Text
  pub username : Text
  pub expires_at : ℕ

pub record Price : Type 0 where
  pub sku : Text
  pub unit_price_cents : ℤ
  pub updated_at : ℕ

-- Why `import_csv` of `services/pricing.py` rejects a line.
pub data RejectReason : Type 0 where
  missing_columns empty_sku price_not_numeric price_negative : RejectReason

pub record RejectedLine : Type 0 where
  pub row : ℕ
  pub raw : Text
  pub reason : RejectReason

pub record PriceImport : Type 0 where
  pub id : ℕ
  pub filename : Text
  pub rows_imported : ℕ
  pub rows_rejected : ℕ
  pub rejected_lines : Option (List RejectedLine)
  pub imported_by : Text
  pub created_at : ℕ

pub data OutboxStatus : Type 0 where
  pending in_flight delivered dlq : OutboxStatus

-- The body of the sales order that the outbox posts, from `services/fabric_outbox.py`.
pub record Payload : Type 0 where
  pub external_so_ref : Text
  pub sentry_so_id : Option Text
  pub txn_type : TxnType
  pub parent_transaction_id : Option Text
  pub source : Text
  pub fulfillment_channel : Text
  pub status : Text
  pub register_id : Text
  pub cashier_id : Text
  pub terminal_id : Text
  pub completed_at : ℕ
  pub currency : Text
  pub subtotal_cents : ℤ
  pub tax_cents : ℤ
  pub total_cents : ℤ
  pub payment_method : Option Method
  pub customer_id : Option Text
  pub customer_name : Option Text
  pub customer_email : Option Text
  pub customer_phone : Option Text
  pub lines : List RichLine

pub record OutboxEntry : Type 0 where
  pub id : Text
  pub pos_transaction_id : Text
  pub payload : Payload
  pub status : OutboxStatus
  pub attempt_count : ℕ
  pub next_attempt_at : ℕ
  pub last_error : Option Text
  pub fabric_so_id : Option Text
  pub created_at : ℕ
