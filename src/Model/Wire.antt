-- ===== src/Model/Wire.antt =====
-- What crosses to Sentry and Windcave: the request and reply models of `pos_service/clients`, and the
-- three ways in which a client call ends.
use hightower_pos.Prelude.{ℕ, zero, suc, Bool, true, false, ◌&&◌, Option, none, some, List, [], ◌∷◌}
use hightower_pos.Prelude.Int.{ℤ, pos}
use hightower_pos.Prelude.Text.{Text, text_eq, codes}
use hightower_pos.Model.Rows.{Method, Tender, CartConflict}

-- `SentryClientError`, `WindcaveClientError`: the message, and the error code where there is one.
pub record ClientError : Type 0 where
  pub message : Text
  pub error_code : Option Text

-- A call returns, raises the client's own error, or raises an exception that no handler expects.
pub data Reply (A : Type 0) : Type 0 where
  returned : A → Reply A
  failed : ClientError → Reply A
  crashed : Reply A

pub record CartLine : Type 0 where
  pub sku : Text
  pub warehouse_id : Text
  pub bin_id : Text
  pub quantity : ℤ

pub record ValidationResult : Type 0 where
  pub valid : Bool
  pub conflicts : List CartConflict

pub record CheckoutLine : Type 0 where
  pub sku : Text
  pub warehouse_id : Text
  pub bin_id : Text
  pub quantity : ℤ
  pub unit_price_cents : ℤ
  pub tax_cents : ℤ
  pub line_total_cents : ℤ

-- `PaymentSummary` and `RefundSummary`.
pub record PaymentSummary : Type 0 where
  pub method : Method
  pub subtotal_cents : ℤ
  pub tax_cents : ℤ
  pub total_cents : ℤ
  pub tenders : List Tender

pub record CheckoutRequest : Type 0 where
  pub idempotency_key : Text
  pub external_txn_ref : Option Text
  pub cashier_id : Text
  pub terminal_id : Text
  pub completed_at : ℕ
  pub payment_summary : PaymentSummary
  pub lines : List CheckoutLine

pub record RefundRequest : Type 0 where
  pub idempotency_key : Text
  pub original_so_id : Text
  pub original_external_txn_ref : Option Text
  pub external_refund_ref : Option Text
  pub cashier_id : Text
  pub terminal_id : Text
  pub completed_at : ℕ
  pub refund_summary : PaymentSummary

pub record WindcaveResult : Type 0 where
  pub approved : Bool
  pub auth_code : Option Text
  pub card_brand : Option Text
  pub card_masked : Option Text
  pub card_last4 : Option Text
  pub dps_txn_ref : Option Text
  pub txn_datetime : Option Text
  pub response_code : Option Text
  pub response_text : Option Text
  pub amount_cents : Option ℕ

-- `WindcaveStatusResponse`, without the display and receipt fields that no service reads.
pub record WindcaveStatus : Type 0 where
  pub txn_ref : Text
  pub complete : Bool
  pub txn_status_id : Option Text
  pub result : Option WindcaveResult
  pub raw_xml : Text

abbrev pub signature_txn_status_id : Text
signature_txn_status_id = codes "7"

-- The properties `approved` and `signature_required` of `WindcaveStatusResponse`.
unfoldable pub approved : WindcaveStatus → Bool
approved s = s.complete && elim s.result [ none ↦ false | some r ↦ r.approved ]

unfoldable pub signature_required : WindcaveStatus → Bool
signature_required s = elim s.txn_status_id [
  | none ↦ false
  | some t ↦ text_eq t signature_txn_status_id
]

-- What the outside answers, request by request.
pub record Services : Type 0 where
  pub validate_cart_reply : List CartLine → Reply ValidationResult
  pub create_pos_so_reply : CheckoutRequest → Reply Text
  pub create_pos_refund_reply : RefundRequest → Reply Text
  pub windcave_charge_reply : (amount_cents : ℤ) (txn_ref : Text) → Reply WindcaveStatus
  pub windcave_refund_reply :
      (amount_cents : ℤ) (original_dps_txn_ref txn_ref : Text) → Reply WindcaveStatus
  pub windcave_cancel_reply : (txn_ref : Text) → Reply Bool
  pub windcave_status_reply : (poll : ℕ) (txn_ref : Text) → Reply WindcaveStatus

-- `a or b` on optional texts: an absent or empty text gives way.
abbrev pub or_text : Option Text → Option Text → Option Text
or_text none b = b
or_text (some []) b = b
or_text (some (c ∷ t)) b = some (c ∷ t)

-- `amount_cents or total`: an absent or zero amount gives way.
abbrev pub or_amount : Option ℕ → ℤ → ℤ
or_amount none total = total
or_amount (some zero) total = total
or_amount (some (suc n)) total = pos (suc n)

-- `if text:` and `if not text:` on an optional text.
abbrev pub is_truthy : Option Text → Bool
is_truthy none = false
is_truthy (some []) = false
is_truthy (some (c ∷ t)) = true
