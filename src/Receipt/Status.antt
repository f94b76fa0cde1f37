-- ===== src/Receipt/Status.antt =====
-- The status reads that the terminal polls: `get_status` of `pos_service/services/checkout.py` and
-- `get_refund_status` of `pos_service/services/refund.py`.
use hightower_pos.Prelude.{Bool, true, false, Option, none, some, List, [], ◌∷◌, if◌then◌else◌}
use hightower_pos.Prelude.Int.{ℤ}
use hightower_pos.Prelude.Text.{Text}
use hightower_pos.Model.{
  Status, complete, payment_failed, validation_failed, inventory_update_failed, cancelled,
  refund_payment_failed, refund_inventory_update_failed, Method, cash, card, Tender, Txn, Settings,
  Store, Result, ok, err, transaction_not_found, get_txn, is_refund_type,
}
use hightower_pos.Clients.Windcave.{XmlParser}
use hightower_pos.Receipt.Format.{StoreInfo, stored_tenders, format_receipt}

pub record StatusResult : Type 0 where
  pub order_id : Option Text
  pub windcave_txn_ref : Option Text
  pub card_brand : Option Text
  pub card_last4 : Option Text
  pub subtotal_cents : ℤ
  pub tax_cents : ℤ
  pub total_cents : ℤ
  pub payment_method : Option Method
  pub receipt_content : Text

pub record StatusView : Type 0 where
  pub transaction_id : Text
  pub status : Status
  pub is_terminal : Bool
  pub result : Option StatusResult

-- `TERMINAL_STATUSES`
unfoldable pub is_terminal_status : Status → Bool
is_terminal_status complete = true
is_terminal_status payment_failed = true
is_terminal_status validation_failed = true
is_terminal_status inventory_update_failed = true
is_terminal_status cancelled = true
is_terminal_status _ = false

-- `REFUND_TERMINAL_STATUSES`
unfoldable pub is_refund_terminal_status : Status → Bool
is_refund_terminal_status complete = true
is_refund_terminal_status refund_payment_failed = true
is_refund_terminal_status refund_inventory_update_failed = true
is_refund_terminal_status cancelled = true
is_refund_terminal_status _ = false

unfoldable pub has_result : Status → Bool
has_result complete = true
has_result inventory_update_failed = true
has_result _ = false

unfoldable pub has_refund_result : Status → Bool
has_refund_result complete = true
has_refund_result refund_inventory_update_failed = true
has_refund_result _ = false

-- The brand and the last digits of the first card tender.
unfoldable pub card_brand_and_last4 : List Tender → Option Text × Option Text
card_brand_and_last4 [] = (none, none)
card_brand_and_last4 (tender ∷ tenders) =
    let rest = card_brand_and_last4 tenders in
    elim tender.method [ card ↦ (tender.card_brand, tender.card_last4) | cash ↦ rest ]

module _ (parse_xml : XmlParser) (settings : Settings) (store : StoreInfo) where
  unfoldable pub status_result : (parent : Option Txn) → Txn → StatusResult
  unfolding card_brand_and_last4
  status_result parent txn =
      let (brand, last4) = card_brand_and_last4 (stored_tenders txn.tenders) in
      record {
        order_id = txn.sentry_so_id;
        windcave_txn_ref = txn.windcave_txn_ref;
        card_brand = brand;
        card_last4 = last4;
        subtotal_cents = txn.subtotal_cents;
        tax_cents = txn.tax_cents;
        total_cents = txn.total_cents;
        payment_method = txn.payment_method;
        receipt_content = format_receipt parse_xml settings store parent txn;
      }

  unfoldable pub status_view : Txn → StatusView
  unfolding is_terminal_status has_result status_result
  status_view txn = record {
    transaction_id = txn.id;
    status = txn.status;
    is_terminal = is_terminal_status txn.status;
    result = if has_result txn.status then some (status_result none txn) else none;
  }

  unfoldable pub get_status : (txn_id : Text) → Store → Result StatusView
  unfolding status_view
  get_status txn_id s = elim (get_txn txn_id s) [
    | none ↦ err transaction_not_found 404
    | some txn ↦ ok (status_view txn)
  ]

  -- `if refund_txn.parent_transaction_id:`
  unfoldable pub refund_parent : Option Text → Store → Option Txn
  refund_parent none s = none
  refund_parent (some []) s = none
  refund_parent (some (c ∷ id)) s = get_txn (c ∷ id) s

  unfoldable pub refund_status_view : Store → Txn → StatusView
  unfolding is_refund_terminal_status has_refund_result status_result refund_parent
  refund_status_view s refund_txn = record {
    transaction_id = refund_txn.id;
    status = refund_txn.status;
    is_terminal = is_refund_terminal_status refund_txn.status;
    result =
        if has_refund_result refund_txn.status
        then some (status_result (refund_parent refund_txn.parent_transaction_id s) refund_txn)
        else none;
  }

  unfoldable pub get_refund_status : (refund_txn_id : Text) → Store → Result StatusView
  unfolding refund_status_view
  get_refund_status refund_txn_id s = elim (get_txn refund_txn_id s) [
    | none ↦ err transaction_not_found 404
    | some refund_txn ↦
        if is_refund_type refund_txn.txn_type
        then ok (refund_status_view s refund_txn)
        else err transaction_not_found 404
  ]
