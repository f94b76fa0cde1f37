-- ===== src/Refund/Payment.antt =====
-- Paying a refund back: `charge_card_refund` and `charge_cash_refund` of
-- `pos_service/services/refund.py`.
use hightower_pos.Prelude.{ℕ, true, ◌||◌, not, Option, none, some, [], ◌∷◌, if◌then◌else◌, or_else}
use hightower_pos.Prelude.Int.{ℤ, pos, neg, magnitude}
use hightower_pos.Prelude.Text.{Text}
use hightower_pos.Model.{
  refund_payment_in_flight, refund_payment_success, refund_payment_failed,
  refund_inventory_update_failed, complete, cash, card, Tender, Txn, Store, Settings, Env, Services,
  Reply, returned, failed, crashed, RefundRequest, WindcaveStatus, WindcaveResult, approved,
  signature_required, windcave_unavailable_error, signature_required_error, sentry_error, Action,
  ok, err, pure, raise, raise_if, modify, ◌>>=◌, ◌>>◌, transaction_not_found, invalid_state,
  tender_mismatch, missing_original_dps_txn_ref, windcave_unavailable, unhandled_exception, get_txn,
  save_txn, call, create_pos_refund, log_inbound_activity, windcave_refund, or_amount, is_truthy,
  is_cash, is_card, is_refund_type, is_refund_pending,
}
use hightower_pos.Till.{attribute_transaction}
use hightower_pos.Outbox.{enqueue}
use hightower_pos.Checkout.Payment.{sentry_failure, decline_error, with_response, card_tender}

unfoldable pub load_refund_for_payment : Text → Action Txn
load_refund_for_payment refund_txn_id = λ s. elim (get_txn refund_txn_id s) [
  | none ↦ (err transaction_not_found 404, s)
  | some refund_txn ↦ (
    if not (is_refund_type refund_txn.txn_type)
        then err transaction_not_found 404
        else if is_refund_pending refund_txn.status
        then ok refund_txn
        else err (invalid_state refund_txn.status) 400,
    s,
  )
]

-- `db.get(POSTransaction, refund_txn.parent_transaction_id)`
abbrev pub parent_of : Txn → Store → Option Txn
parent_of refund_txn s = elim refund_txn.parent_transaction_id [
  | none ↦ none
  | some parent ↦ get_txn parent s
]

unfoldable pub build_refund_request : (now : ℕ) → Txn → Txn → RefundRequest
build_refund_request now refund_txn original = record {
  idempotency_key = refund_txn.id;
  original_so_id = or_else original.sentry_so_id [];
  original_external_txn_ref = original.windcave_txn_ref;
  external_refund_ref = refund_txn.windcave_txn_ref;
  cashier_id = refund_txn.cashier_id;
  terminal_id = refund_txn.terminal_id;
  completed_at = now;
  refund_summary = record {
    method = or_else refund_txn.payment_method cash;
    subtotal_cents = refund_txn.subtotal_cents;
    tax_cents = refund_txn.tax_cents;
    total_cents = refund_txn.total_cents;
    tenders = or_else refund_txn.tenders [];
  };
}

-- What the answer of `create_pos_refund` does to the paid refund and to its sale.
unfoldable pub settle_refund : Settings → Env → Txn → Txn → Reply Text → Action Txn
settle_refund settings env refund_txn original (returned refund_so_id) s =
    let (refund_txn', s') =
      attribute_transaction true
        (record refund_txn { status = complete; sentry_so_id = some refund_so_id }) s in
    let original' : Txn = record original { refund_transaction_id = some refund_txn.id } in
    (
      ok refund_txn',
      save_txn original' (save_txn refund_txn' (enqueue settings env refund_txn' s')),
    )
settle_refund settings env refund_txn original (failed e) s =
    let refund_txn' : Txn = record refund_txn {
      status = refund_inventory_update_failed;
      last_error = some (sentry_error (or_else (sentry_failure e) []) e.message);
    } in
    (
      ok refund_txn',
      call (log_inbound_activity refund_txn.id)
          (save_txn refund_txn' (enqueue settings env refund_txn' s)),
    )
settle_refund settings env refund_txn original crashed s = (err unhandled_exception 500, s)

-- A refund has a parent, so the first case is the failing `assert`.
unfoldable pub send_refund_to_sentry : Settings → Services → Env → Txn → Action Txn
unfolding build_refund_request settle_refund
send_refund_to_sentry settings services env refund_txn s = elim (parent_of refund_txn s) [
  | none ↦ (err unhandled_exception 500, s)
  | some original ↦
      let request = build_refund_request env.now refund_txn original in
      settle_refund settings env refund_txn original (services.create_pos_refund_reply request)
        (call (create_pos_refund request) s)
]

abbrev pub cash_returned : ℤ → Tender
cash_returned amount_cents = record {
  method = cash;
  amount_cents = amount_cents;
  card_brand = none;
  card_last4 = none;
  auth_code = none;
  external_ref = none;
  amount_tendered_cents = none;
  change_cents = none;
}

unfoldable pub repaid_cash : Txn → Txn
repaid_cash refund_txn = record refund_txn {
  status = refund_payment_success;
  tenders = some (cash_returned refund_txn.total_cents ∷ []);
}

unfoldable pub charge_cash_refund : Settings → Services → Env → (refund_txn_id : Text) → Action Txn
unfolding load_refund_for_payment repaid_cash send_refund_to_sentry
charge_cash_refund settings services env refund_txn_id = do
  refund_txn ← load_refund_for_payment refund_txn_id
  raise_if (not (is_cash refund_txn.payment_method)) (tender_mismatch cash) 400
  modify (save_txn (repaid_cash refund_txn))
  send_refund_to_sentry settings services env (repaid_cash refund_txn)

-- The row that is committed when Windcave has approved the refund.
unfoldable pub repaid_card : WindcaveResult → Txn → Txn
repaid_card r refund_txn = record refund_txn {
  status = refund_payment_success;
  windcave_txn_ref = r.dps_txn_ref;
  tenders = some (
      card_tender (neg (or_amount r.amount_cents (pos (magnitude refund_txn.total_cents)))) r ∷ []);
}

abbrev pub unpaid_refund : WindcaveStatus → Txn → Txn
unpaid_refund status refund_txn =
    if signature_required status
    then record refund_txn {
      status = refund_payment_failed;
      last_error = some signature_required_error;
    }
    else record refund_txn {
      status = refund_payment_failed;
      last_error = some (decline_error status.result);
    }

unfoldable pub finalize_refund_charge :
    Settings → Services → Env → Txn → WindcaveStatus → Action Txn
unfolding repaid_card send_refund_to_sentry
finalize_refund_charge settings services env refund_txn status =
    let refund_txn₁ = with_response status refund_txn in
    if signature_required status || not (approved status)
    then (modify (save_txn (unpaid_refund status refund_txn₁))
        >> pure (unpaid_refund status refund_txn₁))
    else elim status.result [
      | some r ↦
          (modify (save_txn (repaid_card r refund_txn₁))
            >> send_refund_to_sentry settings services env (repaid_card r refund_txn₁))
      | none ↦ raise unhandled_exception 500
    ]

-- What the answer of `windcave.refund` does.
unfoldable pub refund_charged : Settings → Services → Env → Txn → Reply WindcaveStatus → Action Txn
unfolding finalize_refund_charge
refund_charged settings services env refund_txn (failed e) =
    modify (
      save_txn (record refund_txn {
        status = refund_payment_failed;
        last_error = some (windcave_unavailable_error e.message);
      }))
    >> raise windcave_unavailable 502
refund_charged settings services env refund_txn (returned initial) =
    let refund_txn₁ : Txn = record refund_txn {
      windcave_response_xml = some initial.raw_xml;
      status = refund_payment_in_flight;
    } in
    if initial.complete
    then finalize_refund_charge settings services env refund_txn initial
    else (modify (save_txn refund_txn₁) >> pure refund_txn₁)
refund_charged settings services env refund_txn crashed = raise unhandled_exception 500

-- The reference of the sale's card charge, where the sale is there and has one.
abbrev pub original_ref : Option Txn → Option Text
original_ref none = none
original_ref (some original) =
    if is_truthy original.windcave_txn_ref then original.windcave_txn_ref else none

-- The second half of `charge_card_refund`, from the sale's reference on.
unfoldable pub ask_windcave : Settings → Services → Env → Txn → Action Txn
unfolding refund_charged
ask_windcave settings services env refund_txn s = elim (original_ref (parent_of refund_txn s)) [
  | none ↦ (err missing_original_dps_txn_ref 500, s)
  | some dps ↦
      let amount = pos (magnitude refund_txn.total_cents) in
      refund_charged settings services env refund_txn
        (services.windcave_refund_reply amount dps refund_txn.id)
        (call (windcave_refund amount dps refund_txn.id) s)
]

unfoldable pub charge_card_refund : Settings → Services → Env → (refund_txn_id : Text) → Action Txn
unfolding load_refund_for_payment ask_windcave
charge_card_refund settings services env refund_txn_id = do
  refund_txn ← load_refund_for_payment refund_txn_id
  raise_if (not (is_card refund_txn.payment_method)) (tender_mismatch card) 400
  ask_windcave settings services env refund_txn
