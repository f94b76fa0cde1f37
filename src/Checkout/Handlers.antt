-- ===== src/Checkout/Handlers.antt =====
-- The handlers of a sale as sequences of writes: `charge_cash`, `charge_card`, `cancel_checkout` and
-- the poll, of `pos_service/services/checkout.py`.
use hightower_pos.Prelude.{
  ℕ, ◌≡◌, refl, inl, inr, ◌⊎◌, Bool, true, false, ◌&&◌, ◌||◌, Option, none, some, ap, sym, ◌∙◌,
  arith, Bool-cases, Option-cases, if◌then◌else◌, subst,
}
use hightower_pos.Prelude.Int.{ℤ, ltb_ℤ}
use hightower_pos.Prelude.Text.{Text}
use hightower_pos.Table
use hightower_pos.Model.{
  Txn, Status, TxnType, sale, refund, cash, card, Store, Settings, Env, Services, Reply, returned,
  failed, crashed, WindcaveStatus, get_txn, save_txn, call, awaiting_payment, ErrorCode,
  transaction_not_found, invalid_state, unhandled_exception, ◌>>=◌, ◌>>◌, modify, pure, Result, ok,
  err, payment_in_flight, payment_success, payment_failed, cancelled, windcave_charge,
  windcave_cancel, is_sale, is_awaiting_payment, is_payment_in_flight, is_card, txn_key,
}
use hightower_pos.Checkout.Payment.{
  load_for_payment, paid_cash, charge_cash, finalize_card_charge, charged, charge_card, stop_charge,
  cancel_checkout,
}
use hightower_pos.Checkout.Moves.{IsUnpaid, paid-Writes, finalize-Writes}
use hightower_pos.Commits.{is_done, may_follow, logs, changes, Writes, nothing, then_write}
use hightower_pos.Commits.Lifecycle.{TxnOk, fits}
use hightower_pos.Commits.Books.{Books}
use hightower_pos.Commits.Sequence.{chain, Same-columns, steps}

pub found_own : (k : Text) (t : Txn) (s : Store) → get_txn k s ≡ some t → get_txn t.id s ≡ some t
found_own k t s found =
    subst (λ j. get_txn j s ≡ some t) (sym (Table.find-key txn_key k s.transactions t found)) found

-- A payment starts from a stored sale that awaits it, or is refused without a write.
pub load_for_payment-cases :
    (txn_id : Text) (s : Store)
    → ((code : ErrorCode) × (http : ℕ) × (load_for_payment txn_id s ≡ (err code http, s)))
      ⊎ ((txn : Txn) × (load_for_payment txn_id s ≡ (ok txn, s))
          × (get_txn txn.id s ≡ some txn)
          × (txn.txn_type ≡ sale)
          × (txn.status ≡ awaiting_payment))
unfolding load_for_payment
load_for_payment-cases txn_id s = elim (Option-cases (get_txn txn_id s)) [
  | inl e ↦ inl (transaction_not_found, 404, rw (e, load_for_payment) refl)
  | inr (txn, e) ↦ elim (Bool-cases (is_sale txn.txn_type && is_awaiting_payment txn.status)) [
    | inl ready ↦ inr (
      txn,
      rw (e, load_for_payment, ready) refl,
      found_own txn_id txn s e,
      sale_of txn.txn_type txn.status ready,
      awaiting_of txn.txn_type txn.status ready,
    )
    | inr not_ready ↦ inl (invalid_state txn.status, 400, rw (e, load_for_payment, not_ready) refl)
  ]
]
  where
    sale_of :
        (ty : TxnType) (st : Status) → (is_sale ty && is_awaiting_payment st) ≡ true → ty ≡ sale
    sale_of ty st h = ground arith

    awaiting_of :
        (ty : TxnType) (st : Status)
        → (is_sale ty && is_awaiting_payment st) ≡ true
        → st ≡ awaiting_payment
    awaiting_of ty st h = ground arith

pub awaiting-IsUnpaid :
    (txn : Txn) → txn.txn_type ≡ sale → txn.status ≡ awaiting_payment → IsUnpaid txn
awaiting-IsUnpaid txn ty st = (ty, rw st refl, rw st refl, rw st refl)

pub charge_cash-Writes :
    (settings : Settings) (services : Services) (env : Env) (txn_id : Text) (amount : ℤ) (s : Store)
    → Writes s (charge_cash settings services env txn_id amount s).1
unfolding charge_cash paid_cash
charge_cash-Writes settings services env txn_id amount s = elim (load_for_payment-cases txn_id s) [
  | inl (code, http, e) ↦ rw (charge_cash, ◌>>=◌, e, e) nothing
  | inr (txn, e, found, ty, st) ↦ elim (Bool-cases (ltb_ℤ amount txn.total_cents)) [
    | inl short ↦ rw (charge_cash, ◌>>=◌, e, short, e) nothing
    | inr enough ↦
        rw (charge_cash, ◌>>=◌, e, enough, e)
          (paid-Writes settings services env (paid_cash amount txn) txn cash s found
            (Same-columns txn) ty refl (rw st refl) (rw st refl))
  ]
]

-- The answer of Windcave to the charge of a sale that awaits payment.
charged-Writes :
    (settings : Settings) (services : Services) (env : Env) (txn : Txn)
    (reply : Reply WindcaveStatus) (s : Store)
    → get_txn txn.id s ≡ some txn
    → txn.txn_type ≡ sale
    → txn.status ≡ awaiting_payment
    → Writes s (charged settings services env txn reply s).1
unfolding charged
charged-Writes settings services env txn (failed e) s found ty st =
    then_write nothing
      (changes _ txn s found (steps txn _ (Same-columns txn) (rw (ty, st) refl)) (rw st refl))
charged-Writes settings services env txn (returned initial) s found ty st =
    answered initial.complete
  where
    answered :
        (done : Bool)
        → Writes s
            ((if done
                then finalize_card_charge settings services env
                    (record txn {
                      payment_method = some card;
                      windcave_response_xml = some initial.raw_xml;
                    })
                    initial
                else modify (
                    save_txn (record txn {
                      payment_method = some card;
                      windcave_response_xml = some initial.raw_xml;
                      status = payment_in_flight;
                    }))
                  >> pure (record txn {
                    payment_method = some card;
                    windcave_response_xml = some initial.raw_xml;
                    status = payment_in_flight;
                  }))
              s).1
    answered true =
        finalize-Writes settings services env
          (record txn { payment_method = some card; windcave_response_xml = some initial.raw_xml })
          txn initial s found (Same-columns txn) (awaiting-IsUnpaid txn ty st)
    answered false =
        then_write nothing
          (changes _ txn s found (steps txn _ (Same-columns txn) (rw (ty, st) refl)) (rw st refl))
charged-Writes settings services env txn crashed s found ty st = nothing

pub charge_card-Writes :
    (settings : Settings) (services : Services) (env : Env) (txn_id : Text) (s : Store)
    → Writes s (charge_card settings services env txn_id s).1
unfolding charge_card
charge_card-Writes settings services env txn_id s = elim (load_for_payment-cases txn_id s) [
  | inl (code, http, e) ↦ rw (charge_card, ◌>>=◌, e, e) nothing
  | inr (txn, e, found, ty, st) ↦
      rw (charge_card, ◌>>=◌, e, e)
        (chain (then_write nothing (logs (windcave_charge txn.total_cents txn.id) s)) (
          charged-Writes settings services env txn
            (services.windcave_charge_reply txn.total_cents txn.id)
            (call (windcave_charge txn.total_cents txn.id) s) found ty st))
]

-- The type of a stored row that waits for a sale's payment.
unpaid_sale :
    (ty : TxnType) (p : Option Text) (st : Status)
    → fits ty p st ≡ true
    → (is_awaiting_payment st || is_payment_in_flight st) ≡ true
    → (ty ≡ sale)
      × (may_follow sale st payment_success ≡ true)
      × (may_follow sale st payment_failed ≡ true)
      × (may_follow sale st cancelled ≡ true)
      × (is_done st ≡ false)
unpaid_sale sale p st h w = (refl, ground arith, ground arith, ground arith, ground arith)
unpaid_sale refund none st h w = cc
unpaid_sale refund (some p) st h w = absurd (ground arith)

module _ (s : Store) (b : Books s) where
  pub stored_sale :
      (k : Text) (txn : Txn)
      → get_txn k s ≡ some txn
      → (is_awaiting_payment txn.status || is_payment_in_flight txn.status) ≡ true
      → IsUnpaid txn × (may_follow txn.txn_type txn.status cancelled ≡ true)
  stored_sale k txn found waits =
      let ok : TxnOk txn = Table.All-find TxnOk txn_key k s.transactions txn b.shaped found in
      let (ty, pay, fail, stop, open_row) =
        unpaid_sale txn.txn_type txn.parent_transaction_id txn.status ok waits in
      ((ty, pay, fail, open_row), rw ty stop)

  cancelled-Writes :
      (txn : Txn) (s' : Store)
      → s'.transactions ≡ s.transactions
      → get_txn txn.id s ≡ some txn
      → (is_awaiting_payment txn.status || is_payment_in_flight txn.status) ≡ true
      → Writes s' (save_txn (record txn { status = cancelled }) s')
  cancelled-Writes txn s' rows found waits =
      let ((ty, pay, fail, open_row), stop) = stored_sale txn.id txn found waits in
      then_write nothing (
        changes _ txn s' (ap (Table.find txn_key txn.id) rows ∙ found)
          (steps txn _ (Same-columns txn) stop) (sym open_row))

  pub cancel_checkout-Writes :
      (services : Services) (txn_id : Text) → Writes s (cancel_checkout services txn_id s).1
  unfolding cancel_checkout stop_charge
  cancel_checkout-Writes services txn_id = elim (Option-cases (get_txn txn_id s)) [
    | inl e ↦ rw (cancel_checkout, e) nothing
    | inr (txn, e) ↦
        let found : get_txn txn.id s ≡ some txn = found_own txn_id txn s e in
        elim (Bool-cases (is_awaiting_payment txn.status || is_payment_in_flight txn.status)) [
          | inr late ↦ rw (cancel_checkout, e, late) nothing
          | inl waits ↦
              elim (Bool-cases (is_payment_in_flight txn.status && is_card txn.payment_method)) [
                | inr no_charge ↦
                    rw (cancel_checkout, e, waits, stop_charge, no_charge)
                      (cancelled-Writes txn s refl found waits)
                | inl charging ↦
                    rw (cancel_checkout, e, waits, stop_charge, charging)
                      (stopped txn found waits (services.windcave_cancel_reply txn.id))
              ]
        ]
  ]
    where
      stopped :
          (txn : Txn)
          → get_txn txn.id s ≡ some txn
          → (is_awaiting_payment txn.status || is_payment_in_flight txn.status) ≡ true
          → (r : Reply Bool)
          → (let m : Result (Unit {0}) × Store = elim r [
            | crashed ↦ (err unhandled_exception 500, call (windcave_cancel txn.id) s)
            | _ ↦ (ok tt, call (windcave_cancel txn.id) s)
          ] in
              let out : Result Txn × Store = elim m.0 [
                | ok a ↦ (
                  ok (record txn { status = cancelled }),
                  save_txn (record txn { status = cancelled }) m.1,
                )
                | err code http ↦ (err code http, m.1)
              ] in
              Writes s out.1)
      stopped txn found waits crashed = then_write nothing (logs (windcave_cancel txn.id) s)
      stopped txn found waits (failed e) =
          chain (then_write nothing (logs (windcave_cancel txn.id) s))
            (cancelled-Writes txn (call (windcave_cancel txn.id) s) refl found waits)
      stopped txn found waits (returned b) =
          chain (then_write nothing (logs (windcave_cancel txn.id) s))
            (cancelled-Writes txn (call (windcave_cancel txn.id) s) refl found waits)
