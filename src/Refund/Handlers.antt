-- ===== src/Refund/Handlers.antt =====
-- The handlers of a refund as sequences of writes: `start_refund`, `charge_cash_refund`,
-- `charge_card_refund`, `cancel_refund` and the poll, of `pos_service/services/refund.py`.
use hightower_pos.Prelude.{
  ℕ, ◌≡◌, refl, inl, inr, ◌⊎◌, true, ◌&&◌, none, some, arith, Bool-cases, Option-cases, ltb,
}
use hightower_pos.Prelude.Text.{Text}
use hightower_pos.Model.{
  Txn, TxnType, Status, sale, refund, Store, Settings, Env, Services, ErrorCode, ok, err,
  transaction_not_found, invalid_state, not_a_completed_sale, refund_window_expired,
  already_refunded, ◌>>=◌, get_txn, refund_pending, is_sale, is_complete, is_refund_type,
  is_refund_pending, is_cash,
}
use hightower_pos.Checkout.Handlers.{found_own}
use hightower_pos.Refund.Start.{
  existing_blocking_refund, days_since, lookup_refund, new_refund, start_refund,
}
use hightower_pos.Refund.Payment.{load_refund_for_payment, repaid_cash, charge_cash_refund}
use hightower_pos.Refund.Moves.{repaid-Writes}
use hightower_pos.Commits.{adds, starts_refund, Writes, nothing, then_write}
use hightower_pos.Commits.Books.{Books}
use hightower_pos.Commits.Sequence.{Same-columns}

-- The gates pass only for a stored, complete sale without a blocking refund.
pub lookup_refund-cases :
    (settings : Settings) (now : ℕ) (id : Text) (s : Store)
    → ((code : ErrorCode) × (http : ℕ) × (lookup_refund settings now id s ≡ err code http))
      ⊎ ((o : Txn) × (lookup_refund settings now id s ≡ ok o)
          × (get_txn o.id s ≡ some o)
          × (o.txn_type ≡ sale)
          × (existing_blocking_refund o.id s ≡ none))
unfolding lookup_refund
lookup_refund-cases settings now id s = elim (Option-cases (get_txn id s)) [
  | inl e ↦ inl (transaction_not_found, 404, rw (e, lookup_refund) refl)
  | inr (o, e) ↦ elim (Bool-cases (is_sale o.txn_type && is_complete o.status)) [
    | inr other ↦ inl (not_a_completed_sale o.status, 422, rw (e, lookup_refund, other) refl)
    | inl done ↦ elim (Bool-cases (ltb settings.refund_window_days (days_since now o))) [
      | inl late ↦
          inl
            (refund_window_expired (days_since now o), 422, rw (e, lookup_refund, done, late) refl)
      | inr in_time ↦ elim (Option-cases (existing_blocking_refund o.id s)) [
        | inr (blocker, e₂) ↦
            inl (already_refunded blocker.id, 422, rw (e, lookup_refund, done, in_time, e₂) refl)
        | inl e₂ ↦ inr (
          o,
          rw (e, lookup_refund, done, in_time, e₂) refl,
          found_own id o s e,
          sale_of o.txn_type o.status done,
          e₂,
        )
      ]
    ]
  ]
]
  where
    sale_of : (ty : TxnType) (st : Status) → (is_sale ty && is_complete st) ≡ true → ty ≡ sale
    sale_of ty st h = ground arith

pub start_refund-Writes :
    (settings : Settings) (env : Env) (id cashier_id : Text) (s : Store)
    → get_txn env.txn_id s ≡ none
    → Writes s (start_refund settings env id cashier_id s).1
unfolding start_refund new_refund existing_blocking_refund
start_refund-Writes settings env id cashier_id s fresh =
    elim (lookup_refund-cases settings env.now id s) [
      | inl (code, http, e) ↦ rw (start_refund, e) nothing
      | inr (o, e, found, o_sale, none_yet) ↦
          rw (start_refund, e)
            (then_write nothing (
              adds (new_refund env cashier_id o) s fresh
                (starts_refund o.id o refl refl refl found o_sale none_yet)))
    ]

-- A refund is paid only from a stored row that waits for it.
pub load_refund-cases :
    (refund_txn_id : Text) (s : Store)
    → ((code : ErrorCode) × (http : ℕ) × (load_refund_for_payment refund_txn_id s
          ≡ (err code http, s)))
      ⊎ ((txn : Txn) × (load_refund_for_payment refund_txn_id s ≡ (ok txn, s))
          × (get_txn txn.id s ≡ some txn)
          × (txn.txn_type ≡ refund)
          × (txn.status ≡ refund_pending))
unfolding load_refund_for_payment
load_refund-cases refund_txn_id s = elim (Option-cases (get_txn refund_txn_id s)) [
  | inl e ↦ inl (transaction_not_found, 404, rw (e, load_refund_for_payment) refl)
  | inr (txn, e) ↦ elim (Bool-cases (is_refund_type txn.txn_type)) [
    | inr other ↦ inl (transaction_not_found, 404, rw (e, load_refund_for_payment, other) refl)
    | inl is ↦ elim (Bool-cases (is_refund_pending txn.status)) [
      | inr late ↦
          inl (invalid_state txn.status, 400, rw (e, load_refund_for_payment, is, late) refl)
      | inl waits ↦ inr (
        txn,
        rw (e, load_refund_for_payment, is, waits) refl,
        found_own refund_txn_id txn s e,
        type_of txn.txn_type is,
        pending_of txn.status waits,
      )
    ]
  ]
]
  where
    type_of : (ty : TxnType) → is_refund_type ty ≡ true → ty ≡ refund
    type_of ty h = ground arith

    pending_of : (st : Status) → is_refund_pending st ≡ true → st ≡ refund_pending
    pending_of st h = ground arith

module _ (settings : Settings) (services : Services) (env : Env) (s : Store) (b : Books s) where
  pub charge_cash_refund-Writes :
      (refund_txn_id : Text) → Writes s (charge_cash_refund settings services env refund_txn_id s).1
  unfolding charge_cash_refund repaid_cash
  charge_cash_refund-Writes refund_txn_id = elim (load_refund-cases refund_txn_id s) [
    | inl (code, http, e) ↦ rw (charge_cash_refund, ◌>>=◌, e, e) nothing
    | inr (txn, e, found, ty, st) ↦ elim (Bool-cases (is_cash txn.payment_method)) [
      | inr other ↦ rw (charge_cash_refund, ◌>>=◌, e, other, e) nothing
      | inl by_cash ↦
          rw (charge_cash_refund, ◌>>=◌, e, by_cash, e)
            (repaid-Writes settings services env (repaid_cash txn) txn s b found (Same-columns txn)
              ty refl (rw st refl) (rw st refl))
    ]
  ]
