-- ===== src/Refund/Freed.antt =====
-- What a cancelled refund leaves for the next one: `cancel_refund` and `lookup_refund` of
-- `pos_service/services/refund.py`.
use hightower_pos.Prelude.{ℕ, ◌≡◌, refl, true, ◌&&◌, none, some, arith, ap, ◌∙◌}
use hightower_pos.Prelude.Text.{text_eq_refl}
use hightower_pos.Table
use hightower_pos.Table.{bit}
use hightower_pos.Model.{
  Txn, TxnType, Status, sale, refund, refund_payment_in_flight, cancelled, Store, Settings, ok,
  get_txn, save_txn, txn_key, is_sale, is_complete,
}
use hightower_pos.Refund.Start.{blocks, existing_blocking_refund, lookup_refund}
use hightower_pos.Refund.Poll.{cancel_refund}
use hightower_pos.Refund.Blocking.{IsGate}
use hightower_pos.Refund.Moves.{apart}
use hightower_pos.Commits.Books.{Books}

module _ (r o : Txn) (s : Store) (b : Books s) (found : get_txn r.id s ≡ some r)
    (ty : r.txn_type ≡ refund) (st : r.status ≡ refund_payment_in_flight)
    (par : r.parent_transaction_id ≡ some o.id) where
  -- The refund was the only one that blocked the sale.
  unblocked : existing_blocking_refund o.id (save_txn (record r { status = cancelled }) s) ≡ none
  unfolding existing_blocking_refund
  unblocked =
      let gone : Txn = record r { status = cancelled } in
      let before : bit (blocks o.id r) ≡ 1 = rw (par, st, text_eq_refl o.id) refl in
      let after : bit (blocks o.id gone) ≡ 0 = rw (par, text_eq_refl o.id) refl in
      Table.first-count_zero (blocks o.id) (Table.put txn_key gone s.transactions) (
        omega (
          arith,
          before,
          after,
          b.one_refund o.id,
          Table.count-put (blocks o.id) txn_key gone s.transactions r found,
        ))

  stopped : (cancel_refund r.id s).1 ≡ save_txn (record r { status = cancelled }) s
  unfolding cancel_refund
  stopped = rw (cancel_refund, found, ty, st) refl

sale_of : (ty : TxnType) (st : Status) → (is_sale ty && is_complete st) ≡ true → ty ≡ sale
sale_of ty st h = ground arith

-- Cancelling a refund whose payment is in flight frees its sale for another refund: the gates that the
-- sale passed before it was refunded pass again. The cancel itself makes no call to the outside, so it
-- does not ask Windcave to stop the payment.
pub cancel_refund-frees :
    (settings : Settings) (now : ℕ) (r o : Txn) (s : Store)
    → Books s
    → get_txn r.id s ≡ some r
    → r.txn_type ≡ refund
    → r.status ≡ refund_payment_in_flight
    → r.parent_transaction_id ≡ some o.id
    → get_txn o.id s ≡ some o
    → IsGate settings now o
    → (lookup_refund settings now o.id (cancel_refund r.id s).1 ≡ ok o)
      × ((cancel_refund r.id s).1.calls ≡ s.calls)
unfolding lookup_refund
cancel_refund-frees settings now r o s b found ty st par at_o (done, in_time) =
    let gone : Txn = record r { status = cancelled } in
    let there : get_txn o.id (save_txn gone s) ≡ some o =
      Table.find-put_ne txn_key o.id gone s.transactions
        (apart r o s found at_o ty (sale_of o.txn_type o.status done))
      ∙ at_o in
    let passes : lookup_refund settings now o.id (save_txn gone s) ≡ ok o =
      rw (there, lookup_refund, done, in_time, unblocked r o s b found ty st par) refl in
    let stops = stopped r o s b found ty st par in
    (ap (lookup_refund settings now o.id) stops ∙ passes, ap (λ u. u.calls) stops)
