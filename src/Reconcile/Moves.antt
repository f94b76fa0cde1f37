-- ===== src/Reconcile/Moves.antt =====
-- What one retry of `pos_service/services/reconciliation.py`, started from the admin endpoint, writes.
use hightower_pos.Prelude.{
  ℕ, ◌≡◌, refl, inl, inr, Bool, true, false, some, Option-cases, arith, ◌∙◌, or_else, if◌then◌else◌,
}
use hightower_pos.Prelude.Text.{Text}
use hightower_pos.Table
use hightower_pos.Model.{
  Txn, TxnType, Status, sale, refund, cash, Store, Services, Reply, returned, failed, crashed,
  get_txn, save_txn, call, Result, err, invalid_state, create_pos_so, create_pos_refund,
  inventory_update_failed, refund_inventory_update_failed, txn_key,
}
use hightower_pos.Checkout.Payment.{build_checkout_request}
use hightower_pos.Checkout.Handlers.{found_own}
use hightower_pos.Refund.Payment.{build_refund_request}
use hightower_pos.Refund.Moves.{apart}
use hightower_pos.Reconcile.{
  recovered, settle_retry_sale, retry_one_sale, settle_retry_refund, retry_one_refund,
  is_inventory_update_failed, is_refund_inventory_update_failed, retry_sentry,
}
use hightower_pos.Commits.{logs, changes, Writes, nothing, then_write}
use hightower_pos.Commits.Books.{Books}
use hightower_pos.Commits.Sequence.{chain, Same-columns, steps, stays}

pub failed_sale :
    (st : Status) → is_inventory_update_failed st ≡ true → st ≡ inventory_update_failed
failed_sale st h = ground arith

pub failed_refund :
    (st : Status)
    → is_refund_inventory_update_failed st ≡ true
    → st ≡ refund_inventory_update_failed
failed_refund st h = ground arith

module _ (txn : Txn) (s : Store) (found : get_txn txn.id s ≡ some txn) where
  settle_retry_sale-Writes :
      (reply : Reply Text)
      → txn.txn_type ≡ sale
      → txn.status ≡ inventory_update_failed
      → Writes s (settle_retry_sale txn reply s).1
  unfolding settle_retry_sale
  settle_retry_sale-Writes (failed e) ty st =
      then_write nothing (changes _ txn s found (stays txn _ (Same-columns txn) refl) refl)
  settle_retry_sale-Writes (returned so_id) ty st =
      then_write nothing
        (changes _ txn s found (steps txn _ (Same-columns txn) (rw (ty, st) refl)) (rw st refl))
  settle_retry_sale-Writes crashed ty st = nothing

  settle_retry_refund-Writes :
      (o : Txn) (reply : Reply Text)
      → txn.txn_type ≡ refund
      → txn.status ≡ refund_inventory_update_failed
      → get_txn o.id s ≡ some o
      → o.txn_type ≡ sale
      → Writes s (settle_retry_refund txn o reply s).1
  unfolding settle_retry_refund
  settle_retry_refund-Writes o (failed e) ty st at_o o_sale =
      then_write nothing (changes _ txn s found (stays txn _ (Same-columns txn) refl) refl)
  settle_retry_refund-Writes o (returned so_id) ty st at_o o_sale =
      let there : get_txn o.id (save_txn (recovered txn so_id) s) ≡ some o =
        Table.find-put_ne txn_key o.id (recovered txn so_id) s.transactions
          (apart txn o s found at_o ty o_sale)
        ∙ at_o in
      then_write
        (then_write nothing
          (changes _ txn s found (steps txn _ (Same-columns txn) (rw (ty, st) refl)) (rw st refl)))
        (changes _ o _ there (stays o _ (Same-columns o) refl) refl)
  settle_retry_refund-Writes o crashed ty st at_o o_sale = nothing

pub retry_one_sale-Writes :
    (services : Services) (now : ℕ) (txn : Txn) (s : Store)
    → get_txn txn.id s ≡ some txn
    → txn.txn_type ≡ sale
    → txn.status ≡ inventory_update_failed
    → Writes s (retry_one_sale services now txn s).1
unfolding retry_one_sale
retry_one_sale-Writes services now txn s found ty st =
    let request = build_checkout_request now txn (or_else txn.payment_method cash) in
    chain (then_write nothing (logs (create_pos_so request) s)) (
      settle_retry_sale-Writes txn (call (create_pos_so request) s) found
        (services.create_pos_so_reply request) ty st)

pub retry_one_refund-Writes :
    (services : Services) (now : ℕ) (txn : Txn) (s : Store)
    → Books s
    → get_txn txn.id s ≡ some txn
    → txn.txn_type ≡ refund
    → txn.status ≡ refund_inventory_update_failed
    → Writes s (retry_one_refund services now txn s).1
unfolding retry_one_refund
retry_one_refund-Writes services now txn s b found ty st =
    let (p, o, up, at_o, o_sale) = b.parents txn.id txn found ty in
    let request = build_refund_request now txn o in
    rw (retry_one_refund, up, at_o)
      (chain (then_write nothing (logs (create_pos_refund request) s)) (
        settle_retry_refund-Writes txn (call (create_pos_refund request) s) found o
          (services.create_pos_refund_reply request) ty st (found_own p o s at_o) o_sale))

pub retry_sentry-Writes :
    (services : Services) (now : ℕ) (id : Text) (s : Store)
    → Books s
    → Writes s (retry_sentry services now id s).1
unfolding retry_sentry
retry_sentry-Writes services now id s b = elim (Option-cases (get_txn id s)) [
  | inl e ↦ rw (retry_sentry, e) nothing
  | inr (txn, e) ↦ rw (retry_sentry, e) (routed txn (found_own id txn s e) txn.txn_type refl)
]
  where
    sale_route :
        (txn : Txn)
        → get_txn txn.id s ≡ some txn
        → txn.txn_type ≡ sale
        → (b : Bool) → is_inventory_update_failed txn.status ≡ b
        → (let out : Result Bool × Store =
              if b
              then retry_one_sale services now txn s
              else (err (invalid_state txn.status) 400, s) in
            Writes s out.1)
    sale_route txn found ty true h =
        retry_one_sale-Writes services now txn s found ty (failed_sale txn.status h)
    sale_route txn found ty false h = nothing

    refund_route :
        (txn : Txn)
        → get_txn txn.id s ≡ some txn
        → txn.txn_type ≡ refund
        → (b : Bool) → is_refund_inventory_update_failed txn.status ≡ b
        → (let out : Result Bool × Store =
              if b
              then retry_one_refund services now txn s
              else (err (invalid_state txn.status) 400, s) in
            Writes s out.1)
    refund_route txn found ty true h =
        retry_one_refund-Writes services now txn s b found ty (failed_refund txn.status h)
    refund_route txn found ty false h = nothing

    routed :
        (txn : Txn)
        → get_txn txn.id s ≡ some txn
        → (ty : TxnType) → txn.txn_type ≡ ty
        → (let out : Result Bool × Store = elim ty [
          | sale ↦
              if is_inventory_update_failed txn.status
              then retry_one_sale services now txn s
              else (err (invalid_state txn.status) 400, s)
          | refund ↦
              if is_refund_inventory_update_failed txn.status
              then retry_one_refund services now txn s
              else (err (invalid_state txn.status) 400, s)
        ] in
            Writes s out.1)
    routed txn found sale ty = sale_route txn found ty (is_inventory_update_failed txn.status) refl
    routed txn found refund ty =
        refund_route txn found ty (is_refund_inventory_update_failed txn.status) refl
