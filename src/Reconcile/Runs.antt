-- ===== src/Reconcile/Runs.antt =====
-- `retry_failed_sales` and `retry_failed_refunds` of `pos_service/services/reconciliation.py` as
-- sequences of writes.
use hightower_pos.Prelude.{ℕ, ◌≡◌, ◌≢◌, true, ◌&&◌, some, arith, sym, ◌∙◌, or_else}
use hightower_pos.Prelude.Text.{Text, ne_of_text_eq, text_eq-sym}
use hightower_pos.Table
use hightower_pos.Model.{
  Txn, TxnType, Status, sale, refund, cash, Store, Services, Reply, returned, failed, crashed,
  get_txn, save_txn, call, txn_key, create_pos_so, create_pos_refund, is_sale, is_refund_type,
  inventory_update_failed, refund_inventory_update_failed,
}
use hightower_pos.Checkout.Payment.{build_checkout_request}
use hightower_pos.Checkout.Handlers.{found_own}
use hightower_pos.Refund.Payment.{build_refund_request}
use hightower_pos.Refund.Moves.{apart}
use hightower_pos.Reconcile.{
  is_inventory_update_failed, is_refund_inventory_update_failed, recovered, settle_retry_sale,
  settle_retry_refund, retry_one_sale, retry_one_refund, is_failed_sale, is_failed_refund,
  retry_failed_sales, retry_failed_refunds,
}
use hightower_pos.Reconcile.Moves.{retry_one_sale-Writes, retry_one_refund-Writes}
use hightower_pos.Reconcile.Loops.{Apart, IsTurn, kept-Writes}
use hightower_pos.Commits.{Writes}
use hightower_pos.Commits.Books.{Books}

pub sale_columns :
    (t : Txn) → is_failed_sale t ≡ true → (t.txn_type ≡ sale) × (t.status ≡ inventory_update_failed)
sale_columns t h = columns t.txn_type t.status h
  where
    columns :
        (ty : TxnType) (st : Status)
        → (is_sale ty && is_inventory_update_failed st) ≡ true
        → (ty ≡ sale) × (st ≡ inventory_update_failed)
    columns ty st h = (ground arith, ground arith)

pub refund_columns :
    (t : Txn)
    → is_failed_refund t ≡ true
    → (t.txn_type ≡ refund) × (t.status ≡ refund_inventory_update_failed)
refund_columns t h = columns t.txn_type t.status h
  where
    columns :
        (ty : TxnType) (st : Status)
        → (is_refund_type ty && is_refund_inventory_update_failed st) ≡ true
        → (ty ≡ refund) × (st ≡ refund_inventory_update_failed)
    columns ty st h = (ground arith, ground arith)

-- Another row is still found after a row is saved.
other_row :
    (t x : Txn) (s : Store)
    → Apart t x
    → get_txn x.id s ≡ some x
    → get_txn x.id (save_txn t s) ≡ some x
other_row t x s d at_x =
    Table.find-put_ne txn_key x.id t s.transactions
      (ne_of_text_eq t.id x.id (text_eq-sym t.id x.id ∙ d))
    ∙ at_x

pub sale_others :
    (services : Services) (now : ℕ) (t x : Txn) (s : Store)
    → Apart t x
    → get_txn x.id s ≡ some x
    → get_txn x.id (retry_one_sale services now t s).1 ≡ some x
unfolding retry_one_sale
sale_others services now t x s d at_x =
    let request = build_checkout_request now t (or_else t.payment_method cash) in
    settled (services.create_pos_so_reply request) (call (create_pos_so request) s) at_x
  where
    settled :
        (reply : Reply Text) (u : Store)
        → get_txn x.id u ≡ some x
        → get_txn x.id (settle_retry_sale t reply u).1 ≡ some x
    settled (failed e) u h = other_row _ x u d h
    settled (returned so_id) u h = other_row (recovered t so_id) x u d h
    settled crashed u h = h

pub refund_others :
    (services : Services) (now : ℕ) (t x : Txn) (s : Store)
    → Books s
    → IsTurn is_failed_refund s t
    → IsTurn is_failed_refund s x
    → Apart t x
    → get_txn x.id (retry_one_refund services now t s).1 ≡ some x
unfolding retry_one_refund
refund_others services now t x s b turn turn_x d =
    let (ty, st) = refund_columns t turn.1 in
    let (ty_x, st_x) = refund_columns x turn_x.1 in
    let (p, o, up, at_o, o_sale) = b.parents t.id t turn.0 ty in
    let request = build_refund_request now t o in
    rw (retry_one_refund, up, at_o)
      (settled o (apart x o s turn_x.0 (found_own p o s at_o) ty_x o_sale)
        (services.create_pos_refund_reply request) (call (create_pos_refund request) s) turn_x.0)
  where
    settled :
        (o : Txn)
        → o.id ≢ x.id
        → (reply : Reply Text) (u : Store) → get_txn x.id u ≡ some x
        → get_txn x.id (settle_retry_refund t o reply u).1 ≡ some x
    settled o away (failed e) u h = other_row _ x u d h
    settled o away (returned so_id) u h =
        Table.find-put_ne txn_key x.id _ (save_txn (recovered t so_id) u).transactions
          (λ e. away (sym e))
        ∙ other_row (recovered t so_id) x u d h
    settled o away crashed u h = h

pub retry_failed_sales-Writes :
    (services : Services) (now : ℕ) (s : Store)
    → Books s
    → Writes s (retry_failed_sales services now s).1
unfolding retry_failed_sales
retry_failed_sales-Writes services now s b =
    kept-Writes is_failed_sale (retry_one_sale services now)
      (λ t u b' turn.
        let (ty, st) = sale_columns t turn.1 in retry_one_sale-Writes services now t u turn.0 ty st)
      (λ t x u b' turn turn_x d. sale_others services now t x u d turn_x.0) _ s b

pub retry_failed_refunds-Writes :
    (services : Services) (now : ℕ) (s : Store)
    → Books s
    → Writes s (retry_failed_refunds services now s).1
unfolding retry_failed_refunds
retry_failed_refunds-Writes services now s b =
    kept-Writes is_failed_refund (retry_one_refund services now)
      (λ t u b' turn.
        let (ty, st) = refund_columns t turn.1 in
        retry_one_refund-Writes services now t u b' turn.0 ty st)
      (λ t x u b' turn turn_x d. refund_others services now t x u b' turn turn_x d) _ s b
