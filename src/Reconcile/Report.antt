-- ===== src/Reconcile/Report.antt =====
-- The reports of `retry_failed_sales` and `retry_failed_refunds` of
-- `pos_service/services/reconciliation.py`.
use hightower_pos.Prelude.{
  ℕ, ◌+◌, ◌≡◌, ◌≢◌, refl, sym, ap, ◌∙◌, Bool, true, some, List, [], ◌∷◌, length, keep, map, arith,
  length-map, subst, or_else, All, All-keep, Bool-cases, inl, inr,
}
use hightower_pos.Prelude.Text.{Text, text_eq, text_eq→eq, text_eq-sym, ne_of_text_eq}
use hightower_pos.Table
use hightower_pos.Model.{
  Txn, Status, Store, Services, Reply, returned, failed, crashed, ok, complete, cash,
  inventory_update_failed, refund_inventory_update_failed, get_txn, save_txn, call, txn_key,
  create_pos_so, create_pos_refund,
}
use hightower_pos.Checkout.Payment.{build_checkout_request}
use hightower_pos.Checkout.Handlers.{found_own}
use hightower_pos.Refund.Payment.{build_refund_request}
use hightower_pos.Refund.Moves.{apart}
use hightower_pos.Reconcile.{
  RetryReport, recovered, settle_retry_sale, settle_retry_refund, retry_one_sale, retry_one_refund,
  retry_failed_sales, retry_failed_refunds, is_failed_sale, is_failed_refund,
}
use hightower_pos.Reconcile.Moves.{retry_one_sale-Writes, retry_one_refund-Writes}
use hightower_pos.Reconcile.Loops.{IsTurn, kept-AllApart}
use hightower_pos.Reconcile.Runs.{sale_columns, refund_columns, sale_others, refund_others}
use hightower_pos.Reconcile.Reported.{
  status_in, status_of, Keeps, Turned, Adds, Outcome, rows-Outcome,
}
use hightower_pos.Commits.Books.{Books}
use hightower_pos.Commits.Sequence.{just_saved}

count_all : (xs : List Text) → Table.count (λ x. true) xs ≡ length xs
unfolding Table.count
count_all [] = refl
count_all (x ∷ xs) = omega (arith, count_all xs)

-- A report on `rows`: the ids of all of them, each as often as it is there, those in the first list now
-- stored as `good` and those in the second still as `bad`.
pub record IsReport (good bad : Status) (rows : List Txn) (r : RetryReport) (s' : Store)
    : Type 0 where
  pub scanned : r.scanned ≡ length rows
  pub counted : length r.succeeded + length r.still_failing ≡ r.scanned
  pub each :
      (q : Text → Bool)
      → Table.count q r.succeeded + Table.count q r.still_failing ≡ Table.count q (map txn_key rows)
  pub all_good : All (λ id. status_of id s' ≡ some good) r.succeeded
  pub all_bad : All (λ id. status_of id s' ≡ some bad) r.still_failing

-- Saving a row changes the status of no other row, and none at all if the row keeps its own.
save-Keeps : (t : Txn) (s : Store) → Keeps t.id s (save_txn t s)
save-Keeps t s k ne =
    ap status_in (
      Table.find-put_ne txn_key k t s.transactions (ne_of_text_eq t.id k (text_eq-sym t.id k ∙ ne)))

save_same-status :
    (o o' : Txn) (s : Store) (k : Text)
    → get_txn o'.id s ≡ some o
    → o'.status ≡ o.status
    → status_of k (save_txn o' s) ≡ status_of k s
save_same-status o o' s k there same = elim (Bool-cases (text_eq k o'.id)) [
  | inr other ↦ save-Keeps o' s k other
  | inl here ↦
      ap (λ j. status_of j (save_txn o' s)) (text_eq→eq k o'.id here)
      ∙ ap status_in (just_saved o' o s there)
      ∙ ap some same
      ∙ sym (ap status_in there)
      ∙ sym (ap (λ j. status_of j s) (text_eq→eq k o'.id here))
]

module _ (services : Services) (now : ℕ) where
  sale-Turned :
      (t : Txn) (s : Store)
      → IsTurn is_failed_sale s t
      → Turned complete inventory_update_failed t s (retry_one_sale services now t s)
  unfolding retry_one_sale
  sale-Turned t s turn =
      let request = build_checkout_request now t (or_else t.payment_method cash) in
      settled (services.create_pos_so_reply request) (call (create_pos_so request) s) turn.0
    where
      settled :
          (reply : Reply Text) (u : Store)
          → get_txn t.id u ≡ some t
          → Turned complete inventory_update_failed t u (settle_retry_sale t reply u)
      settled (failed e) u h =
          (ap status_in (just_saved _ t u h) ∙ ap some (sale_columns t turn.1).1, save-Keeps _ u)
      settled (returned so_id) u h = (ap status_in (just_saved _ t u h), save-Keeps _ u)
      settled crashed u h = tt

  refund-Turned :
      (t : Txn) (s : Store)
      → Books s
      → IsTurn is_failed_refund s t
      → Turned complete refund_inventory_update_failed t s (retry_one_refund services now t s)
  unfolding retry_one_refund
  refund-Turned t s b turn =
      let (ty, st) = refund_columns t turn.1 in
      let (p, o, up, at_o, o_sale) = b.parents t.id t turn.0 ty in
      let request = build_refund_request now t o in
      rw (retry_one_refund, up, at_o)
        (settled o (apart t o s turn.0 (found_own p o s at_o) ty o_sale)
          (services.create_pos_refund_reply request) (call (create_pos_refund request) s) turn.0
          (found_own p o s at_o))
    where
      settled :
          (o : Txn)
          → o.id ≢ t.id
          → (reply : Reply Text) (u : Store) → get_txn t.id u ≡ some t
          → get_txn o.id u ≡ some o
          → Turned complete refund_inventory_update_failed t u (settle_retry_refund t o reply u)
      settled o away (failed e) u h at_o =
          (ap status_in (just_saved _ t u h) ∙ ap some (refund_columns t turn.1).1, save-Keeps _ u)
      settled o away (returned so_id) u h at_o =
          let u' : Store = save_txn (recovered t so_id) u in
          let o' : Txn = record o { refund_transaction_id = some t.id } in
          let at_o' : get_txn o.id u' ≡ some o =
            Table.find-put_ne txn_key o.id (recovered t so_id) u.transactions away ∙ at_o in
          (
            save_same-status o o' u' t.id at_o' refl
                ∙ ap status_in (just_saved (recovered t so_id) t u h),
            λ k ne. save_same-status o o' u' k at_o' refl ∙ save-Keeps (recovered t so_id) u k ne,
          )
      settled o away crashed u h at_o = tt

abbrev no_report : ℕ → RetryReport
no_report n = record { scanned = n; succeeded = []; still_failing = [] }

Adds-IsReport :
    (good bad : Status) (rows : List Txn) (r : RetryReport) (s s' : Store)
    → Adds good bad rows (no_report (length rows)) r s s'
    → IsReport good bad rows r s'
Adds-IsReport good bad rows r s s' a =
    let each : (q : Text → Bool)
        → Table.count q r.succeeded + Table.count q r.still_failing
          ≡ Table.count q (map txn_key rows) =
      λ q.
        ap (λ xs. Table.count q xs + Table.count q r.still_failing) a.succeeded
        ∙ ap (λ xs. Table.count q a.done + Table.count q xs) a.still_failing
        ∙ a.each q in
    record {
      scanned = a.scanned;
      counted = omega (
        arith,
        each (λ x. true),
        count_all r.succeeded,
        count_all r.still_failing,
        count_all (map txn_key rows),
        length-map txn_key rows,
        a.scanned,
      );
      each = each;
      all_good = subst (All (λ id. status_of id s' ≡ some good)) (sym a.succeeded) a.all_good;
      all_bad = subst (All (λ id. status_of id s' ≡ some bad)) (sym a.still_failing) a.all_bad;
    }

turns : (p : Txn → Bool) (s : Store) → Books s → All (IsTurn p s) (keep p s.transactions)
turns p s b =
    All-keep (λ t. get_txn t.id s ≡ some t) (IsTurn p s) p (λ t kept stored. (stored, kept))
      s.transactions (Table.keyed-found txn_key s.transactions b.keyed)

-- A run of the retry over the failed sales that ends without an exception has scanned every sale whose
-- status is INVENTORY_UPDATE_FAILED, and reports the id of each of them once: as succeeded if the sale
-- is stored as COMPLETE after the run, as still failing if it is stored as INVENTORY_UPDATE_FAILED.
-- The books must be in order before it.
pub retry_failed_sales_accounts :
    (services : Services) (now : ℕ) (s s' : Store) (r : RetryReport)
    → Books s
    → retry_failed_sales services now s ≡ (ok r, s')
    → IsReport complete inventory_update_failed (keep is_failed_sale s.transactions) r s'
unfolding retry_failed_sales
retry_failed_sales_accounts services now s s' r b h =
    let rows = keep is_failed_sale s.transactions in
    let run =
      rows-Outcome complete inventory_update_failed is_failed_sale (retry_one_sale services now)
        (λ t u b' turn.
          let (ty, st) = sale_columns t turn.1 in
          retry_one_sale-Writes services now t u turn.0 ty st)
        (λ t x u b' turn turn_x d. sale_others services now t x u d turn_x.0)
        (λ t u b' turn. sale-Turned services now t u turn) rows (no_report (length rows)) s b
        (kept-AllApart is_failed_sale s.transactions b.keyed) (turns is_failed_sale s b) in
    Adds-IsReport complete inventory_update_failed rows r s s'
      (subst (Outcome complete inventory_update_failed rows (no_report (length rows)) s) h run)

-- A run of the retry over the failed refunds that ends without an exception has scanned every refund
-- whose status is REFUND_INVENTORY_UPDATE_FAILED, and reports the id of each of them once: as succeeded
-- if the refund is stored as COMPLETE after the run, as still failing if it is stored as
-- REFUND_INVENTORY_UPDATE_FAILED. The books must be in order before it.
pub retry_failed_refunds_accounts :
    (services : Services) (now : ℕ) (s s' : Store) (r : RetryReport)
    → Books s
    → retry_failed_refunds services now s ≡ (ok r, s')
    → IsReport complete refund_inventory_update_failed (keep is_failed_refund s.transactions) r s'
unfolding retry_failed_refunds
retry_failed_refunds_accounts services now s s' r b h =
    let rows = keep is_failed_refund s.transactions in
    let run =
      rows-Outcome complete refund_inventory_update_failed is_failed_refund
        (retry_one_refund services now)
        (λ t u b' turn.
          let (ty, st) = refund_columns t turn.1 in
          retry_one_refund-Writes services now t u b' turn.0 ty st)
        (λ t x u b' turn turn_x d. refund_others services now t x u b' turn turn_x d)
        (λ t u b' turn. refund-Turned services now t u b' turn) rows (no_report (length rows)) s b
        (kept-AllApart is_failed_refund s.transactions b.keyed) (turns is_failed_refund s b) in
    Adds-IsReport complete refund_inventory_update_failed rows r s s' (
      subst (Outcome complete refund_inventory_update_failed rows (no_report (length rows)) s) h
        run)
