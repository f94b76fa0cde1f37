-- ===== src/Reconcile/Tests.antt =====
-- Examples for the results on the retries: a failed sale with a failed refund, and Sentry takes only
-- the refund.
use hightower_pos.Prelude.{
  ◌≡◌, ◌⊎◌, refl, sym, ap, ◌∙◌, subst, none, some, [], ◌∷◌, keep, arith, Bool-cases, inl, inr,
}
use hightower_pos.Prelude.Text.{Text, codes, text_eq, text_eq→eq}
use hightower_pos.Table
use hightower_pos.Model.{
  Txn, Store, Services, failed, complete, inventory_update_failed, refund_inventory_update_failed,
  sale, refund, get_txn,
}
use hightower_pos.Outbox.{new_entry}
use hightower_pos.Samples.{services, settings, env_at, sold, shop}
use hightower_pos.Commits.Books.{Books, RefersToSale}
use hightower_pos.Reconcile.{
  RetryReport, retry_failed_sales, retry_failed_refunds, is_failed_sale, is_failed_refund,
}
use hightower_pos.Reconcile.Report.{
  IsReport, retry_failed_sales_accounts, retry_failed_refunds_accounts,
}

abbrev down : Services
down = record services {
  create_pos_so_reply = λ request. failed (record { message = codes "down"; error_code = none });
}

abbrev failed_sale : Txn
failed_sale = record sold { status = inventory_update_failed }

abbrev failed_refund : Txn
failed_refund = record sold {
  id = codes "r";
  status = refund_inventory_update_failed;
  txn_type = refund;
  parent_transaction_id = some (codes "s");
}

abbrev failed_shop : Store
failed_shop = record shop {
  transactions = failed_sale ∷ failed_refund ∷ [];
  outbox =
      new_entry settings (env_at 2 (codes "e")) failed_sale
      ∷ new_entry settings (env_at 3 (codes "f")) failed_refund
      ∷ [];
}

rows_of :
    (k : Text) (t : Txn) → get_txn k failed_shop ≡ some t → (failed_sale ≡ t) ⊎ (failed_refund ≡ t)
unfolding Table.find
rows_of k t there = elim (Bool-cases (text_eq (codes "s") k)) [
  | inl here ↦ inl (some_inj (rw (here, Table.find) at there))
  | inr other ↦ elim (Bool-cases (text_eq (codes "r") k)) [
    | inl here ↦ inr (some_inj (rw (other, Table.find, here) at there))
    | inr away ↦ absurd (none≢some (rw (other, Table.find, away) at there))
  ]
]
  where
    some_inj : {a b : Txn} → some a ≡ some b → a ≡ b
    some_inj h = cc

    none≢some : {a : Txn} → none ≡ some a → ⊥
    none≢some h = cc

failed_shop-Books : Books failed_shop
unfolding Table.find Table.count new_entry
failed_shop-Books = record {
  keyed = (refl, (refl, tt));
  shaped = (refl, (refl, tt));
  parents = λ k t there is. elim (rows_of k t there) [
    | inl e ↦ absurd (types (ap (λ x. x.txn_type) e ∙ is))
    | inr e ↦ subst (RefersToSale failed_shop) e (codes "s", failed_sale, refl, refl, refl)
  ];
  one_refund = λ k. elim (Bool-cases (text_eq (codes "s") k)) [
    | inl here ↦ rw here (omega arith)
    | inr other ↦ rw other (omega arith)
  ];
  enqueued = λ k. elim (Bool-cases (text_eq (codes "s") k)) [
    | inl here ↦ rw (here, ap (text_eq (codes "r")) (sym (text_eq→eq (codes "s") k here))) refl
    | inr other ↦ elim (Bool-cases (text_eq (codes "r") k)) [
      | inl also ↦ rw (other, also) refl
      | inr away ↦ rw (other, away) refl
    ]
  ];
}
  where
    types : sale ≡ refund → ⊥
    types h = cc

abbrev sales_report : RetryReport
sales_report = record { scanned = 1; succeeded = []; still_failing = codes "s" ∷ [] }

retry_failed_sales_accounts_example :
    IsReport complete inventory_update_failed
      (keep is_failed_sale failed_shop.transactions)
      sales_report
      (retry_failed_sales down 9 failed_shop).1
unfolding retry_failed_sales
retry_failed_sales_accounts_example =
    retry_failed_sales_accounts down 9 failed_shop (retry_failed_sales down 9 failed_shop).1
      sales_report failed_shop-Books refl

abbrev refunds_report : RetryReport
refunds_report = record { scanned = 1; succeeded = codes "r" ∷ []; still_failing = [] }

retry_failed_refunds_accounts_example :
    IsReport complete refund_inventory_update_failed
      (keep is_failed_refund failed_shop.transactions)
      refunds_report
      (retry_failed_refunds down 9 failed_shop).1
unfolding retry_failed_refunds Table.find
retry_failed_refunds_accounts_example =
    retry_failed_refunds_accounts down 9 failed_shop (retry_failed_refunds down 9 failed_shop).1
      refunds_report failed_shop-Books refl
