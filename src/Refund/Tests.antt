-- ===== src/Refund/Tests.antt =====
-- Examples for the results on refunds.
use hightower_pos.Outbox.{new_entry}
use hightower_pos.Commits.Books.{Books, RefersToSale}
use hightower_pos.Refund.Poll.{cancel_refund}
use hightower_pos.Refund.Freed.{cancel_refund-frees}
use hightower_pos.Prelude.{
  none, ap, ◌∙◌, subst, ◌⊎◌, ◌≡◌, refl, some, [], ◌∷◌, arith, Bool-cases, inl, inr,
}
use hightower_pos.Prelude.Int.{neg, pos, ◌+ℤ◌}
use hightower_pos.Prelude.Text.{Text, text_eq, codes}
use hightower_pos.Table
use hightower_pos.Model.{
  ok, sale, refund, refund_payment_in_flight, get_txn, Txn, Store, TillSession, err, returned,
  already_refunded,
}
use hightower_pos.Samples.{settings, env_at, sold, shop, shop_after_sale, till_session}
use hightower_pos.Till.{get_open_session, expected_closing}
use hightower_pos.Till.OneOpen.{TillsOk}
use hightower_pos.Checkout.Payment.{settle_sale}
use hightower_pos.Refund.Payment.{settle_refund}
use hightower_pos.Refund.Start.{lookup_refund, new_refund, start_refund}
use hightower_pos.Refund.Blocking.{start_refund-blocks}
use hightower_pos.Refund.Drift.{refund-drift}

-- Nine days after the sale it can still be refunded, but only once.
start_refund-blocks_example :
    start_refund settings
      (env_at 777601 (codes "q"))
      (codes "s")
      (codes "bob")
      (start_refund settings
        (env_at 777600 (codes "r"))
        (codes "s")
        (codes "ann")
        shop_after_sale).1
    ≡ (
      err (already_refunded (codes "r")) 422,
      (start_refund settings
          (env_at 777600 (codes "r"))
          (codes "s")
          (codes "ann")
          shop_after_sale).1,
    )
unfolding Table.find lookup_refund Table.first
start_refund-blocks_example =
    start_refund-blocks settings (env_at 777600 (codes "r")) (env_at 777601 (codes "q")) (codes "s")
      (codes "ann") (codes "bob") shop_after_sale sold refl refl refl

one_till : TillsOk shop.till_sessions
unfolding Table.find Table.count
one_till = record {
  keyed = (refl, tt);
  one_open = λ c. elim (Bool-cases (text_eq (codes "ann") c)) [
    | inl here ↦ rw here (omega arith)
    | inr other ↦ rw other (omega arith)
  ];
}

abbrev cash_refund : Txn
cash_refund = new_refund (env_at 9 (codes "r")) (codes "ann") sold

abbrev after_sale : Store
after_sale = (settle_sale settings (env_at 8 (codes "s")) sold (returned (codes "SO1")) shop).1

abbrev after_refund : Store
after_refund =
    (settle_refund settings (env_at 9 (codes "r")) cash_refund sold (returned (codes "SO2"))
      after_sale).1

refund-drift_example :
    (u : TillSession) × (get_open_session (codes "ann") after_refund ≡ some u)
    × (expected_closing u ≡ expected_closing till_session +ℤ (pos 1080 +ℤ pos 1080))
unfolding get_open_session Table.first
refund-drift_example =
    refund-drift settings (env_at 8 (codes "s")) (env_at 9 (codes "r")) sold cash_refund sold
      (codes "SO1") (codes "SO2") shop till_session one_till refl refl
      (record { total = refl; method = refl; cashier = refl })

-- The refund of the sale, by card this time, while Windcave works on it.
abbrev working : Txn
working = record sold {
  id = codes "r";
  status = refund_payment_in_flight;
  txn_type = refund;
  parent_transaction_id = some (codes "s");
  total_cents = neg (pos 1080);
}

abbrev shop_refunding : Store
shop_refunding = record shop_after_sale { transactions = sold ∷ working ∷ [] }

rows_of : (k : Text) (t : Txn) → get_txn k shop_refunding ≡ some t → (sold ≡ t) ⊎ (working ≡ t)
unfolding Table.find
rows_of k t there = elim (Bool-cases (text_eq (codes "s") k)) [
  | inl here ↦ inl (some_inj (rw (here, Table.find) at there))
  | inr other ↦ elim (Bool-cases (text_eq (codes "r") k)) [
    | inl here ↦ inr (some_inj (rw (other, Table.find, here) at there))
    | inr away ↦ absurd (none≢some (rw (other, Table.find, away) at there))
  ]
]
  where
    some_inj : {a : Txn} → some a ≡ some t → a ≡ t
    some_inj h = cc

    none≢some : none ≡ some t → ⊥
    none≢some h = cc

shop_refunding-Books : Books shop_refunding
unfolding Table.find Table.count new_entry
shop_refunding-Books = record {
  keyed = (refl, (refl, tt));
  shaped = (refl, (refl, tt));
  parents = λ k t there is. elim (rows_of k t there) [
    | inl e ↦ absurd (types (ap (λ x. x.txn_type) e ∙ is))
    | inr e ↦ subst (RefersToSale shop_refunding) e (codes "s", sold, refl, refl, refl)
  ];
  one_refund = λ k. elim (Bool-cases (text_eq (codes "s") k)) [
    | inl here ↦ rw here (omega arith)
    | inr other ↦ rw other (omega arith)
  ];
  enqueued = λ k. elim (Bool-cases (text_eq (codes "s") k)) [
    | inl here ↦ rw here refl
    | inr other ↦ elim (Bool-cases (text_eq (codes "r") k)) [
      | inl also ↦ rw (other, also) refl
      | inr away ↦ rw (other, away) refl
    ]
  ];
}
  where
    types : sale ≡ refund → ⊥
    types h = cc

cancel_refund-frees_example :
    (lookup_refund settings 9 (codes "s") (cancel_refund (codes "r") shop_refunding).1 ≡ ok sold)
    × ((cancel_refund (codes "r") shop_refunding).1.calls ≡ shop_refunding.calls)
unfolding Table.find
cancel_refund-frees_example =
    cancel_refund-frees settings 9 working sold shop_refunding shop_refunding-Books refl refl refl
      refl refl (refl, refl)
