-- ===== src/Routes/Tests.antt =====
-- Examples for the results on the endpoints: a cash sale and its refund.
use hightower_pos.Prelude.{
  Option, ◌≡◌, refl, true, none, some, [], ◌∷◌, arith, Bool-cases, inl, inr, ap, ◌∙◌,
}
use hightower_pos.Prelude.Int.{pos, ◌+ℤ◌, ◌*ℤ◌}
use hightower_pos.Prelude.Text.{Text, text_eq, codes}
use hightower_pos.Table
use hightower_pos.Model.{
  Payload, Reply, failed, Txn, Store, get_txn, sale, refund, complete, ok, inventory_update_failed,
}
use hightower_pos.Samples.{settings, services, env_at, line_in, shop, shop_after_sale, sold}
use hightower_pos.Till.OneOpen.{TillsOk}
use hightower_pos.Commits.Books.{Books}
use hightower_pos.Commits.History.{Later}
use hightower_pos.Till.{attribute_transaction}
use hightower_pos.Outbox.{drain_once, enqueue, new_entry}
use hightower_pos.Clients.Windcave.{XmlParser}
use hightower_pos.Receipt.Format.{StoreInfo}
use hightower_pos.Receipt.Status.{StatusView, get_status, status_view, is_terminal_status}
use hightower_pos.Routes.Reported.{Resolves, get_status-settled}
use hightower_pos.Routes.{
  start_sale, pay_cash, serve_checkout, begin_refund, repay_cash, serve_refund, Served, at_rest,
  then_checkout, then_refund, then_drain,
}
use hightower_pos.Routes.Invariant.{Served-Books, Served-Evolves, Served-final, Served-TillsOk}

shop-Books : Books shop
unfolding Table.find Table.count
shop-Books = record {
  keyed = tt;
  shaped = tt;
  parents = λ k t there is. absurd (nothing_there t there);
  one_refund = λ k. omega arith;
  enqueued = λ k. refl;
}
  where
    nothing_there : (t : Txn) → none ≡ some t → ⊥
    nothing_there t h = cc

abbrev first_id : Text
first_id = codes "1"

abbrev after_start : Store
after_start =
    serve_checkout settings services (env_at 5 first_id)
      (start_sale (line_in ∷ []) (codes "ann") none) shop

abbrev after_pay : Store
after_pay =
    serve_checkout settings services (env_at 6 (codes "2")) (pay_cash first_id (pos 2000))
      after_start

abbrev after_begin : Store
after_begin =
    serve_refund settings services (env_at 7 (codes "3")) (begin_refund first_id (codes "ann"))
      after_pay

abbrev after_repay : Store
after_repay =
    serve_refund settings services (env_at 8 (codes "4")) (repay_cash (codes "3")) after_begin

a_day : Served settings shop after_repay
unfolding serve_checkout serve_refund Table.find Table.put Table.insert ◌+ℤ◌ ◌*ℤ◌ enqueue
    attribute_transaction Table.first
a_day =
    then_refund services (env_at 8 (codes "4")) (repay_cash (codes "3")) after_begin
      (then_refund services (env_at 7 (codes "3")) (begin_refund first_id (codes "ann")) after_pay
        (then_checkout services (env_at 6 (codes "2")) (pay_cash first_id (pos 2000)) after_start
          (then_checkout services (env_at 5 first_id) (start_sale (line_in ∷ []) (codes "ann") none)
            shop at_rest refl)
          refl)
        refl)
      refl

abbrev down : Payload → Reply (Option Text)
down p = failed (record { message = codes "down"; error_code = none })

abbrev after_drain : Store
after_drain = (drain_once down 9 5 after_repay).1

a_day_with_drain : Served settings shop after_drain
unfolding serve_checkout serve_refund Table.find Table.put Table.insert ◌+ℤ◌ ◌*ℤ◌ enqueue
    attribute_transaction Table.first
a_day_with_drain = then_drain down 9 5 after_repay a_day (refl, (refl, tt))

Served-Books_example : Books after_drain
Served-Books_example = Served-Books settings shop after_drain a_day_with_drain shop-Books

shop_after_sale-Books : Books shop_after_sale
unfolding Table.find Table.count new_entry
shop_after_sale-Books = record {
  keyed = (refl, tt);
  shaped = (refl, tt);
  parents = λ k t there is. absurd (a_sale k t there is);
  one_refund = λ k. omega arith;
  enqueued = λ k. elim (Bool-cases (text_eq (codes "s") k)) [
    | inl here ↦ rw here refl
    | inr other ↦ rw other refl
  ];
}
  where
    nothing_there : (t : Txn) → none ≡ some t → ⊥
    nothing_there t h = cc

    types : sale ≡ refund → ⊥
    types h = cc

    some_inj : {t : Txn} → some sold ≡ some t → sold ≡ t
    some_inj h = cc

    only_sold : (t : Txn) → some sold ≡ some t → t.txn_type ≡ refund → ⊥
    only_sold t h is = types (ap (λ x. x.txn_type) (some_inj h) ∙ is)

    a_sale : (k : Text) (t : Txn) → get_txn k shop_after_sale ≡ some t → t.txn_type ≡ refund → ⊥
    a_sale k t there is = elim (Bool-cases (text_eq (codes "s") k)) [
      | inl here ↦ only_sold t (rw (here, Table.find) at there) is
      | inr other ↦ nothing_there t (rw (other, Table.find) at there)
    ]

a_refund : Served settings shop_after_sale (
    serve_refund settings services
      (env_at 9 (codes "r"))
      (begin_refund (codes "s") (codes "ann"))
      shop_after_sale)
unfolding Table.find
a_refund =
    then_refund services (env_at 9 (codes "r")) (begin_refund (codes "s") (codes "ann"))
      shop_after_sale at_rest refl

Served-Evolves_example :
    (t' : Txn) × (get_txn (codes "s") (
        serve_refund settings services
          (env_at 9 (codes "r"))
          (begin_refund (codes "s") (codes "ann"))
          shop_after_sale)
      ≡ some t')
    × Later sold t'
unfolding Table.find
Served-Evolves_example =
    Served-Evolves settings shop_after_sale
      (serve_refund settings services (env_at 9 (codes "r"))
        (begin_refund (codes "s") (codes "ann")) shop_after_sale)
      a_refund shop_after_sale-Books (codes "s") sold refl

Served-final_example :
    (t' : Txn) × (get_txn (codes "s") (
        serve_refund settings services
          (env_at 9 (codes "r"))
          (begin_refund (codes "s") (codes "ann"))
          shop_after_sale)
      ≡ some t')
    × (t'.status ≡ complete)
unfolding Table.find
Served-final_example =
    Served-final settings shop_after_sale
      (serve_refund settings services (env_at 9 (codes "r"))
        (begin_refund (codes "s") (codes "ann")) shop_after_sale)
      a_refund shop_after_sale-Books (codes "s") sold refl refl

one_till : TillsOk shop.till_sessions
unfolding Table.find Table.count
one_till = record {
  keyed = (refl, tt);
  one_open = λ c. elim (Bool-cases (text_eq (codes "ann") c)) [
    | inl here ↦ rw here (omega arith)
    | inr other ↦ rw other (omega arith)
  ];
}

Served-TillsOk_example : TillsOk after_drain.till_sessions
Served-TillsOk_example =
    Served-TillsOk settings shop after_drain a_day_with_drain shop-Books one_till

abbrev no_xml : XmlParser
no_xml text = none

abbrev hightower : StoreInfo
hightower = record {
  store_name = codes "Hightower";
  store_address_line_1 = [];
  store_address_line_2 = [];
  store_phone = [];
}

get_status-settled_example :
    (v' : StatusView) × (get_status no_xml settings hightower (codes "s") (
        serve_refund settings services
          (env_at 9 (codes "r"))
          (begin_refund (codes "s") (codes "ann"))
          shop_after_sale)
      ≡ ok v')
    × (v'.is_terminal ≡ true)
    × Resolves inventory_update_failed complete v'.status
unfolding Table.find get_status is_terminal_status
get_status-settled_example =
    get_status-settled no_xml settings hightower shop_after_sale
      (serve_refund settings services (env_at 9 (codes "r"))
        (begin_refund (codes "s") (codes "ann")) shop_after_sale)
      a_refund shop_after_sale-Books (codes "s") (status_view no_xml settings hightower sold) refl
      refl

-- The refund that the day ended with.
abbrev repaid : Txn
repaid = elim (get_txn (codes "3") after_repay) [ none ↦ sold | some t ↦ t ]
