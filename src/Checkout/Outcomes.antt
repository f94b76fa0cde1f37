-- ===== src/Checkout/Outcomes.antt =====
-- What the caller of `start_checkout` of `pos_service/services/checkout.py` gets, and what is stored.
use hightower_pos.Prelude.{
  ◌≡◌, refl, inl, inr, Bool, true, false, Option, none, some, List, [], map, Bool-cases,
  if◌then◌else◌, subst, or_else,
}
use hightower_pos.Prelude.Int.{pos}
use hightower_pos.Prelude.Text.{Text}
use hightower_pos.Table
use hightower_pos.Model.{
  Txn, sale, Store, Settings, Env, Services, Reply, returned, failed, crashed, ValidationResult,
  Result, ok, err, get_txn, save_txn, add_txn, call, awaiting_payment, validate_cart, txn_key,
  ◌>>=◌, ◌>>◌, pure, modify, raise, validation_failed, validation_failed_error, conflicts_error,
}
use hightower_pos.Checkout.Pricing.{
  LineIn, Customer, scan_prices, price_lines, new_sale, no_customer, cart_line, validated, is_empty,
  start_checkout,
}
use hightower_pos.Checkout.Totals.{IsBalanced, new_sale-IsBalanced}
use hightower_pos.Commits.Sequence.{just_saved}

-- A sale that is ready for payment: stored as it was returned, with amounts that add up.
pub record IsReady (t : Txn) (s : Store) : Type 0 where
  pub stored : get_txn t.id s ≡ some t
  pub awaits : t.status ≡ awaiting_payment
  pub is_sale : t.txn_type ≡ sale
  pub balanced : IsBalanced t

-- What the answer to the cart validation makes of a stored, balanced sale.
AfterValidation : Result Txn × Store → Type 0
AfterValidation (ok t, s) = IsReady t s
AfterValidation (err code http, s) = Unit

validated-IsReady :
    (txn : Txn) (reply : Reply ValidationResult) (s : Store)
    → get_txn txn.id s ≡ some txn
    → txn.txn_type ≡ sale
    → IsBalanced txn
    → AfterValidation (validated txn reply s)
unfolding AfterValidation validated
validated-IsReady txn (failed e) s found ty b = tt
validated-IsReady txn crashed s found ty b = tt
validated-IsReady txn (returned result) s found ty b = answered result.valid
  where
    answered :
        (valid : Bool)
        → AfterValidation (
            (if valid
                then modify (save_txn (record txn { status = awaiting_payment }))
                  >> pure (record txn { status = awaiting_payment })
                else modify (
                    save_txn (record txn {
                      status = validation_failed;
                      last_error = some (conflicts_error result.conflicts);
                    }))
                  >> raise (validation_failed_error result.conflicts) 409)
              s)
    answered true = record {
      stored = just_saved (record txn { status = awaiting_payment }) txn s found;
      awaits = refl;
      is_sale = ty;
      balanced = record { total = b.total; taxes = b.taxes; lines = b.lines };
    }
    answered false = tt

-- A sale that `start_checkout` returns is stored as returned and awaits its payment, and its total is the
-- subtotal plus the tax, which are the sums over its lines. The new uuid must be unused.
pub start_checkout-IsReady :
    (settings : Settings) (services : Services) (env : Env) (lines : List LineIn)
    (cashier_id : Text) (customer : Option Customer) (s s' : Store) (t : Txn)
    → get_txn env.txn_id s ≡ none
    → start_checkout settings services env lines cashier_id customer s ≡ (ok t, s')
    → IsReady t s'
unfolding start_checkout new_sale AfterValidation
start_checkout-IsReady settings services env lines cashier_id customer s s' t fresh h =
    subst AfterValidation h (elim (Bool-cases (is_empty (scan_prices s.prices lines ([], [])).0)) [
      | inr missing ↦ rw (start_checkout, ◌>>=◌, missing) tt
      | inl priced ↦
          let prices = (scan_prices s.prices lines ([], [])).1 in
          let txn : Txn =
            new_sale settings env (price_lines settings prices lines ([], pos 0, pos 0)) cashier_id
              (or_else customer no_customer) in
          rw (start_checkout, ◌>>=◌, priced)
            (validated-IsReady txn (services.validate_cart_reply (map cart_line lines))
              (call (validate_cart (map cart_line lines)) (add_txn txn s))
              (Table.find-insert_self txn_key txn s.transactions fresh) refl
              (new_sale-IsBalanced settings env prices lines cashier_id
                (or_else customer no_customer)))
    ])
