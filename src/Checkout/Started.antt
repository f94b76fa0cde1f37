-- ===== src/Checkout/Started.antt =====
-- What the start of a sale and the end of its poll write: `start_checkout` and
-- `poll_card_until_complete` of `pos_service/services/checkout.py`.
use hightower_pos.Prelude.{
  ◌≡◌, refl, inl, inr, Bool, true, false, ◌||◌, Option, none, some, arith, Bool-cases, Option-cases,
  if◌then◌else◌, List, [], suc, or_else, map,
}
use hightower_pos.Prelude.Int.{pos}
use hightower_pos.Prelude.Text.{Text}
use hightower_pos.Table
use hightower_pos.Model.{
  Txn, Status, sale, Store, Settings, Env, Services, Reply, returned, failed, crashed,
  ValidationResult, get_txn, save_txn, add_txn, call, awaiting_payment, validation_failed,
  pending_validation, validate_cart, is_awaiting_payment, is_payment_in_flight, txn_key, ◌>>=◌,
  ◌>>◌, pure, modify, raise, conflicts_error, validation_failed_error,
}
use hightower_pos.Checkout.Pricing.{
  LineIn, Customer, scan_prices, price_lines, new_sale, no_customer, cart_line, validated, is_empty,
  start_checkout,
}
use hightower_pos.Checkout.Poll.{
  PollEnd, final, timed_out, poll_crashed, out_of_fuel, poll_loop, finish_poll,
  poll_card_until_complete, deadline_ms,
}
use hightower_pos.Checkout.Moves.{finalize-Writes}
use hightower_pos.Checkout.Handlers.{stored_sale, found_own}
use hightower_pos.Commits.{logs, changes, adds, starts_sale, Writes, nothing, then_write}
use hightower_pos.Commits.Books.{Books}
use hightower_pos.Commits.Sequence.{chain, Same-columns, steps}

-- The answer of the cart validation, for a stored sale that waits for it.
validated-Writes :
    (txn : Txn) (reply : Reply ValidationResult) (s : Store)
    → get_txn txn.id s ≡ some txn
    → txn.txn_type ≡ sale
    → txn.status ≡ pending_validation
    → Writes s (validated txn reply s).1
unfolding validated
validated-Writes txn (failed e) s found ty st =
    then_write nothing
      (changes _ txn s found (steps txn _ (Same-columns txn) (rw (ty, st) refl)) (rw st refl))
validated-Writes txn crashed s found ty st = nothing
validated-Writes txn (returned result) s found ty st = answered result.valid
  where
    answered :
        (valid : Bool)
        → Writes s
            ((if valid
                then modify (save_txn (record txn { status = awaiting_payment }))
                  >> pure (record txn { status = awaiting_payment })
                else modify (
                    save_txn (record txn {
                      status = validation_failed;
                      last_error = some (conflicts_error result.conflicts);
                    }))
                  >> raise (validation_failed_error result.conflicts) 409)
              s).1
    answered true =
        then_write nothing
          (changes _ txn s found (steps txn _ (Same-columns txn) (rw (ty, st) refl)) (rw st refl))
    answered false =
        then_write nothing
          (changes _ txn s found (steps txn _ (Same-columns txn) (rw (ty, st) refl)) (rw st refl))

pub start_checkout-Writes :
    (settings : Settings) (services : Services) (env : Env) (lines : List LineIn)
    (cashier_id : Text) (customer : Option Customer) (s : Store)
    → get_txn env.txn_id s ≡ none
    → Writes s (start_checkout settings services env lines cashier_id customer s).1
unfolding start_checkout new_sale
start_checkout-Writes settings services env lines cashier_id customer s fresh =
    elim (Bool-cases (is_empty (scan_prices s.prices lines ([], [])).0)) [
      | inr missing ↦ rw (start_checkout, ◌>>=◌, missing) nothing
      | inl priced ↦
          let sums =
            price_lines settings (scan_prices s.prices lines ([], [])).1 lines ([], pos 0, pos 0) in
          let txn : Txn = new_sale settings env sums cashier_id (or_else customer no_customer) in
          let added : Writes s (add_txn txn s) =
            then_write nothing (adds txn s fresh (starts_sale refl refl refl)) in
          rw (start_checkout, ◌>>=◌, priced)
            (chain (then_write added (logs (validate_cart (map cart_line lines)) (add_txn txn s))) (
              validated-Writes txn (services.validate_cart_reply (map cart_line lines))
                (call (validate_cart (map cart_line lines)) (add_txn txn s))
                (Table.find-insert_self txn_key txn s.transactions fresh) refl refl))
    ]

module _ (settings : Settings) (services : Services) (env : Env) (txn_id : Text) (s : Store)
    (b : Books s) where
  waits_of :
      (st : Status)
      → is_payment_in_flight st ≡ true
      → (is_awaiting_payment st || is_payment_in_flight st) ≡ true
  waits_of st h = ground arith

  finish_poll-Writes : (end : PollEnd) → Writes s (finish_poll settings services env txn_id end s)
  unfolding finish_poll
  finish_poll-Writes poll_crashed = nothing
  finish_poll-Writes out_of_fuel = nothing
  finish_poll-Writes timed_out = elim (Option-cases (get_txn txn_id s)) [
    | inl e ↦ rw (e, finish_poll) nothing
    | inr (txn, e) ↦ elim (Bool-cases (is_payment_in_flight txn.status)) [
      | inr other ↦ rw (e, finish_poll, other) nothing
      | inl running ↦
          let found : get_txn txn.id s ≡ some txn = found_own txn_id txn s e in
          let ((ty, pay, fail, open_row), stop) =
            stored_sale s b txn.id txn found (waits_of txn.status running) in
          rw (e, finish_poll, running)
            (then_write nothing (
              changes _ txn s found (steps txn _ (Same-columns txn) (rw ty fail))
                (rw open_row refl)))
    ]
  ]
  finish_poll-Writes (final status) = elim (Option-cases (get_txn txn_id s)) [
    | inl e ↦ rw (e, finish_poll) nothing
    | inr (txn, e) ↦ elim (Bool-cases (is_payment_in_flight txn.status)) [
      | inr other ↦ rw (e, finish_poll, other) nothing
      | inl running ↦
          let found : get_txn txn.id s ≡ some txn = found_own txn_id txn s e in
          let (unpaid, stop) = stored_sale s b txn.id txn found (waits_of txn.status running) in
          rw (e, finish_poll, running)
            (finalize-Writes settings services env txn txn status s found (Same-columns txn) unpaid)
    ]
  ]

  pub poll_card-Writes : Writes s (poll_card_until_complete settings services env txn_id s)
  unfolding poll_card_until_complete
  poll_card-Writes = finish_poll-Writes (
      poll_loop (λ n. services.windcave_status_reply n txn_id) settings.windcave_poll_interval_ms
        (deadline_ms settings) (suc (deadline_ms settings)) 0 0)
