-- ===== src/Checkout/Moves.antt =====
-- What the payment of a sale writes: `charge_cash`, `charge_card`, `cancel_checkout` and the poll as
-- sequences of the writes of `Commits.antt`.
use hightower_pos.Prelude.{
  ◌≡◌, refl, inl, inr, Bool, true, false, ◌||◌, not, some, ◌∙◌, Bool-cases, Option-cases,
  if◌then◌else◌,
}
use hightower_pos.Prelude.Text.{Text}
use hightower_pos.Model.{
  Txn, sale, Method, card, Store, Settings, Env, Services, Reply, returned, failed, crashed,
  WindcaveStatus, approved, signature_required, get_txn, save_txn, call, payment_success,
  payment_failed, complete, create_pos_so, log_inbound_activity, signature_required_error,
}
use hightower_pos.Checkout.Payment.{
  decline_error, build_checkout_request, settle_sale, send_to_sentry, paid_card, with_response,
  finalize_card_charge,
}
use hightower_pos.Commits.{
  is_done, may_follow, Changes, logs, changes, finishes, Writes, nothing, then_write,
}
use hightower_pos.Commits.Sequence.{chain, Same, Same-columns, steps, attributed-Writes, just_saved}

-- The answer of Sentry to a sale that is stored as paid.
pub settle_sale-Writes :
    (settings : Settings) (env : Env) (txn : Txn) (reply : Reply Text) (s : Store)
    → get_txn txn.id s ≡ some txn
    → txn.txn_type ≡ sale
    → txn.status ≡ payment_success
    → Writes s (settle_sale settings env txn reply s).1
unfolding settle_sale
settle_sale-Writes settings env txn (returned so_id) s found ty st =
    attributed-Writes false settings env txn
      (record txn { status = complete; sentry_so_id = some so_id }) s found (Same-columns txn)
      (rw (ty, st) refl) (rw st refl) refl
settle_sale-Writes settings env txn (failed e) s found ty st =
    then_write
      (then_write nothing (
        finishes settings env _ txn s found (steps txn _ (Same-columns txn) (rw (ty, st) refl))
          (rw st refl) refl))
      (logs (log_inbound_activity txn.id) _)
settle_sale-Writes settings env txn crashed s found ty st = nothing

-- Saving the paid row and sending it: `old` is the stored row, `t` the paid one.
pub paid-Writes :
    (settings : Settings) (services : Services) (env : Env) (t old : Txn) (m : Method) (s : Store)
    → get_txn t.id s ≡ some old
    → Same t old
    → old.txn_type ≡ sale
    → t.status ≡ payment_success
    → may_follow sale old.status payment_success ≡ true
    → is_done old.status ≡ false
    → Writes s (send_to_sentry settings services env t m (save_txn t s)).1
unfolding send_to_sentry
paid-Writes settings services env t old m s found same ty st f open_row =
    let c : Changes old t = steps old t same (rw (ty, st) f) in
    let request = build_checkout_request env.now t m in
    let saved : Writes s (save_txn t s) =
      then_write nothing (changes t old s found c (rw (st, open_row) refl)) in
    let sent : Writes s (call (create_pos_so request) (save_txn t s)) =
      then_write saved (logs (create_pos_so request) (save_txn t s)) in
    chain sent (
      settle_sale-Writes settings env t (services.create_pos_so_reply request)
        (call (create_pos_so request) (save_txn t s)) (just_saved t old s found) (same.1 ∙ ty) st)

-- A stored sale that still waits for its payment.
abbrev pub IsUnpaid : Txn → Type 0
IsUnpaid old =
    (old.txn_type ≡ sale)
    × (may_follow sale old.status payment_success ≡ true)
    × (may_follow sale old.status payment_failed ≡ true)
    × (is_done old.status ≡ false)

pub finalize-Writes :
    (settings : Settings) (services : Services) (env : Env) (txn old : Txn)
    (status : WindcaveStatus) (s : Store)
    → get_txn txn.id s ≡ some old
    → Same txn old
    → IsUnpaid old
    → Writes s (finalize_card_charge settings services env txn status s).1
unfolding finalize_card_charge paid_card
finalize-Writes settings services env txn old status s found same (ty, pay, fail, open_row) =
    elim (Bool-cases (signature_required status || not (approved status))) [
      | inl refused ↦ rw (refused, finalize_card_charge) (unpaid (signature_required status))
      | inr paid ↦ elim (Option-cases status.result) [
        | inl e ↦ rw (paid, finalize_card_charge, e) nothing
        | inr (r, e) ↦
            rw (paid, finalize_card_charge, e)
              (paid-Writes settings services env (paid_card r (with_response status txn)) old card s
                found same ty refl pay open_row)
      ]
    ]
  where
    unpaid :
        (sig : Bool)
        → Writes s (
            save_txn
              (if sig
                then record txn {
                  windcave_response_xml = some status.raw_xml;
                  status = payment_failed;
                  last_error = some signature_required_error;
                }
                else record txn {
                  windcave_response_xml = some status.raw_xml;
                  status = payment_failed;
                  last_error = some (decline_error status.result);
                })
              s)
    unpaid true =
        then_write nothing
          (changes _ old s found (steps old _ same (rw ty fail)) (rw open_row refl))
    unpaid false =
        then_write nothing
          (changes _ old s found (steps old _ same (rw ty fail)) (rw open_row refl))
