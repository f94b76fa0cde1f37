-- ===== src/Refund/Moves.antt =====
-- What paying a refund back writes: the sequences of writes from the paid refund on, with the sale
-- that it marks, of `pos_service/services/refund.py`.
use hightower_pos.Prelude.{
  ◌≡◌, ◌≢◌, refl, inl, inr, Bool, true, false, ◌||◌, not, some, ap, sym, ◌∙◌, Bool-cases,
  Option-cases, if◌then◌else◌,
}
use hightower_pos.Prelude.Text.{Text}
use hightower_pos.Table
use hightower_pos.Model.{
  Txn, sale, refund, Store, Settings, Env, Services, Reply, returned, failed, crashed,
  WindcaveStatus, approved, signature_required, get_txn, save_txn, call, complete,
  refund_payment_success, refund_payment_failed, create_pos_refund, log_inbound_activity,
  signature_required_error, txn_key,
}
use hightower_pos.Till.{attribute_transaction}
use hightower_pos.Outbox.{enqueue}
use hightower_pos.Checkout.Payment.{with_response, decline_error}
use hightower_pos.Refund.Payment.{
  build_refund_request, settle_refund, send_refund_to_sentry, repaid_card, finalize_refund_charge,
}
use hightower_pos.Commits.{
  is_done, may_follow, Changes, Write, logs, changes, finishes, Writes, nothing, then_write,
}
use hightower_pos.Commits.Books.{Books}
use hightower_pos.Commits.Kept.{Write-Books, attribute-transactions}
use hightower_pos.Commits.Sequence.{
  chain, Same, Same-columns, steps, stays, attributed-Writes, attribute-Same, just_saved,
}
use hightower_pos.Checkout.Handlers.{found_own}

-- A sale and a refund that are stored under their own ids have different ids.
pub apart :
    (r o : Txn) (s : Store)
    → get_txn r.id s ≡ some r
    → get_txn o.id s ≡ some o
    → r.txn_type ≡ refund
    → o.txn_type ≡ sale
    → o.id ≢ r.id
apart r o s at_r at_o r_refund o_sale same = clash (sym at_o ∙ ap (λ k. get_txn k s) same ∙ at_r)
  where
    clash : some o ≡ some r → ⊥
    clash h = types (sym o_sale ∙ ap (λ t. t.txn_type) (some_inj h) ∙ r_refund)
      where
        some_inj : some o ≡ some r → o ≡ r
        some_inj h = cc

        types : sale ≡ refund → ⊥
        types h = cc

module _ (settings : Settings) (env : Env) (txn o : Txn) (s : Store)
    (found : get_txn txn.id s ≡ some txn) (ty : txn.txn_type ≡ refund)
    (st : txn.status ≡ refund_payment_success) (at_o : get_txn o.id s ≡ some o)
    (o_sale : o.txn_type ≡ sale) where
  accepted_refund-Writes :
      (so_id : Text) → Writes s (settle_refund settings env txn o (returned so_id) s).1
  unfolding settle_refund enqueue
  accepted_refund-Writes so_id =
      let done : Txn = record txn { status = complete; sentry_so_id = some so_id } in
      let t : Txn = (attribute_transaction true done s).0 in
      let s' : Store = (attribute_transaction true done s).1 in
      let same : t.id ≡ txn.id = (attribute-Same true done s).0 in
      let sale_there : get_txn o.id (save_txn t (enqueue settings env t s')) ≡ some o =
        Table.find-put_ne txn_key o.id t s'.transactions
          (λ e. apart txn o s found at_o ty o_sale (e ∙ same))
        ∙ ap (λ rows. Table.find txn_key o.id rows) (attribute-transactions true done s)
        ∙ at_o in
      then_write
        (attributed-Writes true settings env txn done s found (Same-columns txn) (rw (ty, st) refl)
          (rw st refl) refl)
        (changes _ o _ sale_there (stays o _ (Same-columns o) refl) refl)

  settle_refund-Writes :
      (reply : Reply Text) → Writes s (settle_refund settings env txn o reply s).1
  unfolding settle_refund
  settle_refund-Writes (returned so_id) = accepted_refund-Writes so_id
  settle_refund-Writes (failed e) =
      then_write
        (then_write nothing (
          finishes settings env _ txn s found (steps txn _ (Same-columns txn) (rw (ty, st) refl))
            (rw st refl) refl))
        (logs (log_inbound_activity txn.id) _)
  settle_refund-Writes crashed = nothing

-- A stored refund that is paid goes to Sentry.
send_refund-Writes :
    (settings : Settings) (services : Services) (env : Env) (txn : Txn) (s : Store)
    → Books s
    → get_txn txn.id s ≡ some txn
    → txn.txn_type ≡ refund
    → txn.status ≡ refund_payment_success
    → Writes s (send_refund_to_sentry settings services env txn s).1
unfolding send_refund_to_sentry
send_refund-Writes settings services env txn s b found ty st =
    let (p, o, up, at_o, o_sale) = b.parents txn.id txn found ty in
    let request = build_refund_request env.now txn o in
    rw (send_refund_to_sentry, up, at_o)
      (chain (then_write nothing (logs (create_pos_refund request) s)) (
        settle_refund-Writes settings env txn o (call (create_pos_refund request) s) found ty st
          (found_own p o s at_o) o_sale (services.create_pos_refund_reply request)))

-- Saving the paid refund and sending it: `old` is the stored row, `t` the paid one.
pub repaid-Writes :
    (settings : Settings) (services : Services) (env : Env) (t old : Txn) (s : Store)
    → Books s
    → get_txn t.id s ≡ some old
    → Same t old
    → old.txn_type ≡ refund
    → t.status ≡ refund_payment_success
    → may_follow refund old.status refund_payment_success ≡ true
    → is_done old.status ≡ false
    → Writes s (send_refund_to_sentry settings services env t (save_txn t s)).1
repaid-Writes settings services env t old s b found same ty st f not_done =
    let c : Changes old t = steps old t same (rw (ty, st) f) in
    let saved : Write s (save_txn t s) = changes t old s found c (rw (st, not_done) refl) in
    chain (then_write nothing saved) (
      send_refund-Writes settings services env t (save_txn t s) (Write-Books saved b)
        (just_saved t old s found) (same.1 ∙ ty) st)

-- A stored refund that still waits for its payment.
abbrev pub IsUnpaidRefund : Txn → Type 0
IsUnpaidRefund old =
    (old.txn_type ≡ refund)
    × (may_follow refund old.status refund_payment_success ≡ true)
    × (may_follow refund old.status refund_payment_failed ≡ true)
    × (is_done old.status ≡ false)

pub finalize_refund-Writes :
    (settings : Settings) (services : Services) (env : Env) (txn old : Txn)
    (status : WindcaveStatus) (s : Store)
    → Books s
    → get_txn txn.id s ≡ some old
    → Same txn old
    → IsUnpaidRefund old
    → Writes s (finalize_refund_charge settings services env txn status s).1
unfolding finalize_refund_charge repaid_card
finalize_refund-Writes settings services env txn old status s b found same
      (ty, pay, fail, not_done) =
    elim (Bool-cases (signature_required status || not (approved status))) [
      | inl refused ↦ rw (refused, finalize_refund_charge) (unpaid (signature_required status))
      | inr paid ↦ elim (Option-cases status.result) [
        | inl e ↦ rw (paid, finalize_refund_charge, e) nothing
        | inr (r, e) ↦
            rw (paid, finalize_refund_charge, e)
              (repaid-Writes settings services env (repaid_card r (with_response status txn)) old s
                b found same ty refl pay not_done)
      ]
    ]
  where
    unpaid :
        (sig : Bool)
        → Writes s (
            save_txn
              (if sig
                then record txn {
                  windcave_response_xml = some status.raw_xml;
                  status = refund_payment_failed;
                  last_error = some signature_required_error;
                }
                else record txn {
                  windcave_response_xml = some status.raw_xml;
                  status = refund_payment_failed;
                  last_error = some (decline_error status.result);
                })
              s)
    unpaid true =
        then_write nothing
          (changes _ old s found (steps old _ same (rw ty fail)) (rw not_done refl))
    unpaid false =
        then_write nothing
          (changes _ old s found (steps old _ same (rw ty fail)) (rw not_done refl))
