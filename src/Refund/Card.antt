-- ===== src/Refund/Card.antt =====
-- What `charge_card_refund`, `cancel_refund` and `poll_refund_until_complete` of
-- `pos_service/services/refund.py` write.
use hightower_pos.Prelude.{
  ◌≡◌, refl, inl, inr, Bool, true, false, ◌||◌, Option, none, some, sym, arith, Bool-cases,
  Option-cases, if◌then◌else◌, suc,
}
use hightower_pos.Prelude.Int.{pos, magnitude}
use hightower_pos.Prelude.Text.{Text}
use hightower_pos.Table
use hightower_pos.Model.{
  Txn, TxnType, Status, sale, refund, Store, Settings, Env, Services, Reply, returned, failed,
  crashed, ◌>>=◌, ◌>>◌, modify, pure, Result, err, missing_original_dps_txn_ref, WindcaveStatus,
  get_txn, save_txn, call, refund_payment_in_flight, refund_payment_success, refund_payment_failed,
  cancelled, windcave_refund, txn_key, is_refund_type, is_refund_pending, is_refund_in_flight,
  is_card, refund_pending,
}
use hightower_pos.Checkout.Poll.{
  PollEnd, final, timed_out, poll_crashed, out_of_fuel, poll_loop, deadline_ms,
}
use hightower_pos.Checkout.Handlers.{found_own}
use hightower_pos.Refund.Payment.{
  parent_of, original_ref, ask_windcave, refund_charged, finalize_refund_charge, charge_card_refund,
}
use hightower_pos.Refund.Poll.{cancel_refund, finish_refund_poll, poll_refund_until_complete}
use hightower_pos.Refund.Moves.{IsUnpaidRefund, finalize_refund-Writes}
use hightower_pos.Refund.Handlers.{load_refund-cases}
use hightower_pos.Commits.{is_done, may_follow, logs, changes, Writes, nothing, then_write}
use hightower_pos.Commits.Lifecycle.{TxnOk, fits}
use hightower_pos.Commits.Books.{Books, same-Books}
use hightower_pos.Commits.Sequence.{chain, Same-columns, steps}

-- The answer of Windcave to a refund that is still to be paid.
refund_charged-Writes :
    (settings : Settings) (services : Services) (env : Env) (txn : Txn)
    (reply : Reply WindcaveStatus) (s : Store)
    → Books s
    → get_txn txn.id s ≡ some txn
    → txn.txn_type ≡ refund
    → txn.status ≡ refund_pending
    → Writes s (refund_charged settings services env txn reply s).1
unfolding refund_charged
refund_charged-Writes settings services env txn (failed e) s b found ty st =
    then_write nothing
      (changes _ txn s found (steps txn _ (Same-columns txn) (rw (ty, st) refl)) (rw st refl))
refund_charged-Writes settings services env txn crashed s b found ty st = nothing
refund_charged-Writes settings services env txn (returned initial) s b found ty st =
    answered initial.complete
  where
    answered :
        (done : Bool)
        → Writes s
            ((if done
                then finalize_refund_charge settings services env txn initial
                else modify (
                    save_txn (record txn {
                      windcave_response_xml = some initial.raw_xml;
                      status = refund_payment_in_flight;
                    }))
                  >> pure (record txn {
                    windcave_response_xml = some initial.raw_xml;
                    status = refund_payment_in_flight;
                  }))
              s).1
    answered true =
        finalize_refund-Writes settings services env txn txn initial s b found (Same-columns txn)
          (ty, rw st refl, rw st refl, rw st refl)
    answered false =
        then_write nothing
          (changes _ txn s found (steps txn _ (Same-columns txn) (rw (ty, st) refl)) (rw st refl))

-- The type of a stored row in the states from which a refund is paid, and what may follow.
refund_states :
    (ty : TxnType) (p : Option Text) (st : Status)
    → fits ty p st ≡ true
    → (is_refund_pending st || is_refund_in_flight st) ≡ true
    → (ty ≡ refund)
      × (may_follow refund st refund_payment_success ≡ true)
      × (may_follow refund st refund_payment_failed ≡ true)
      × (may_follow refund st cancelled ≡ true)
      × (is_done st ≡ false)
refund_states refund p st h w = (refl, ground arith, ground arith, ground arith, ground arith)
refund_states sale none st h w = absurd (ground arith)
refund_states sale (some p) st h w = cc

module _ (settings : Settings) (services : Services) (env : Env) (s : Store) (b : Books s) where
  stored_refund :
      (txn : Txn)
      → get_txn txn.id s ≡ some txn
      → (is_refund_pending txn.status || is_refund_in_flight txn.status) ≡ true
      → IsUnpaidRefund txn × (may_follow refund txn.status cancelled ≡ true)
  stored_refund txn found waits =
      let ok : TxnOk txn = Table.All-find TxnOk txn_key txn.id s.transactions txn b.shaped found in
      let (ty, pay, fail, stop, not_done) =
        refund_states txn.txn_type txn.parent_transaction_id txn.status ok waits in
      ((ty, pay, fail, not_done), stop)

  ask_windcave-Writes :
      (txn : Txn)
      → get_txn txn.id s ≡ some txn
      → txn.txn_type ≡ refund
      → txn.status ≡ refund_pending
      → Writes s (ask_windcave settings services env txn s).1
  unfolding ask_windcave
  ask_windcave-Writes txn found ty st = asked (original_ref (parent_of txn s))
    where
      asked :
          (ref : Option Text)
          → (let out : Result Txn × Store = elim ref [
            | none ↦ (err missing_original_dps_txn_ref 500, s)
            | some dps ↦
                refund_charged settings services env txn
                  (services.windcave_refund_reply (pos (magnitude txn.total_cents)) dps txn.id)
                  (call (windcave_refund (pos (magnitude txn.total_cents)) dps txn.id) s)
          ] in
              Writes s out.1)
      asked none = nothing
      asked (some dps) =
          chain
            (then_write nothing
              (logs (windcave_refund (pos (magnitude txn.total_cents)) dps txn.id) s))
            (refund_charged-Writes settings services env txn
              (services.windcave_refund_reply (pos (magnitude txn.total_cents)) dps txn.id)
              (call (windcave_refund (pos (magnitude txn.total_cents)) dps txn.id) s)
              (same-Books s _ refl refl b) found ty st)

  pub charge_card_refund-Writes :
      (refund_txn_id : Text) → Writes s (charge_card_refund settings services env refund_txn_id s).1
  unfolding charge_card_refund
  charge_card_refund-Writes refund_txn_id = elim (load_refund-cases refund_txn_id s) [
    | inl (code, http, e) ↦ rw (charge_card_refund, ◌>>=◌, e, e) nothing
    | inr (txn, e, found, ty, st) ↦ elim (Bool-cases (is_card txn.payment_method)) [
      | inr other ↦ rw (charge_card_refund, ◌>>=◌, e, other, e) nothing
      | inl by_card ↦
          rw (charge_card_refund, ◌>>=◌, e, by_card, e) (ask_windcave-Writes txn found ty st)
    ]
  ]

  pub cancel_refund-Writes : (refund_txn_id : Text) → Writes s (cancel_refund refund_txn_id s).1
  unfolding cancel_refund
  cancel_refund-Writes refund_txn_id = elim (Option-cases (get_txn refund_txn_id s)) [
    | inl e ↦ rw (cancel_refund, e) nothing
    | inr (txn, e) ↦ elim (Bool-cases (is_refund_type txn.txn_type)) [
      | inr other ↦ rw (cancel_refund, e, other) nothing
      | inl is ↦
          elim (Bool-cases (is_refund_pending txn.status || is_refund_in_flight txn.status)) [
            | inr late ↦ rw (cancel_refund, e, is, late) nothing
            | inl waits ↦
                let found : get_txn txn.id s ≡ some txn = found_own refund_txn_id txn s e in
                let ((ty, pay, fail, not_done), stop) = stored_refund txn found waits in
                rw (cancel_refund, e, is, waits)
                  (then_write nothing (
                    changes _ txn s found (steps txn _ (Same-columns txn) (rw ty stop))
                      (sym not_done)))
          ]
    ]
  ]

  in_flight_waits :
      (st : Status)
      → is_refund_in_flight st ≡ true
      → (is_refund_pending st || is_refund_in_flight st) ≡ true
  in_flight_waits st h = ground arith

  finish_refund_poll-Writes :
      (id : Text) (end : PollEnd) → Writes s (finish_refund_poll settings services env id end s)
  unfolding finish_refund_poll
  finish_refund_poll-Writes id poll_crashed = nothing
  finish_refund_poll-Writes id out_of_fuel = nothing
  finish_refund_poll-Writes id timed_out = elim (Option-cases (get_txn id s)) [
    | inl e ↦ rw (e, finish_refund_poll) nothing
    | inr (txn, e) ↦ elim (Bool-cases (is_refund_in_flight txn.status)) [
      | inr other ↦ rw (e, finish_refund_poll, other) nothing
      | inl running ↦
          let found : get_txn txn.id s ≡ some txn = found_own id txn s e in
          let ((ty, pay, fail, not_done), stop) =
            stored_refund txn found (in_flight_waits txn.status running) in
          rw (e, finish_refund_poll, running)
            (then_write nothing (
              changes _ txn s found (steps txn _ (Same-columns txn) (rw ty fail))
                (rw not_done refl)))
    ]
  ]
  finish_refund_poll-Writes id (final status) = elim (Option-cases (get_txn id s)) [
    | inl e ↦ rw (e, finish_refund_poll) nothing
    | inr (txn, e) ↦ elim (Bool-cases (is_refund_in_flight txn.status)) [
      | inr other ↦ rw (e, finish_refund_poll, other) nothing
      | inl running ↦
          let found : get_txn txn.id s ≡ some txn = found_own id txn s e in
          let (unpaid, stop) = stored_refund txn found (in_flight_waits txn.status running) in
          rw (e, finish_refund_poll, running)
            (finalize_refund-Writes settings services env txn txn status s b found
              (Same-columns txn) unpaid)
    ]
  ]

  pub poll_refund-Writes :
      (id : Text) → Writes s (poll_refund_until_complete settings services env id s)
  unfolding poll_refund_until_complete
  poll_refund-Writes id = finish_refund_poll-Writes id (
      poll_loop (λ n. services.windcave_status_reply n id) settings.windcave_poll_interval_ms
        (deadline_ms settings) (suc (deadline_ms settings)) 0 0)
