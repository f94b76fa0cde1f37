-- ===== src/Refund/Poll.antt =====
-- The cancel and the background poll of a refund: `cancel_refund` and `poll_refund_until_complete` of
-- `pos_service/services/refund.py`.
use hightower_pos.Prelude.{suc, ◌||◌, not, none, some, if◌then◌else◌}
use hightower_pos.Prelude.Text.{Text}
use hightower_pos.Model.{
  refund_payment_failed, cancelled, Txn, Store, Settings, Env, Services, polling_timeout, Action,
  ok, err, transaction_not_found, invalid_state, get_txn, save_txn, is_refund_type,
  is_refund_pending, is_refund_in_flight,
}
use hightower_pos.Checkout.Poll.{
  PollEnd, final, timed_out, poll_crashed, out_of_fuel, poll_loop, deadline_ms,
}
use hightower_pos.Refund.Payment.{finalize_refund_charge}

unfoldable pub cancel_refund : (refund_txn_id : Text) → Action Txn
cancel_refund refund_txn_id s = elim (get_txn refund_txn_id s) [
  | none ↦ (err transaction_not_found 404, s)
  | some refund_txn ↦
      let refund_txn' : Txn = record refund_txn { status = cancelled } in
      if not (is_refund_type refund_txn.txn_type)
      then (err transaction_not_found 404, s)
      else if is_refund_pending refund_txn.status || is_refund_in_flight refund_txn.status
      then (ok refund_txn', save_txn refund_txn' s)
      else (err (invalid_state refund_txn.status) 400, s)
]

unfoldable pub finish_refund_poll : Settings → Services → Env → Text → PollEnd → Store → Store
finish_refund_poll settings services env refund_txn_id poll_crashed s = s
finish_refund_poll settings services env refund_txn_id out_of_fuel s = s
finish_refund_poll settings services env refund_txn_id timed_out s =
    elim (get_txn refund_txn_id s) [
      | none ↦ s
      | some refund_txn ↦
          if is_refund_in_flight refund_txn.status
          then save_txn
              (record refund_txn {
                status = refund_payment_failed;
                last_error = some polling_timeout;
              })
              s
          else s
    ]
finish_refund_poll settings services env refund_txn_id (final status) s =
    elim (get_txn refund_txn_id s) [
      | none ↦ s
      | some refund_txn ↦
          if is_refund_in_flight refund_txn.status
          then (finalize_refund_charge settings services env refund_txn status s).1
          else s
    ]

unfoldable pub poll_refund_until_complete : Settings → Services → Env → Text → Store → Store
unfolding finish_refund_poll
poll_refund_until_complete settings services env refund_txn_id s =
    finish_refund_poll settings services env refund_txn_id
      (poll_loop (λ n. services.windcave_status_reply n refund_txn_id)
        settings.windcave_poll_interval_ms (deadline_ms settings) (suc (deadline_ms settings)) 0 0)
      s
