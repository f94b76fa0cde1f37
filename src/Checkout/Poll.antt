-- ===== src/Checkout/Poll.antt =====
-- The background task `poll_card_until_complete` of `pos_service/services/checkout.py`. Times are in
-- milliseconds, and the fuel is one more than the deadline, which a positive interval never uses up.
use hightower_pos.Prelude.{ℕ, zero, suc, ◌+◌, ◌*◌, none, some, ltb, if◌then◌else◌}
use hightower_pos.Prelude.Text.{Text}
use hightower_pos.Model.{
  payment_failed, Store, Settings, Env, Services, Reply, returned, failed, crashed, WindcaveStatus,
  polling_timeout, get_txn, save_txn, is_payment_in_flight,
}
use hightower_pos.Checkout.Payment.{finalize_card_charge}

-- How the loop ends: with a complete status, at the deadline, or by an exception of another kind.
pub data PollEnd : Type 0 where
  final : WindcaveStatus → PollEnd
  timed_out poll_crashed out_of_fuel : PollEnd

-- `ask n` is the answer of the `n`-th poll.
module _ (ask : ℕ → Reply WindcaveStatus) (interval deadline : ℕ) where
  -- The `while` loop, at its `n`-th turn; `again` is the rest of the loop.
  unfoldable pub poll_turn : Reply WindcaveStatus → PollEnd → PollEnd
  poll_turn (returned current) again = if current.complete then final current else again
  poll_turn (failed e) again = again
  poll_turn crashed again = poll_crashed

  unfoldable pub poll_loop : (fuel n elapsed : ℕ) → PollEnd
  unfolding poll_turn
  poll_loop zero n elapsed = out_of_fuel
  poll_loop (suc fuel) n elapsed =
      let again = poll_loop fuel (n + 1) (elapsed + interval) in
      let turn = poll_turn (ask n) again in if ltb elapsed deadline then turn else timed_out

abbrev pub deadline_ms : Settings → ℕ
deadline_ms settings = settings.windcave_max_poll_duration_s * 1000

-- What the task writes, in a session of its own, once the loop has ended.
unfoldable pub finish_poll : Settings → Services → Env → Text → PollEnd → Store → Store
finish_poll settings services env txn_id poll_crashed s = s
finish_poll settings services env txn_id out_of_fuel s = s
finish_poll settings services env txn_id timed_out s = elim (get_txn txn_id s) [
  | none ↦ s
  | some txn ↦
      if is_payment_in_flight txn.status
      then save_txn (record txn { status = payment_failed; last_error = some polling_timeout }) s
      else s
]
finish_poll settings services env txn_id (final status) s = elim (get_txn txn_id s) [
  | none ↦ s
  | some txn ↦
      if is_payment_in_flight txn.status
      then (finalize_card_charge settings services env txn status s).1
      else s
]

unfoldable pub poll_card_until_complete : Settings → Services → Env → Text → Store → Store
unfolding poll_loop finish_poll
poll_card_until_complete settings services env txn_id s =
    finish_poll settings services env txn_id
      (poll_loop (λ n. services.windcave_status_reply n txn_id) settings.windcave_poll_interval_ms
        (deadline_ms settings) (suc (deadline_ms settings)) 0 0)
      s
