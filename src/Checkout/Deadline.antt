-- ===== src/Checkout/Deadline.antt =====
-- How the poll loop of `pos_service/services/checkout.py` can end.
use hightower_pos.Prelude.{
  ℕ, zero, suc, ◌+◌, ◌≤◌, ◌<◌, ◌≡◌, refl, Bool, true, false, arith, Bool-cases, inl, inr,
  if◌then◌else◌, ltb,
}
use hightower_pos.Model.{Reply, returned, failed, crashed, WindcaveStatus, Settings}
use hightower_pos.Checkout.Poll.{
  PollEnd, final, timed_out, poll_crashed, out_of_fuel, poll_turn, poll_loop, deadline_ms,
}

-- A poll loop has ended as its code can end: with a complete answer, at the deadline, or by an exception.
abbrev pub IsEnd : PollEnd → Type 0
IsEnd (final status) = status.complete ≡ true
IsEnd timed_out = Unit
IsEnd poll_crashed = Unit
IsEnd out_of_fuel = ⊥

module _ (ask : ℕ → Reply WindcaveStatus) (interval deadline : ℕ) (positive : 1 ≤ interval) where
  turn-IsEnd :
      (r : Reply WindcaveStatus) (again : PollEnd)
      → IsEnd again
      → IsEnd (poll_turn ask interval deadline r again)
  unfolding poll_turn
  turn-IsEnd (returned current) again h = answered current.complete refl
    where
      answered : (b : Bool) → current.complete ≡ b → IsEnd (if b then final current else again)
      answered true e = e
      answered false e = h
  turn-IsEnd (failed e) again h = h
  turn-IsEnd crashed again h = tt

  loop-IsEnd :
      (fuel n elapsed : ℕ)
      → 1 ≤ fuel
      → deadline < fuel + elapsed
      → IsEnd (poll_loop ask interval deadline fuel n elapsed)
  unfolding poll_loop
  loop-IsEnd zero n elapsed one h = absurd (omega arith)
  loop-IsEnd (suc fuel) n elapsed one h = elim (Bool-cases (ltb elapsed deadline)) [
    | inr late ↦ rw (late, poll_loop) tt
    | inl early ↦
        rw (early, poll_loop)
          (turn-IsEnd (ask n) (poll_loop ask interval deadline fuel (n + 1) (elapsed + interval))
            (loop-IsEnd fuel (n + 1) (elapsed + interval) (ground (arith, early)) (omega arith)))
  ]

-- With a positive poll interval the loop ends, whatever Windcave answers: with an answer that is
-- complete, at the deadline, or by an exception that the loop does not catch. The fuel that
-- `poll_card_until_complete` and `poll_refund_until_complete` give it is enough.
pub poll_loop_ends :
    (ask : ℕ → Reply WindcaveStatus) (settings : Settings)
    → 1 ≤ settings.windcave_poll_interval_ms
    → IsEnd (
        poll_loop ask settings.windcave_poll_interval_ms
          (deadline_ms settings)
          (suc (deadline_ms settings))
          0
          0)
poll_loop_ends ask settings positive =
    loop-IsEnd ask settings.windcave_poll_interval_ms (deadline_ms settings) positive
      (suc (deadline_ms settings)) 0 0 (omega arith) (omega arith)
