-- ===== src/Outbox/Backoff.antt =====
-- The retry schedule over consecutive failures.
use hightower_pos.Prelude.{
  ℕ, zero, suc, ◌+◌, ◌≤◌, ◌<◌, ◌≡◌, List, [], ◌∷◌, arith, length, get_elem?, or_else,
}
use hightower_pos.Prelude.Text.{Text}
use hightower_pos.Model.{OutboxEntry, pending, dlq}
use hightower_pos.Outbox.{retry_schedule_seconds, failed_entry}

-- The failures of one entry, each at its time and with its error, oldest first.
pub fail_all : List (ℕ × Text) → OutboxEntry → OutboxEntry
unfolding failed_entry
fail_all [] e = e
fail_all ((now, error) ∷ later) e = fail_all later (failed_entry now error e)

failed_entry-attempts :
    (now : ℕ) (error : Text) (e : OutboxEntry)
    → (failed_entry now error e).attempt_count ≡ e.attempt_count + 1
unfolding failed_entry
failed_entry-attempts now error e = ground arith

-- The wait after the failure that leaves `n` attempts.
pub wait_after : ℕ → ℕ
wait_after n = or_else (get_elem? retry_schedule_seconds n) 0

fail_all-attempts :
    (fs : List (ℕ × Text)) (e : OutboxEntry)
    → (fail_all fs e).attempt_count ≡ e.attempt_count + length fs
unfolding fail_all
fail_all-attempts [] e = omega arith
fail_all-attempts ((now, error) ∷ fs) e =
    omega
      (arith, fail_all-attempts fs (failed_entry now error e), failed_entry-attempts now error e)

-- After one or more failures in a row the entry has counted each of them; it is dead-lettered exactly
-- when the count has reached the number of slots of the schedule, which is eight, and else it is
-- pending again.
pub fail_all-status :
    (now : ℕ) (error : Text) (earlier : List (ℕ × Text)) (e : OutboxEntry)
    → let e' = failed_entry now error (fail_all earlier e) in
      (e'.attempt_count ≡ e.attempt_count + length earlier + 1)
      × ((8 ≤ e.attempt_count + length earlier + 1) → e'.status ≡ dlq)
      × ((e.attempt_count + length earlier + 1 < 8) → e'.status ≡ pending)
unfolding failed_entry
fail_all-status now error earlier e =
    let n = fail_all-attempts earlier e in (ground (arith, n), ground (arith, n), ground (arith, n))

-- Each wait of the schedule is longer than the one before.
wait_grows : (n : ℕ) → n < 7 → wait_after n < wait_after (n + 1)
unfolding wait_after
wait_grows zero h = omega arith
wait_grows (suc zero) h = omega arith
wait_grows (suc (suc zero)) h = omega arith
wait_grows (suc (suc (suc zero))) h = omega arith
wait_grows (suc (suc (suc (suc zero)))) h = omega arith
wait_grows (suc (suc (suc (suc (suc zero))))) h = omega arith
wait_grows (suc (suc (suc (suc (suc (suc zero)))))) h = omega arith
wait_grows (suc (suc (suc (suc (suc (suc (suc n))))))) h = absurd (omega arith)

-- The first seven failures leave the entry pending and due after the wait of its new count, and each
-- of these waits is longer than the one before.
pub failed_entry-schedule :
    (now : ℕ) (error : Text) (e : OutboxEntry)
    → e.attempt_count < 7
    → ((failed_entry now error e).status ≡ pending)
      × ((failed_entry now error e).next_attempt_at ≡ now + wait_after (e.attempt_count + 1))
      × (wait_after e.attempt_count < wait_after (e.attempt_count + 1))
unfolding failed_entry wait_after
failed_entry-schedule now error e h = (ground arith, ground arith, wait_grows e.attempt_count h)
