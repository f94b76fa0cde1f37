-- ===== src/Outbox/Tests.antt =====
-- Examples for the results on the outbox: two entries, and Fabric is down.
use hightower_pos.Prelude.{
  ℕ, ◌+◌, ◌≤◌, ◌<◌, ◌≡◌, refl, false, Option, none, [], ◌∷◌, map, length, All, arith,
}
use hightower_pos.Prelude.Text.{Text, codes}
use hightower_pos.Table
use hightower_pos.Model.{
  is_pending, Payload, Store, Reply, failed, pending, in_flight, dlq, entry_key,
}
use hightower_pos.Samples.{settings, env_at, sold, shop, sold_entry}
use hightower_pos.Outbox.{
  new_entry, enqueue, due_batch, claim_due, failed_entry, drain_once, DrainResult,
  retry_fabric_outbox_entry, wrong_state,
}
use hightower_pos.Outbox.Backoff.{fail_all, fail_all-status}
use hightower_pos.Outbox.Limits.{OutboxOk, enqueue-OutboxOk, drain_once-OutboxOk}
use hightower_pos.Outbox.Claim.{IsClaim, claim_due-IsClaim}
use hightower_pos.Outbox.Settled.{stands, is_delivered, is_dead, Absent, InFlight}
use hightower_pos.Outbox.Drain.{drain_once_accounts, in_flight_is_stuck}

abbrev failure : ℕ × Text
failure = (100, codes "down")

fail_all-status_example :
    let e' = failed_entry 100 (codes "down") (fail_all (failure ∷ failure ∷ []) sold_entry) in
    (e'.attempt_count ≡ 0 + 2 + 1)
    × ((8 ≤ 0 + 2 + 1) → e'.status ≡ dlq)
    × ((0 + 2 + 1 < 8) → e'.status ≡ pending)
unfolding new_entry
fail_all-status_example = fail_all-status 100 (codes "down") (failure ∷ failure ∷ []) sold_entry

abbrev two_entries : Store
two_entries = record shop {
  outbox = new_entry settings (env_at 2 (codes "b")) sold ∷ sold_entry ∷ [];
}

two-OutboxOk : OutboxOk two_entries
unfolding new_entry
two-OutboxOk = (omega arith, (omega arith, tt))

two-IsKeyed : Table.IsKeyed entry_key two_entries.outbox
unfolding Table.find new_entry
two-IsKeyed = (refl, (refl, tt))

claim_due-IsClaim_example :
    ((claim_due 1 10 two_entries).0 ≡ map entry_key (due_batch 1 10 two_entries.outbox))
    × IsClaim 1 10 (due_batch 1 10 two_entries.outbox) two_entries (claim_due 1 10 two_entries).1
claim_due-IsClaim_example = claim_due-IsClaim 1 10 two_entries two-IsKeyed

enqueue-OutboxOk_example : OutboxOk (enqueue settings (env_at 3 (codes "c")) sold two_entries)
enqueue-OutboxOk_example =
    enqueue-OutboxOk settings (env_at 3 (codes "c")) sold two_entries two-OutboxOk

-- Fabric is down.
abbrev down : Payload → Reply (Option Text)
down p = failed (record { message = codes "down"; error_code = none })

drain_once-OutboxOk_example : OutboxOk (drain_once down 10 5 two_entries).1
drain_once-OutboxOk_example = drain_once-OutboxOk down 10 5 two_entries two-OutboxOk

abbrev counted : DrainResult
counted = record { claimed = 2; delivered = 0; failed = 2; dlq = 0 }

drain_once_accounts_example :
    (counted.claimed ≡ length (due_batch 5 10 two_entries.outbox))
    × (counted.delivered + counted.failed + counted.dlq ≡ counted.claimed)
    × All
        (InFlight false (drain_once down 10 5 two_entries).1)
        (map entry_key (due_batch 5 10 two_entries.outbox))
    × (counted.delivered
        ≡ Table.count
            (stands is_delivered (drain_once down 10 5 two_entries).1)
            (map entry_key (due_batch 5 10 two_entries.outbox)))
    × (counted.failed
        ≡ Table.count
            (stands is_pending (drain_once down 10 5 two_entries).1)
            (map entry_key (due_batch 5 10 two_entries.outbox)))
    × (counted.dlq
        ≡ Table.count
            (stands is_dead (drain_once down 10 5 two_entries).1)
            (map entry_key (due_batch 5 10 two_entries.outbox)))
unfolding drain_once Table.find Table.put new_entry
drain_once_accounts_example =
    drain_once_accounts down 10 5 two_entries (drain_once down 10 5 two_entries).1 counted
      two-IsKeyed refl

abbrev claimed_store : Store
claimed_store = record shop { outbox = record sold_entry { status = in_flight } ∷ [] }

in_flight_is_stuck_example :
    Absent (codes "e") (claim_due 5 999999 claimed_store).0
    × (Table.find entry_key (codes "e") (claim_due 5 999999 claimed_store).1.outbox
        ≡ Table.find entry_key (codes "e") claimed_store.outbox)
    × (retry_fabric_outbox_entry 999999 (codes "e") claimed_store
        ≡ (wrong_state in_flight, claimed_store))
unfolding Table.find new_entry
in_flight_is_stuck_example =
    in_flight_is_stuck 5 999999 (codes "e") claimed_store (refl, tt)
      (record sold_entry { status = in_flight }, refl, refl)
