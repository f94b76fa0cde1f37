-- ===== src/Commits/Tills.antt =====
-- The writes of sales, refunds, retries and drains on the till sessions.
use hightower_pos.Model.{Store}
use hightower_pos.Outbox.{enqueue}
use hightower_pos.Till.OneOpen.{TillsOk, attribute_transaction-TillsOk}
use hightower_pos.Commits.{
  Write, logs, tallies, changes, finishes, posts, adds, Writes, nothing, then_write,
}

Write-TillsOk : {s s' : Store} → Write s s' → TillsOk s.till_sessions → TillsOk s'.till_sessions
unfolding enqueue
Write-TillsOk (logs c s) ok = ok
Write-TillsOk (tallies is_refund txn s) ok = attribute_transaction-TillsOk is_refund txn s ok
Write-TillsOk (changes t old s found c same) ok = ok
Write-TillsOk (finishes settings env t old s found c before after) ok = ok
Write-TillsOk (posts e old s found same) ok = ok
Write-TillsOk (adds t s fresh st) ok = ok

pub Writes-TillsOk :
    {s s' : Store} → Writes s s' → TillsOk s.till_sessions → TillsOk s'.till_sessions
Writes-TillsOk nothing ok = ok
Writes-TillsOk (then_write w one) ok = Write-TillsOk one (Writes-TillsOk w ok)
