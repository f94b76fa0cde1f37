-- ===== src/Outbox/Limits.antt =====
-- The attempt counter against the status, for every entry and under every operation.
use hightower_pos.Prelude.{
  ℕ, ◌<◌, ◌≡◌, inl, inr, true, none, some, Option, List, [], ◌∷◌, arith, All, Option-cases,
  Bool-cases, keep, leb, All-keep, All-take,
}
use hightower_pos.Prelude.Text.{Text}
use hightower_pos.Table
use hightower_pos.Model.{
  Txn, Payload, OutboxEntry, OutboxStatus, pending, dlq, Store, Settings, Env, Reply, returned,
  failed, crashed, entry_key, save_entry, is_in_flight, call, write_sales_order,
}
use hightower_pos.Outbox.{
  enqueue, new_entry, claim_due, claimed_entry, mark_in_flight, mark_delivered, delivered_entry,
  mark_failed, failed_entry, retry_fabric_outbox_entry, is_retryable, drain_entries, drain_once,
  due_batch, by_created_at, place, is_due, settle, DrainResult, DrainOutcome,
}

-- An entry that can still be sent has attempts left, and a dead-lettered one has used them all.
abbrev pub Limit : OutboxStatus → ℕ → Type 0
Limit dlq n = n ≡ 8
Limit _ n = n < 8

abbrev pub EntryOk : OutboxEntry → Type 0
EntryOk e = Limit e.status e.attempt_count

abbrev pub OutboxOk : Store → Type 0
OutboxOk s = All EntryOk s.outbox

failed_entry-EntryOk :
    (now : ℕ) (error : Text) (e : OutboxEntry)
    → e.attempt_count < 8
    → EntryOk (failed_entry now error e)
unfolding failed_entry
failed_entry-EntryOk now error e h = ground arith

delivered_entry-EntryOk :
    (so : Option Text) (e : OutboxEntry) → e.attempt_count < 8 → EntryOk (delivered_entry so e)
delivered_entry-EntryOk so e h = h

-- Enqueueing keeps the limits.
pub enqueue-OutboxOk :
    (settings : Settings) (env : Env) (txn : Txn) (s : Store)
    → OutboxOk s
    → OutboxOk (enqueue settings env txn s)
unfolding enqueue new_entry
enqueue-OutboxOk settings env txn s ok =
    Table.All-insert EntryOk entry_key (new_entry settings env txn) s.outbox (omega arith) ok

pub mark_delivered-OutboxOk :
    (id : Text) (so : Option Text) (s : Store) (e : OutboxEntry)
    → Table.find entry_key id s.outbox ≡ some e
    → e.attempt_count < 8
    → OutboxOk s
    → OutboxOk (mark_delivered id so s)
unfolding mark_delivered
mark_delivered-OutboxOk id so s e found h ok =
    rw (found, mark_delivered)
      (Table.All-put EntryOk entry_key (delivered_entry so e) s.outbox h ok)

pub mark_failed-OutboxOk :
    (now : ℕ) (id error : Text) (s : Store) (e : OutboxEntry)
    → Table.find entry_key id s.outbox ≡ some e
    → e.attempt_count < 8
    → OutboxOk s
    → OutboxOk (mark_failed now id error s).1
unfolding mark_failed
mark_failed-OutboxOk now id error s e found h ok =
    rw (found, mark_failed)
      (Table.All-put EntryOk entry_key (failed_entry now error e) s.outbox
        (failed_entry-EntryOk now error e h) ok)

in_flight-below : (e : OutboxEntry) → is_in_flight e.status ≡ true → EntryOk e → e.attempt_count < 8
in_flight-below e h ok = ground arith

-- Due entries are pending, so each batch is of entries with attempts left.
abbrev IsBelow : OutboxEntry → Type 0
IsBelow e = e.attempt_count < 8

place-IsBelow :
    (e : OutboxEntry) (es : List OutboxEntry)
    → IsBelow e
    → All IsBelow es
    → All IsBelow (place e es)
unfolding place
place-IsBelow e [] h hs = (h, tt)
place-IsBelow e (x ∷ xs) h hs = elim (Bool-cases (leb e.created_at x.created_at)) [
  | inl first_one ↦ rw (first_one, place) (h, hs)
  | inr later ↦ rw (later, place) (hs.0, place-IsBelow e xs h hs.1)
]

by_created_at-IsBelow : (es : List OutboxEntry) → All IsBelow es → All IsBelow (by_created_at es)
unfolding by_created_at
by_created_at-IsBelow [] h = tt
by_created_at-IsBelow (e ∷ es) h =
    place-IsBelow e (by_created_at es) h.0 (by_created_at-IsBelow es h.1)

due_batch-IsBelow :
    (batch_size now : ℕ) (rows : List OutboxEntry)
    → All EntryOk rows
    → All IsBelow (due_batch batch_size now rows)
unfolding due_batch
due_batch-IsBelow batch_size now rows ok =
    All-take IsBelow batch_size (by_created_at (keep (is_due now) rows)) (
      by_created_at-IsBelow (keep (is_due now) rows)
        (All-keep EntryOk IsBelow (is_due now) (λ e due h. ground arith) rows ok))

mark_in_flight-OutboxOk :
    (es : List OutboxEntry) (s : Store)
    → All IsBelow es
    → OutboxOk s
    → OutboxOk (mark_in_flight es s)
unfolding mark_in_flight
mark_in_flight-OutboxOk [] s below ok = ok
mark_in_flight-OutboxOk (e ∷ es) s below ok =
    mark_in_flight-OutboxOk es (save_entry (claimed_entry e) s) below.1
      (Table.All-put EntryOk entry_key (claimed_entry e) s.outbox below.0 ok)

-- Claiming a batch keeps the limits.
pub claim_due-OutboxOk :
    (batch_size now : ℕ) (s : Store) → OutboxOk s → OutboxOk (claim_due batch_size now s).1
unfolding claim_due
claim_due-OutboxOk batch_size now s ok =
    mark_in_flight-OutboxOk (due_batch batch_size now s.outbox) s
      (due_batch-IsBelow batch_size now s.outbox ok) ok

-- The admin retry keeps the limits: it starts the count again.
pub retry-OutboxOk :
    (now : ℕ) (id : Text) (s : Store) → OutboxOk s → OutboxOk (retry_fabric_outbox_entry now id s).1
unfolding retry_fabric_outbox_entry
retry-OutboxOk now id s ok = elim (Option-cases (Table.find entry_key id s.outbox)) [
  | inl missing ↦ rw (missing, retry_fabric_outbox_entry) ok
  | inr (e, found) ↦ elim (Bool-cases (is_retryable e.status)) [
    | inr other ↦ rw (found, retry_fabric_outbox_entry, other) ok
    | inl retryable ↦
        let e' : OutboxEntry = record e {
          status = pending;
          attempt_count = 0;
          next_attempt_at = now;
          last_error = none;
        } in
        rw (found, retry_fabric_outbox_entry, retryable)
          (Table.All-put EntryOk entry_key e' s.outbox (omega arith) ok)
  ]
]

module _ (write : Payload → Reply (Option Text)) (now : ℕ) where
  -- One settled entry keeps the limits if the rest of the loop does.
  settle-OutboxOk :
      (id : Text) (reply : Reply (Option Text)) (rest : DrainResult → Store → DrainOutcome × Store)
      (r : DrainResult) (s : Store) (e : OutboxEntry)
      → ((r' : DrainResult) (s' : Store) → OutboxOk s' → OutboxOk (rest r' s').1)
      → Table.find entry_key id s.outbox ≡ some e
      → e.attempt_count < 8
      → OutboxOk s
      → OutboxOk (settle now id reply rest r s).1
  unfolding settle
  settle-OutboxOk id (returned so) rest r s e keep_on found h ok =
      keep_on _ _ (mark_delivered-OutboxOk id so s e found h ok)
  settle-OutboxOk id (failed error) rest r s e keep_on found h ok =
      keep_on _ _ (mark_failed-OutboxOk now id error.message s e found h ok)
  settle-OutboxOk id crashed rest r s e keep_on found h ok = ok

  drain_entries-OutboxOk :
      (ids : List Text) (r : DrainResult) (s : Store)
      → OutboxOk s
      → OutboxOk (drain_entries write now ids r s).1
  unfolding drain_entries
  drain_entries-OutboxOk [] r s ok = ok
  drain_entries-OutboxOk (id ∷ ids) r s ok =
      elim (Option-cases (Table.find entry_key id s.outbox)) [
        | inl missing ↦ rw (missing, drain_entries) (drain_entries-OutboxOk ids r s ok)
        | inr (e, found) ↦ elim (Bool-cases (is_in_flight e.status)) [
          | inr other ↦ rw (found, drain_entries, other) (drain_entries-OutboxOk ids r s ok)
          | inl flying ↦
              rw (found, drain_entries, flying)
                (settle-OutboxOk id (write e.payload) (drain_entries write now ids) r
                  (call (write_sales_order e.payload) s) e
                  (λ r' s' ok'. drain_entries-OutboxOk ids r' s' ok') found
                  (in_flight-below e flying
                    (Table.All-find EntryOk entry_key id s.outbox e ok found))
                  ok)
        ]
      ]

  -- A whole drain keeps the limits, also where the client raises what the drain does not handle.
  pub drain_once-OutboxOk :
      (batch_size : ℕ) (s : Store) → OutboxOk s → OutboxOk (drain_once write now batch_size s).1
  unfolding drain_once
  drain_once-OutboxOk batch_size s ok =
      drain_entries-OutboxOk (claim_due batch_size now s).0 _ (claim_due batch_size now s).1
        (claim_due-OutboxOk batch_size now s ok)
