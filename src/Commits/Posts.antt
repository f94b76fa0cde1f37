-- ===== src/Commits/Posts.antt =====
-- What a drain of the outbox and the admin retry of an entry write: only entries, each under its own
-- transaction.
use hightower_pos.Prelude.{
  ℕ, ◌≡◌, refl, inl, inr, Option, some, List, [], ◌∷◌, Bool-cases, Option-cases, All, ap, sym, ◌∙◌,
  subst, arith,
}
use hightower_pos.Prelude.Text.{Text, text_eq-sym, ne_of_text_eq}
use hightower_pos.Table
use hightower_pos.Model.{
  OutboxEntry, Payload, Store, Reply, returned, failed, crashed, entry_key, save_entry, call,
  write_sales_order, is_in_flight,
}
use hightower_pos.Outbox.{
  claimed_entry, mark_in_flight, due_batch, claim_due, mark_delivered, delivered_entry,
  failed_entry, mark_failed, DrainResult, DrainOutcome, settle, drain_entries, drain_once,
  is_retryable, retry_fabric_outbox_entry,
}
use hightower_pos.Outbox.Claim.{IsUnique, Differs, claim_due-IsClaim}
use hightower_pos.Commits.{logs, posts, Writes, nothing, then_write}
use hightower_pos.Commits.Sequence.{chain}

abbrev IsStored : Store → OutboxEntry → Type 0
IsStored s e = Table.find entry_key e.id s.outbox ≡ some e

mark_in_flight-Writes :
    (es : List OutboxEntry) (s : Store)
    → IsUnique es
    → All (IsStored s) es
    → Writes s (mark_in_flight es s)
unfolding mark_in_flight
mark_in_flight-Writes [] s unique stored = nothing
mark_in_flight-Writes (e ∷ es) s unique stored =
    let s' : Store = save_entry (claimed_entry e) s in
    chain (then_write nothing (posts (claimed_entry e) e s stored.0 refl))
      (mark_in_flight-Writes es s' unique.1 (others es unique.0 stored.1))
  where
    others :
        (xs : List OutboxEntry)
        → All (Differs e) xs
        → All (IsStored s) xs
        → All (IsStored (save_entry (claimed_entry e) s)) xs
    others [] d h = tt
    others (x ∷ xs) d h = (
      Table.find-put_ne entry_key x.id (claimed_entry e) s.outbox
            (ne_of_text_eq e.id x.id (text_eq-sym e.id x.id ∙ d.0))
          ∙ h.0,
      others xs d.1 h.1,
    )

pub claim_due-Writes :
    (batch_size now : ℕ) (s : Store)
    → Table.IsKeyed entry_key s.outbox
    → Writes s (claim_due batch_size now s).1
unfolding claim_due
claim_due-Writes batch_size now s keyed =
    let claim = (claim_due-IsClaim batch_size now s keyed).1 in
    mark_in_flight-Writes (due_batch batch_size now s.outbox) s claim.unique claim.stored

-- An entry that is found is its own row.
own_entry :
    (id : Text) (s : Store) (e : OutboxEntry)
    → Table.find entry_key id s.outbox ≡ some e
    → Table.find entry_key e.id s.outbox ≡ some e
own_entry id s e found =
    subst (λ k. Table.find entry_key k s.outbox ≡ some e)
      (sym (Table.find-key entry_key id s.outbox e found)) found

mark_delivered-Writes :
    (id : Text) (so : Option Text) (s : Store) → Writes s (mark_delivered id so s)
unfolding mark_delivered
mark_delivered-Writes id so s = elim (Option-cases (Table.find entry_key id s.outbox)) [
  | inl missing ↦ rw (missing, mark_delivered) nothing
  | inr (e, found) ↦
      rw (found, mark_delivered)
        (then_write nothing (posts (delivered_entry so e) e s (own_entry id s e found) refl))
]

failed_entry-columns :
    (now : ℕ) (error : Text) (e : OutboxEntry)
    → ((failed_entry now error e).id ≡ e.id)
      × ((failed_entry now error e).pos_transaction_id ≡ e.pos_transaction_id)
unfolding failed_entry
failed_entry-columns now error e = (ground arith, ground arith)

mark_failed-Writes :
    (now : ℕ) (id error : Text) (s : Store) → Writes s (mark_failed now id error s).1
unfolding mark_failed
mark_failed-Writes now id error s = elim (Option-cases (Table.find entry_key id s.outbox)) [
  | inl missing ↦ rw (missing, mark_failed) nothing
  | inr (e, found) ↦
      let (same_id, same_txn) = failed_entry-columns now error e in
      rw (found, mark_failed)
        (then_write nothing (
          posts (failed_entry now error e) e s
            (ap (λ k. Table.find entry_key k s.outbox) same_id ∙ own_entry id s e found) same_txn))
]

module _ (write : Payload → Reply (Option Text)) (now : ℕ) where
  settle-Writes :
      (id : Text) (reply : Reply (Option Text)) (rest : DrainResult → Store → DrainOutcome × Store)
      (r : DrainResult) (s : Store)
      → ((r' : DrainResult) (s' : Store) → Writes s' (rest r' s').1)
      → Writes s (settle now id reply rest r s).1
  unfolding settle
  settle-Writes id (returned so) rest r s more = chain (mark_delivered-Writes id so s) (more _ _)
  settle-Writes id (failed e) rest r s more =
      chain (mark_failed-Writes now id e.message s) (more _ _)
  settle-Writes id crashed rest r s more = nothing

  drain_entries-Writes :
      (ids : List Text) (r : DrainResult) (s : Store) → Writes s (drain_entries write now ids r s).1
  unfolding drain_entries
  drain_entries-Writes [] r s = nothing
  drain_entries-Writes (id ∷ ids) r s = elim (Option-cases (Table.find entry_key id s.outbox)) [
    | inl missing ↦ rw (missing, drain_entries) (drain_entries-Writes ids r s)
    | inr (e, found) ↦ elim (Bool-cases (is_in_flight e.status)) [
      | inr other ↦ rw (found, drain_entries, other) (drain_entries-Writes ids r s)
      | inl flying ↦
          rw (found, drain_entries, flying)
            (chain (then_write nothing (logs (write_sales_order e.payload) s)) (
              settle-Writes id (write e.payload) (drain_entries write now ids) r
                (call (write_sales_order e.payload) s) (drain_entries-Writes ids)))
    ]
  ]

  pub drain_once-Writes :
      (batch_size : ℕ) (s : Store)
      → Table.IsKeyed entry_key s.outbox
      → Writes s (drain_once write now batch_size s).1
  unfolding drain_once
  drain_once-Writes batch_size s keyed =
      chain (claim_due-Writes batch_size now s keyed)
        (drain_entries-Writes (claim_due batch_size now s).0 _ (claim_due batch_size now s).1)

pub retry_entry-Writes :
    (now : ℕ) (id : Text) (s : Store) → Writes s (retry_fabric_outbox_entry now id s).1
unfolding retry_fabric_outbox_entry
retry_entry-Writes now id s = elim (Option-cases (Table.find entry_key id s.outbox)) [
  | inl missing ↦ rw (missing, retry_fabric_outbox_entry) nothing
  | inr (e, found) ↦ elim (Bool-cases (is_retryable e.status)) [
    | inr other ↦ rw (found, retry_fabric_outbox_entry, other) nothing
    | inl retryable ↦
        rw (found, retry_fabric_outbox_entry, retryable)
          (then_write nothing (posts _ e s (own_entry id s e found) refl))
  ]
]
