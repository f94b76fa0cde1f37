-- ===== src/Outbox/Settled.antt =====
-- One entry of a drain: what its answer does to its row and to the counts.
use hightower_pos.Prelude.{
  ℕ, ◌+◌, ◌≡◌, ◌⊎◌, refl, inl, inr, Bool, true, false, Option, none, some, List, [], ◌∷◌, arith,
  All, ap, sym, ◌∙◌,
}
use hightower_pos.Prelude.Text.{Text, text_eq, ne_of_text_eq}
use hightower_pos.Table
use mathlib.Core.Bool.{false≢true}
use hightower_pos.Model.{
  OutboxEntry, Store, entry_key, save_entry, is_in_flight, is_pending, OutboxStatus, pending,
  in_flight, delivered, dlq, Reply, returned, failed, crashed,
}
use hightower_pos.Outbox.{
  mark_delivered, delivered_entry, mark_failed, failed_entry, settle, DrainResult, DrainOutcome,
  aborted, count_failure,
}

-- A list of distinct ids.
abbrev pub Absent : Text → List Text → Type 0
Absent k = All (λ j. text_eq j k ≡ false)

abbrev pub IsDistinct : List Text → Type 0
IsDistinct [] = Unit
IsDistinct (k ∷ ks) = Absent k ks × IsDistinct ks

-- The stored entry of an id is in flight, or is not.
abbrev pub InFlight : Bool → Store → Text → Type 0
InFlight b s k =
    (e : OutboxEntry) × (Table.find entry_key k s.outbox ≡ some e) × (is_in_flight e.status ≡ b)

abbrev pub is_delivered : OutboxStatus → Bool
is_delivered delivered = true
is_delivered _ = false

abbrev pub is_dead : OutboxStatus → Bool
is_dead dlq = true
is_dead _ = false

abbrev pub has_status : (OutboxStatus → Bool) → Option OutboxEntry → Bool
has_status p none = false
has_status p (some e) = p e.status

-- The stored entry of an id has a status of a kind.
abbrev pub stands : (OutboxStatus → Bool) → Store → Text → Bool
stands p s k = has_status p (Table.find entry_key k s.outbox)

unfoldable pub total : DrainResult → ℕ
total r = r.delivered + r.failed + r.dlq

failed_entry-lands :
    (now : ℕ) (error : Text) (e : OutboxEntry)
    → (is_in_flight (failed_entry now error e).status ≡ false)
      × (is_delivered (failed_entry now error e).status ≡ false)
      × ((failed_entry now error e).id ≡ e.id)
unfolding failed_entry
failed_entry-lands now error e = ground arith

-- A failure counts by the status that the entry has after it.
failure_counts :
    (st : OutboxStatus) (r : DrainResult)
    → is_in_flight st ≡ false
    → is_delivered st ≡ false
    → ((count_failure (some st) r).delivered ≡ r.delivered + Table.bit (is_delivered st))
      × ((count_failure (some st) r).failed ≡ r.failed + Table.bit (is_pending st))
      × ((count_failure (some st) r).dlq ≡ r.dlq + Table.bit (is_dead st))
failure_counts pending r a b = (omega arith, omega arith, omega arith)
failure_counts in_flight r a b = absurd (false≢true (sym a))
failure_counts delivered r a b = absurd (false≢true (sym b))
failure_counts dlq r a b = (omega arith, omega arith, omega arith)

-- One settled entry: one more in the count of the status that it has now, its row no longer in flight,
-- no other row changed.
pub record Settles (id : Text) (r : DrainResult) (s : Store) (r' : DrainResult) (s' : Store)
    : Type 0 where
  pub same_claimed : r'.claimed ≡ r.claimed
  pub one_more : total r' ≡ total r + 1
  pub counts_delivered : r'.delivered ≡ r.delivered + Table.bit (stands is_delivered s' id)
  pub counts_failed : r'.failed ≡ r.failed + Table.bit (stands is_pending s' id)
  pub counts_dlq : r'.dlq ≡ r.dlq + Table.bit (stands is_dead s' id)
  pub landed : InFlight false s' id
  pub others :
      (k : Text)
      → text_eq k id ≡ false
      → Table.find entry_key k s'.outbox ≡ Table.find entry_key k s.outbox

module _ (id : Text) (r : DrainResult) (s : Store) (e : OutboxEntry)
    (found : Table.find entry_key id s.outbox ≡ some e) where
  -- Saving a row of the same id that is not in flight.
  save-lands :
      (e' : OutboxEntry)
      → e'.id ≡ e.id
      → (Table.find entry_key id (save_entry e' s).outbox ≡ some e')
        × ((k : Text)
            → text_eq k id ≡ false
            → Table.find entry_key k (save_entry e' s).outbox ≡ Table.find entry_key k s.outbox)
  save-lands e' same =
      let e_id = Table.find-key entry_key id s.outbox e found in
      let to_id : e'.id ≡ id = same ∙ e_id in
      (
        ap (λ k. Table.find entry_key k (Table.put entry_key e' s.outbox)) (sym to_id)
            ∙ Table.find-put_self entry_key e' s.outbox e
                (ap (λ k. Table.find entry_key k s.outbox) to_id ∙ found),
        λ k ne.
            Table.find-put_ne entry_key k e' s.outbox
              (λ h. ne_of_text_eq k id ne (sym (h ∙ to_id))),
      )

  pub settle_cases :
      (now : ℕ) (reply : Reply (Option Text)) (rest : DrainResult → Store → DrainOutcome × Store)
      → (settle now id reply rest r s ≡ (aborted, s))
        ⊎ ((r' : DrainResult) × (s' : Store) × (settle now id reply rest r s ≡ rest r' s')
            × Settles id r s r' s')
  unfolding settle total
  settle_cases now crashed rest = inl refl
  settle_cases now (returned so) rest =
      let e' = delivered_entry so e in
      let (lands, same) = save-lands e' refl in
      inr (
        record r { delivered = r.delivered + 1 },
        save_entry e' s,
        rw (found, mark_delivered),
        record {
          same_claimed = refl;
          one_more = omega arith;
          counts_delivered = rw lands refl;
          counts_failed = rw lands (omega arith);
          counts_dlq = rw lands (omega arith);
          landed = (e', lands, refl);
          others = same;
        },
      )
  settle_cases now (failed error) rest =
      let e' = failed_entry now error.message e in
      let facts = failed_entry-lands now error.message e in
      let (lands, same) = save-lands e' facts.2 in
      let counts = failure_counts e'.status r facts.0 facts.1 in
      inr (
        count_failure (some e'.status) r,
        save_entry e' s,
        rw (found, mark_failed),
        record {
          same_claimed = ground arith;
          one_more = ground arith;
          counts_delivered = rw lands counts.0;
          counts_failed = rw lands counts.1;
          counts_dlq = rw lands counts.2;
          landed = (e', lands, facts.0);
          others = same;
        },
      )
