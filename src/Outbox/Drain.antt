-- ===== src/Outbox/Drain.antt =====
-- The accounts of a drain, and the entries that an unexpected exception leaves behind.
use hightower_pos.Prelude.{
  ℕ, ◌+◌, ◌≡◌, refl, inl, inr, Bool, true, false, Option, some, List, [], ◌∷◌, arith, All, All-map,
  All-both, Bool-cases, map, length, length-map, ap, sym, ◌∙◌,
}
use hightower_pos.Prelude.Text.{Text, text_eq, text_eq→eq, text_eq-sym}
use hightower_pos.Table
use hightower_pos.Model.{
  OutboxEntry, Payload, Store, entry_key, is_in_flight, is_pending, OutboxStatus, call,
  write_sales_order, Reply, in_flight,
}
use hightower_pos.Outbox.{
  claim_due, claimed_entry, due_batch, drain_entries, drain_once, DrainResult, DrainOutcome,
  finished, aborted, retry_fabric_outbox_entry, wrong_state, is_due,
}
use hightower_pos.Outbox.Claim.{claim_due-IsClaim, IsUnique, Differs}
use hightower_pos.Outbox.Settled.{
  stands, has_status, is_delivered, is_dead, Absent, IsDistinct, InFlight, total, Settles,
  settle_cases,
}

InFlight-others :
    (b : Bool) (s s' : Store) (k : Text)
    → Table.find entry_key k s'.outbox ≡ Table.find entry_key k s.outbox
    → InFlight b s k
    → InFlight b s' k
InFlight-others b s s' k same (e, found, flying) = (e, same ∙ found, flying)

-- What a finished loop over `ids` has done.
record Drains (ids : List Text) (r : DrainResult) (s : Store) (r' : DrainResult) (s' : Store)
    : Type 0 where
  same_claimed : r'.claimed ≡ r.claimed
  accounted : total r' ≡ total r + length ids
  all_delivered : r'.delivered ≡ r.delivered + Table.count (stands is_delivered s') ids
  all_failed : r'.failed ≡ r.failed + Table.count (stands is_pending s') ids
  all_dlq : r'.dlq ≡ r.dlq + Table.count (stands is_dead s') ids
  landed : All (InFlight false s') ids
  others :
      (k : Text) → Absent k ids → Table.find entry_key k s'.outbox ≡ Table.find entry_key k s.outbox

Absent-sym : (k : Text) (ids : List Text) → Absent k ids → All (λ j. text_eq k j ≡ false) ids
Absent-sym k ids h =
    All-map (λ j. text_eq j k ≡ false) (λ j. text_eq k j ≡ false) (λ j ne. text_eq-sym k j ∙ ne) ids
      h

Drains-cons :
    (id : Text) (ids : List Text) (r r₁ r' : DrainResult) (s s₁ s' : Store)
    → Absent id ids
    → Settles id r s r₁ s₁
    → Drains ids r₁ s₁ r' s'
    → Drains (id ∷ ids) r s r' s'
unfolding Table.count
Drains-cons id ids r r₁ r' s s₁ s' absent one rest =
    let kept =
      λ (p : OutboxStatus → Bool). ap (λ o. Table.bit (has_status p o)) (rest.others id absent) in
    record {
      same_claimed = rest.same_claimed ∙ one.same_claimed;
      accounted = omega (arith, rest.accounted, one.one_more);
      all_delivered = omega (arith, rest.all_delivered, one.counts_delivered, kept is_delivered);
      all_failed = omega (arith, rest.all_failed, one.counts_failed, kept is_pending);
      all_dlq = omega (arith, rest.all_dlq, one.counts_dlq, kept is_dead);
      landed = (InFlight-others false s₁ s' id (rest.others id absent) one.landed, rest.landed);
      others = λ k h. rest.others k h.1 ∙ one.others k (text_eq-sym k id ∙ h.0);
    }

abbrev OnFinished : (DrainResult → Store → Type 0) → DrainOutcome × Store → Type 0
OnFinished P (finished r, s) = P r s
OnFinished P (aborted, s) = Unit

OnFinished-map :
    (P Q : DrainResult → Store → Type 0)
    → ((r : DrainResult) (s : Store) → P r s → Q r s)
    → (o : DrainOutcome × Store) → OnFinished P o
    → OnFinished Q o
OnFinished-map P Q f (finished r, s) h = f r s h
OnFinished-map P Q f (aborted, s) h = tt

-- The log of calls is no part of what settling an entry says.
without_call :
    {id : Text} {r r' : DrainResult} {s s' : Store} (p : Payload)
    → Settles id r (call (write_sales_order p) s) r' s'
    → Settles id r s r' s'
without_call p one = record {
  same_claimed = one.same_claimed;
  one_more = one.one_more;
  counts_delivered = one.counts_delivered;
  counts_failed = one.counts_failed;
  counts_dlq = one.counts_dlq;
  landed = one.landed;
  others = one.others;
}

ids-Absent :
    (e : OutboxEntry) (es : List OutboxEntry) → All (Differs e) es → Absent e.id (map entry_key es)
ids-Absent e [] h = tt
ids-Absent e (x ∷ es) h = (h.0, ids-Absent e es h.1)

ids-IsDistinct : (es : List OutboxEntry) → IsUnique es → IsDistinct (map entry_key es)
ids-IsDistinct [] h = tt
ids-IsDistinct (e ∷ es) h = (ids-Absent e es h.0, ids-IsDistinct es h.1)

ids-InFlight :
    (s : Store) (es : List OutboxEntry)
    → All (λ e. Table.find entry_key e.id s.outbox ≡ some (claimed_entry e)) es
    → All (InFlight true s) (map entry_key es)
ids-InFlight s [] h = tt
ids-InFlight s (e ∷ es) h = ((claimed_entry e, h.0, refl), ids-InFlight s es h.1)

module _ (write : Payload → Reply (Option Text)) (now : ℕ) where
  drain_entries-Drains :
      (ids : List Text) (r : DrainResult) (s : Store)
      → IsDistinct ids
      → All (InFlight true s) ids
      → OnFinished (Drains ids r s) (drain_entries write now ids r s)
  unfolding drain_entries Table.count
  drain_entries-Drains [] r s d flying = record {
    same_claimed = refl;
    accounted = omega arith;
    all_delivered = omega arith;
    all_failed = omega arith;
    all_dlq = omega arith;
    landed = tt;
    others = λ k h. refl;
  }
  drain_entries-Drains (id ∷ ids) r s d ((e, found, flies), flying) =
      let sent = call (write_sales_order e.payload) s in
      rw (found, drain_entries, flies)
        (elim (settle_cases id r sent e found now (write e.payload) (drain_entries write now ids)) [
          | inl stopped ↦ rw stopped tt
          | inr (r₁, s₁, goes_on, one) ↦
              let later : All (InFlight true s₁) ids =
                All-both (λ j. text_eq j id ≡ false) (InFlight true s) (InFlight true s₁)
                  (λ j ne there. InFlight-others true s s₁ j (one.others j ne) there) ids d.0
                  flying in
              rw goes_on (
                OnFinished-map (Drains ids r₁ s₁) (Drains (id ∷ ids) r s)
                  (λ r' s' rest.
                    Drains-cons id ids r r₁ r' s s₁ s' d.0 (without_call e.payload one) rest)
                  (drain_entries write now ids r₁ s₁) (drain_entries-Drains ids r₁ s₁ d.1 later))
        ])

  -- Over a table with distinct ids, a drain that finishes reports as claimed the number of entries of
  -- its batch; each of them was delivered, failed or dead-lettered, and none of them is left in flight.
  -- It reports as delivered the number of them that are stored as delivered, as failed the number that
  -- are stored as pending again, and as dead-lettered the number that are stored as dead-lettered.
  pub drain_once_accounts :
      (batch_size : ℕ) (s s' : Store) (r : DrainResult)
      → Table.IsKeyed entry_key s.outbox
      → drain_once write now batch_size s ≡ (finished r, s')
      → (r.claimed ≡ length (due_batch batch_size now s.outbox))
        × (r.delivered + r.failed + r.dlq ≡ r.claimed)
        × All (InFlight false s') (map entry_key (due_batch batch_size now s.outbox))
        × (r.delivered
            ≡ Table.count
                (stands is_delivered s')
                (map entry_key (due_batch batch_size now s.outbox)))
        × (r.failed
            ≡ Table.count
                (stands is_pending s')
                (map entry_key (due_batch batch_size now s.outbox)))
        × (r.dlq
            ≡ Table.count (stands is_dead s') (map entry_key (due_batch batch_size now s.outbox)))
  unfolding drain_once total
  drain_once_accounts batch_size s s' r keyed h =
      let batch = due_batch batch_size now s.outbox in
      let ids = map entry_key batch in
      let s₁ = (claim_due batch_size now s).1 in
      let claim = (claim_due-IsClaim batch_size now s keyed).1 in
      let start : DrainResult = record {
        claimed = length ids;
        delivered = 0;
        failed = 0;
        dlq = 0;
      } in
      let done : Drains ids start s₁ r s' = rw h at (
        drain_entries-Drains ids start s₁ (ids-IsDistinct batch claim.unique)
          (ids-InFlight s₁ batch claim.claims)) in
      (
        done.same_claimed ∙ length-map entry_key batch,
        omega (arith, done.same_claimed, done.accounted),
        done.landed,
        omega (arith, done.all_delivered),
        omega (arith, done.all_failed),
        omega (arith, done.all_dlq),
      )

due_differs :
    (now : ℕ) (id : Text) (s : Store) (e x : OutboxEntry)
    → Table.find entry_key id s.outbox ≡ some e
    → is_in_flight e.status ≡ true
    → is_due now x ≡ true
    → Table.find entry_key x.id s.outbox ≡ some x
    → text_eq x.id id ≡ false
due_differs now id s e x found flies due stored = elim (Bool-cases (text_eq x.id id)) [
  | inr other ↦ other
  | inl same ↦
      let one : some x ≡ some e =
        sym stored ∙ ap (λ k. Table.find entry_key k s.outbox) (text_eq→eq x.id id same) ∙ found in
      ground (arith, one)
]

flying_status : (e : OutboxEntry) → is_in_flight e.status ≡ true → e.status ≡ in_flight
flying_status e h = ground arith

-- An entry in flight outside a batch is never taken up again: whatever the time and the batch size, it
-- is not among the entries that a claim returns and the claim leaves its row as it is, and the admin
-- retry refuses it and leaves the store alone.
pub in_flight_is_stuck :
    (batch_size now : ℕ) (id : Text) (s : Store)
    → Table.IsKeyed entry_key s.outbox
    → InFlight true s id
    → Absent id (claim_due batch_size now s).0
      × (Table.find entry_key id (claim_due batch_size now s).1.outbox
          ≡ Table.find entry_key id s.outbox)
      × (retry_fabric_outbox_entry now id s ≡ (wrong_state in_flight, s))
unfolding retry_fabric_outbox_entry claim_due
in_flight_is_stuck batch_size now id s keyed (e, found, flies) =
    let claim = (claim_due-IsClaim batch_size now s keyed).1 in
    let batch = due_batch batch_size now s.outbox in
    let others : All (λ x. text_eq x.id id ≡ false) batch =
      All-both (λ x. is_due now x ≡ true) (λ x. Table.find entry_key x.id s.outbox ≡ some x)
        (λ x. text_eq x.id id ≡ false)
        (λ x due stored. due_differs now id s e x found flies due stored) batch claim.due
        claim.stored in
    (
      ids-apart id batch others,
      claim.others id others,
      rw (found, retry_fabric_outbox_entry, flying_status e flies)
          (ap (λ st. (wrong_state st, s)) (flying_status e flies)),
    )
  where
    ids-apart :
        (id : Text) (es : List OutboxEntry)
        → All (λ x. text_eq x.id id ≡ false) es
        → Absent id (map entry_key es)
    ids-apart id [] h = tt
    ids-apart id (x ∷ es) h = (h.0, ids-apart id es h.1)
