-- ===== src/Outbox/Claim.antt =====
-- What a claim takes: due entries, at most a batch of them, each once, oldest first.
use hightower_pos.Prelude.{
  ℕ, zero, suc, ◌≤◌, ◌≡◌, ◌≢◌, refl, inl, inr, Bool, true, false, none, some, List, [], ◌∷◌, arith,
  All, All-map, All-keep, All-take, Bool-cases, take, keep, leb, map, length, length-take, sym, ap,
  ◌∙◌, All-both,
}
use mathlib.Core.Bool.{false≢true}
use hightower_pos.Prelude.Text.{ne_of_text_eq, Text, text_eq, text_eq_refl, text_eq-sym}
use hightower_pos.Table
use hightower_pos.Model.{OutboxEntry, Store, entry_key, save_entry}
use hightower_pos.Outbox.{
  claim_due, claimed_entry, mark_in_flight, due_batch, by_created_at, place, is_due,
}

-- A property of the batch that ordering keeps.
module _ (P : OutboxEntry → Type 0) where
  place-All : (e : OutboxEntry) (es : List OutboxEntry) → P e → All P es → All P (place e es)
  unfolding place
  place-All e [] h hs = (h, tt)
  place-All e (x ∷ xs) h hs = elim (Bool-cases (leb e.created_at x.created_at)) [
    | inl first_one ↦ rw (first_one, place) (h, hs)
    | inr later ↦ rw (later, place) (hs.0, place-All e xs h hs.1)
  ]

  by_created_at-All : (es : List OutboxEntry) → All P es → All P (by_created_at es)
  unfolding by_created_at
  by_created_at-All [] h = tt
  by_created_at-All (e ∷ es) h = place-All e (by_created_at es) h.0 (by_created_at-All es h.1)

-- No two entries share an id.
abbrev pub Differs : OutboxEntry → OutboxEntry → Type 0
Differs e x = text_eq x.id e.id ≡ false

abbrev pub IsUnique : List OutboxEntry → Type 0
IsUnique [] = Unit
IsUnique (e ∷ es) = All (Differs e) es × IsUnique es

none≢some : {a : OutboxEntry} → none ≡ some a → ⊥
none≢some h = cc

find-none-Differs :
    (e : OutboxEntry) (rows : List OutboxEntry)
    → Table.find entry_key e.id rows ≡ none
    → All (Differs e) rows
unfolding Table.find
find-none-Differs e [] h = tt
find-none-Differs e (r ∷ rows) h = elim (Bool-cases (text_eq r.id e.id)) [
  | inl same ↦ absurd (none≢some (sym (rw (same, Table.find) at h)))
  | inr other ↦ (other, find-none-Differs e rows (rw (other, Table.find) at h))
]

keyed-IsUnique : (rows : List OutboxEntry) → Table.IsKeyed entry_key rows → IsUnique rows
keyed-IsUnique [] h = tt
keyed-IsUnique (r ∷ rows) h = (find-none-Differs r rows h.0, keyed-IsUnique rows h.1)

keep-IsUnique :
    (p : OutboxEntry → Bool) (es : List OutboxEntry) → IsUnique es → IsUnique (keep p es)
keep-IsUnique p [] h = tt
keep-IsUnique p (e ∷ es) h = elim (Bool-cases (p e)) [
  | inl kept ↦
      rw (kept, IsUnique)
        (All-keep (Differs e) (Differs e) p (λ x _ d. d) es h.0, keep-IsUnique p es h.1)
  | inr dropped ↦ rw (dropped, IsUnique) (keep-IsUnique p es h.1)
]

place-IsUnique :
    (e : OutboxEntry) (es : List OutboxEntry)
    → All (Differs e) es
    → IsUnique es
    → IsUnique (place e es)
unfolding place
place-IsUnique e [] d h = (tt, tt)
place-IsUnique e (x ∷ xs) d h = elim (Bool-cases (leb e.created_at x.created_at)) [
  | inl first_one ↦ rw (first_one, place) (d, h)
  | inr later ↦
      rw (later, place)
        (place-All (Differs x) e xs (text_eq-sym e.id x.id ∙ d.0) h.0, place-IsUnique e xs d.1 h.1)
]

by_created_at-IsUnique : (es : List OutboxEntry) → IsUnique es → IsUnique (by_created_at es)
unfolding by_created_at
by_created_at-IsUnique [] h = tt
by_created_at-IsUnique (e ∷ es) h =
    place-IsUnique e (by_created_at es) (by_created_at-All (Differs e) es h.0)
      (by_created_at-IsUnique es h.1)

take-IsUnique : (n : ℕ) (es : List OutboxEntry) → IsUnique es → IsUnique (take n es)
take-IsUnique zero es h = tt
take-IsUnique (suc n) [] h = tt
take-IsUnique (suc n) (e ∷ es) h = (All-take (Differs e) n es h.0, take-IsUnique n es h.1)

-- Oldest first.
abbrev pub IsOrdered : List OutboxEntry → Type 0
IsOrdered [] = Unit
IsOrdered (e ∷ es) = All (λ x. e.created_at ≤ x.created_at) es × IsOrdered es

place-IsOrdered : (e : OutboxEntry) (es : List OutboxEntry) → IsOrdered es → IsOrdered (place e es)
unfolding place
place-IsOrdered e [] h = (tt, tt)
place-IsOrdered e (x ∷ xs) h = elim (Bool-cases (leb e.created_at x.created_at)) [
  | inl first_one ↦
      rw (first_one, place)
        (
          (
            ground arith,
            All-map (λ y. x.created_at ≤ y.created_at) (λ y. e.created_at ≤ y.created_at)
                (λ y le. ground arith) xs h.0,
          ),
          h,
        )
  | inr later ↦
      rw (later, place)
        (
          place-All (λ y. x.created_at ≤ y.created_at) e xs (ground arith) h.0,
          place-IsOrdered e xs h.1,
        )
]

by_created_at-IsOrdered : (es : List OutboxEntry) → IsOrdered (by_created_at es)
unfolding by_created_at
by_created_at-IsOrdered [] = tt
by_created_at-IsOrdered (e ∷ es) = place-IsOrdered e (by_created_at es) (by_created_at-IsOrdered es)

take-IsOrdered : (n : ℕ) (es : List OutboxEntry) → IsOrdered es → IsOrdered (take n es)
take-IsOrdered zero es h = tt
take-IsOrdered (suc n) [] h = tt
take-IsOrdered (suc n) (e ∷ es) h =
    (All-take (λ x. e.created_at ≤ x.created_at) n es h.0, take-IsOrdered n es h.1)

-- Claimed entries are stored in flight, and all others stay as they were.
ne_of_Differs : (e x : OutboxEntry) → Differs e x → x.id ≢ e.id
ne_of_Differs e x d h = false≢true (sym d ∙ ap (λ k. text_eq k e.id) h ∙ text_eq_refl e.id)

mark_in_flight-other :
    (k : Text) (es : List OutboxEntry) (s : Store)
    → All (λ x. text_eq x.id k ≡ false) es
    → Table.find entry_key k (mark_in_flight es s).outbox ≡ Table.find entry_key k s.outbox
unfolding mark_in_flight
mark_in_flight-other k [] s h = refl
mark_in_flight-other k (e ∷ es) s h =
    mark_in_flight-other k es (save_entry (claimed_entry e) s) h.1
    ∙ Table.find-put_ne entry_key k (claimed_entry e) s.outbox (ne_of_text_eq e.id k h.0)

mark_in_flight-claims :
    (es : List OutboxEntry) (s : Store)
    → IsUnique es
    → All (λ e. Table.find entry_key e.id s.outbox ≡ some e) es
    → All (λ e. Table.find entry_key e.id (mark_in_flight es s).outbox ≡ some (claimed_entry e)) es
unfolding mark_in_flight
mark_in_flight-claims [] s u h = tt
mark_in_flight-claims (e ∷ es) s u h =
    let s' = save_entry (claimed_entry e) s in
    (
      mark_in_flight-other e.id es s' u.0
          ∙ Table.find-put_self entry_key (claimed_entry e) s.outbox e h.0,
      mark_in_flight-claims es s' u.1 (
          All-both (Differs e) (λ x. Table.find entry_key x.id s.outbox ≡ some x)
            (λ x. Table.find entry_key x.id s'.outbox ≡ some x)
            (λ x d found.
              Table.find-put_ne entry_key x.id (claimed_entry e) s.outbox (ne_of_Differs e x d)
              ∙ found)
            es u.0 h.1),
    )

-- A batch: its size, its order, and for each of its entries that it was due, that it was the stored
-- row, and that it is now stored in flight and otherwise the same; no other row has changed.
pub record IsClaim (batch_size now : ℕ) (batch : List OutboxEntry) (before after : Store)
    : Type 0 where
  pub size : length batch ≤ batch_size
  pub order : IsOrdered batch
  pub unique : IsUnique batch
  pub due : All (λ e. is_due now e ≡ true) batch
  pub stored : All (λ e. Table.find entry_key e.id before.outbox ≡ some e) batch
  pub claims : All (λ e. Table.find entry_key e.id after.outbox ≡ some (claimed_entry e)) batch
  pub others :
      (k : Text)
      → All (λ x. text_eq x.id k ≡ false) batch
      → Table.find entry_key k after.outbox ≡ Table.find entry_key k before.outbox

-- A claim over a table with distinct ids takes at most a batch of entries, each once and in the order
-- of their creation; each was pending and due, and is now stored in flight and otherwise unchanged,
-- and no other row has changed.
pub claim_due-IsClaim :
    (batch_size now : ℕ) (s : Store)
    → Table.IsKeyed entry_key s.outbox
    → ((claim_due batch_size now s).0 ≡ map entry_key (due_batch batch_size now s.outbox))
      × IsClaim batch_size now (due_batch batch_size now s.outbox) s (claim_due batch_size now s).1
unfolding claim_due due_batch
claim_due-IsClaim batch_size now s keyed =
    let rows = s.outbox in
    let kept = keep (is_due now) rows in
    let sorted = by_created_at kept in
    let unique =
      take-IsUnique batch_size sorted (
        by_created_at-IsUnique kept
          (keep-IsUnique (is_due now) rows (keyed-IsUnique rows keyed))) in
    let Stored : OutboxEntry → Type 0 = λ e. Table.find entry_key e.id rows ≡ some e in
    let stored : All Stored (take batch_size sorted) = All-take Stored batch_size sorted (
      by_created_at-All Stored kept (
        All-keep Stored Stored (is_due now) (λ e _ h. h) rows
          (Table.keyed-found entry_key rows keyed))) in
    let Due : OutboxEntry → Type 0 = λ e. is_due now e ≡ true in
    (
      refl,
      record {
        size = omega (arith, length-take batch_size sorted);
        order = take-IsOrdered batch_size sorted (by_created_at-IsOrdered kept);
        unique = unique;
        due = All-take Due batch_size sorted (
            by_created_at-All Due kept (
              All-keep Stored Due (is_due now) (λ e d _. d) rows
                (Table.keyed-found entry_key rows keyed)));
        stored = stored;
        claims = mark_in_flight-claims (take batch_size sorted) s unique stored;
        others = λ k h. mark_in_flight-other k (take batch_size sorted) s h;
      },
    )
