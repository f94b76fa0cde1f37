-- ===== src/Commits/Kept.antt =====
-- The writes against `Books`: new rows, tallies, logged calls and moved entries here, saved rows in
-- `Commits/Books.antt`.
use hightower_pos.Prelude.{
  ◌+◌, ◌≤◌, ◌≡◌, refl, inl, inr, Bool, true, false, ◌&&◌, none, some, arith, Bool-cases,
  Option-cases, if◌then◌else◌, ap, sym, ◌∙◌, subst,
}
use hightower_pos.Prelude.Text.{Text, text_eq, text_eq→eq}
use hightower_pos.Table
use hightower_pos.Table.{bit}
use hightower_pos.Model.{
  OutboxEntry, entry_key, save_entry, Txn, sale, refund, Store, txn_key, get_txn, add_txn,
}
use hightower_pos.Till.{attribute_transaction, get_open_session}
use hightower_pos.Refund.Start.{blocks}
use hightower_pos.Commits.{
  is_done, Starts, starts_sale, starts_refund, Write, logs, tallies, changes, finishes, posts, adds,
  Writes, nothing, then_write,
}
use hightower_pos.Commits.Lifecycle.{TxnOk}
use hightower_pos.Commits.Books.{
  Books, RefersToSale, is_for, owed, same-Books, changes-Books, finishes-Books,
}

pub attribute-transactions :
    (is_refund : Bool) (txn : Txn) (s : Store)
    → (attribute_transaction is_refund txn s).1.transactions ≡ s.transactions
unfolding attribute_transaction
attribute-transactions is_refund txn s = elim (Option-cases (get_open_session txn.cashier_id s)) [
  | inl e ↦ rw (e, attribute_transaction) refl
  | inr (a, e) ↦ rw (e, attribute_transaction) refl
]

pub attribute-outbox :
    (is_refund : Bool) (txn : Txn) (s : Store)
    → (attribute_transaction is_refund txn s).1.outbox ≡ s.outbox
unfolding attribute_transaction
attribute-outbox is_refund txn s = elim (Option-cases (get_open_session txn.cashier_id s)) [
  | inl e ↦ rw (e, attribute_transaction) refl
  | inr (a, e) ↦ rw (e, attribute_transaction) refl
]

module _ (t : Txn) (s : Store) (fresh : get_txn t.id s ≡ none) where
  get-add : (k : Text) → get_txn k (add_txn t s) ≡ (if text_eq t.id k then some t else get_txn k s)
  get-add k = Table.find-insert txn_key k t s.transactions fresh

  -- A stored row is not the new one.
  pub still_found : (k : Text) (o : Txn) → get_txn k s ≡ some o → get_txn k (add_txn t s) ≡ some o
  still_found k o there = elim (Bool-cases (text_eq t.id k)) [
    | inl same ↦
        absurd (none≢some (sym fresh ∙ ap (λ j. get_txn j s) (text_eq→eq t.id k same) ∙ there))
    | inr other ↦ rw (get-add k, other) there
  ]
    where
      none≢some : none ≡ some o → ⊥
      none≢some h = cc

module _ (t : Txn) (s : Store) (fresh : get_txn t.id s ≡ none) (b : Books s) where
  add-parents :
      (t.txn_type ≡ refund → RefersToSale (add_txn t s) t)
      → (k : Text) (r : Txn) → get_txn k (add_txn t s) ≡ some r
      → r.txn_type ≡ refund
      → RefersToSale (add_txn t s) r
  add-parents own k r there is = elim (Bool-cases (text_eq t.id k)) [
    | inl same ↦
        let e : t ≡ r = some_inj (rw (get-add t s fresh k, same) at there) in
        subst (RefersToSale (add_txn t s)) e (own (ap (λ x. x.txn_type) e ∙ is))
    | inr other ↦
        let (p, o, up, at_p, o_sale) =
          b.parents k r (rw (get-add t s fresh k, other) at there) is in
        (p, o, up, still_found t s fresh p o at_p, o_sale)
  ]
    where
      some_inj : some t ≡ some r → t ≡ r
      some_inj h = cc

  add-enqueued :
      is_done t.status ≡ false
      → (k : Text) → Table.count (is_for k) s.outbox ≡ owed (get_txn k (add_txn t s))
  add-enqueued not_done k = b.enqueued k ∙ elim (Bool-cases (text_eq t.id k)) [
    | inl here ↦
        rw (get-add t s fresh k, here, not_done)
          (ap owed (subst (λ j. get_txn j s ≡ none) (text_eq→eq t.id k here) fresh))
    | inr other ↦ rw (get-add t s fresh k, other) refl
  ]

  add-Books :
      TxnOk t
      → is_done t.status ≡ false
      → (t.txn_type ≡ refund → RefersToSale (add_txn t s) t)
      → ((k : Text) → Table.count (blocks k) s.transactions + bit (blocks k t) ≤ 1)
      → Books (add_txn t s)
  add-Books ok not_done own room = record {
    keyed = Table.insert-IsKeyed txn_key t s.transactions fresh b.keyed;
    shaped = Table.All-insert TxnOk txn_key t s.transactions ok b.shaped;
    parents = add-parents own;
    one_refund = λ k. rw (Table.count-insert (blocks k) txn_key t s.transactions) (room k);
    enqueued = add-enqueued not_done;
  }

  Starts-Books : Starts t s → Books (add_txn t s)
  Starts-Books (starts_sale ty par st) =
      add-Books (rw (ty, par, st) refl) (rw st refl) (λ is. absurd (apart (sym ty ∙ is)))
        (λ k. rw (par) (ground (arith, b.one_refund k)))
    where
      apart : sale ≡ refund → ⊥
      apart h = cc
  Starts-Books (starts_refund p o ty par st at_p o_sale none_yet) =
      add-Books (rw (ty, par, st) refl) (rw st refl)
        (λ is. (p, o, par, still_found t s fresh p o at_p, o_sale)) (λ k. rw (par, st) (room k))
    where
      room : (k : Text) → Table.count (blocks k) s.transactions + bit (text_eq p k && true) ≤ 1
      room k = elim (Bool-cases (text_eq p k)) [
        | inl same ↦
            let zero_of : Table.count (blocks k) s.transactions ≡ 0 =
              subst (λ j. Table.count (blocks j) s.transactions ≡ 0) (text_eq→eq p k same)
                (Table.count-first-none (blocks p) s.transactions none_yet) in
            rw (same, zero_of) (omega arith)
        | inr other ↦ rw other (ground (arith, b.one_refund k))
      ]

-- An entry that moves on stays the entry of its transaction.
posts-Books :
    (e old : OutboxEntry) (s : Store)
    → Table.find entry_key e.id s.outbox ≡ some old
    → e.pos_transaction_id ≡ old.pos_transaction_id
    → Books s
    → Books (save_entry e s)
posts-Books e old s found same b = record {
  keyed = b.keyed;
  shaped = b.shaped;
  parents = b.parents;
  one_refund = b.one_refund;
  enqueued = λ k.
      let counted = Table.count-put (is_for k) entry_key e s.outbox old found in
      let bits : bit (is_for k e) ≡ bit (is_for k old) = ap (λ i. bit (text_eq i k)) same in
      let kept : Table.count (is_for k) (Table.put entry_key e s.outbox)
          ≡ Table.count (is_for k) s.outbox =
        omega (arith, counted, bits) in
      kept ∙ b.enqueued k;
}

-- Every write keeps the books.
pub Write-Books : {s s' : Store} → Write s s' → Books s → Books s'
Write-Books (logs c s) b = same-Books s _ refl refl b
Write-Books (tallies is_refund txn s) b =
    same-Books s _ (attribute-transactions is_refund txn s) (attribute-outbox is_refund txn s) b
Write-Books (changes t old s found c same) b = changes-Books t old s found c b same
Write-Books (finishes settings env t old s found c before after) b =
    finishes-Books t old s found c b settings env before after
Write-Books (posts e old s found same) b = posts-Books e old s found same b
Write-Books (adds t s fresh st) b = Starts-Books t s fresh b st

pub Writes-Books : {s s' : Store} → Writes s s' → Books s → Books s'
Writes-Books nothing b = b
Writes-Books (then_write w one) b = Write-Books one (Writes-Books w b)
