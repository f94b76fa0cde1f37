-- ===== src/Commits/Books.antt =====
-- The invariant of the transaction table and the outbox, and the writes of a saved row against it.
use hightower_pos.Prelude.{
  ℕ, ◌+◌, ◌≤◌, ◌≡◌, inl, inr, Bool, true, false, Option, none, some, List, arith, All, Bool-cases,
  if◌then◌else◌, ap, sym, ◌∙◌, subst,
}
use hightower_pos.Prelude.Text.{Text, text_eq, text_eq→eq}
use hightower_pos.Table
use hightower_pos.Table.{bit}
use hightower_pos.Model.{
  Txn, sale, refund, OutboxEntry, Store, Settings, Env, txn_key, entry_key, get_txn, save_txn,
}
use hightower_pos.Outbox.{enqueue, new_entry}
use hightower_pos.Refund.Start.{blocks}
use hightower_pos.Commits.{is_done, Changes}
use hightower_pos.Commits.Lifecycle.{TxnOk, Changes-TxnOk, Changes-blocks}

abbrev pub is_for : Text → OutboxEntry → Bool
is_for k e = text_eq e.pos_transaction_id k

-- One entry for a stored transaction in a final state that the outbox takes, and none else.
abbrev pub owed : Option Txn → ℕ
owed none = 0
owed (some t) = bit (is_done t.status)

-- The sale that a refund row refers to.
abbrev pub RefersToSale : Store → Txn → Type 0
RefersToSale s t =
    (p : Text) × (o : Txn) × (t.parent_transaction_id ≡ some p)
    × (get_txn p s ≡ some o)
    × (o.txn_type ≡ sale)

-- Distinct ids; rows that fit their type; refunds refer to stored sales; at most one refund of a sale
-- is in a blocking state; the outbox holds one entry for each transaction that is done and no other.
pub record Books (s : Store) : Type 0 where
  pub keyed : Table.IsKeyed txn_key s.transactions
  pub shaped : All TxnOk s.transactions
  pub parents : (k : Text) (t : Txn) → get_txn k s ≡ some t → t.txn_type ≡ refund → RefersToSale s t
  pub one_refund : (k : Text) → Table.count (blocks k) s.transactions ≤ 1
  pub enqueued : (k : Text) → Table.count (is_for k) s.outbox ≡ owed (get_txn k s)

-- A write that leaves the transactions and the outbox alone.
pub same-Books :
    (s s' : Store) → s'.transactions ≡ s.transactions → s'.outbox ≡ s.outbox → Books s → Books s'
same-Books s s' t o b = record {
  keyed = subst (Table.IsKeyed txn_key) (sym t) b.keyed;
  shaped = subst (All TxnOk) (sym t) b.shaped;
  parents =
      subst
        (λ rows.
          (k : Text) (r : Txn)
          → Table.find txn_key k rows ≡ some r
          → r.txn_type ≡ refund
          → (p : Text) × (q : Txn) × (r.parent_transaction_id ≡ some p)
            × (Table.find txn_key p rows ≡ some q)
            × (q.txn_type ≡ sale))
        (sym t) b.parents;
  one_refund = subst (λ rows. (k : Text) → Table.count (blocks k) rows ≤ 1) (sym t) b.one_refund;
  enqueued = λ k.
      ap (Table.count (is_for k)) o
      ∙ b.enqueued k
      ∙ ap (λ rows. owed (Table.find txn_key k rows)) (sym t);
}

-- A stored row after a save: the new one under its id, the old ones elsewhere.
pub get-save :
    (k : Text) (t old : Txn) (s : Store)
    → get_txn t.id s ≡ some old
    → get_txn k (save_txn t s) ≡ (if text_eq t.id k then some t else get_txn k s)
get-save k t old s found = Table.find-put txn_key k t s.transactions old found

module _ (t old : Txn) (s : Store) (found : get_txn t.id s ≡ some old) (c : Changes old t)
    (b : Books s) where
  old-TxnOk : TxnOk old
  old-TxnOk = Table.All-find TxnOk txn_key t.id s.transactions old b.shaped found

  -- A sale stays found under its id, as a sale.
  sale-stays :
      (p : Text) (o : Txn)
      → get_txn p s ≡ some o
      → o.txn_type ≡ sale
      → (o' : Txn) × (get_txn p (save_txn t s) ≡ some o') × (o'.txn_type ≡ sale)
  sale-stays p o there is = elim (Bool-cases (text_eq t.id p)) [
    | inl same ↦
        let one : some old ≡ some o =
          sym found ∙ ap (λ k. get_txn k s) (text_eq→eq t.id p same) ∙ there in
        (t, rw (get-save p t old s found, same), c.same_type ∙ type_of one ∙ is)
    | inr other ↦ (o, rw (get-save p t old s found, other) there, is)
  ]
    where
      type_of : some old ≡ some o → old.txn_type ≡ o.txn_type
      type_of e = ground (arith, e)

  save-parents :
      (k : Text) (r : Txn)
      → get_txn k (save_txn t s) ≡ some r
      → r.txn_type ≡ refund
      → RefersToSale (save_txn t s) r
  save-parents k r there is = elim (Bool-cases (text_eq t.id k)) [
    | inl same ↦
        let e : t ≡ r = some_inj (rw (get-save k t old s found, same) at there) in
        let (p, o, up, at_p, o_sale) =
          b.parents t.id old found (sym c.same_type ∙ ap (λ x. x.txn_type) e ∙ is) in
        let (o', at_p', o'_sale) = sale-stays p o at_p o_sale in
        (p, o', ap (λ x. x.parent_transaction_id) (sym e) ∙ c.same_parent ∙ up, at_p', o'_sale)
    | inr other ↦
        let (p, o, up, at_p, o_sale) =
          b.parents k r (rw (get-save k t old s found, other) at there) is in
        let (o', at_p', o'_sale) = sale-stays p o at_p o_sale in (p, o', up, at_p', o'_sale)
  ]
    where
      some_inj : {a : Txn} → some a ≡ some r → a ≡ r
      some_inj h = cc

  save-one_refund : (k : Text) → Table.count (blocks k) (save_txn t s).transactions ≤ 1
  save-one_refund k = ground (
    arith,
    b.one_refund k,
    Table.count-put (blocks k) txn_key t s.transactions old found,
    Changes-blocks old t k c old-TxnOk,
  )

  -- The outbox `es` has the entries that the new version of the row asks for.
  save-Books :
      (es : List OutboxEntry)
      → ((k : Text) → Table.count (is_for k) es ≡ owed (get_txn k (save_txn t s)))
      → Books (record (save_txn t s) { outbox = es })
  save-Books es enq = record {
    keyed = Table.put-IsKeyed txn_key t s.transactions b.keyed;
    shaped =
        Table.All-put TxnOk txn_key t s.transactions (Changes-TxnOk old t c old-TxnOk) b.shaped;
    parents = save-parents;
    one_refund = save-one_refund;
    enqueued = enq;
  }

  -- A row that does not change sides keeps its entries.
  pub changes-Books : is_done t.status ≡ is_done old.status → Books (save_txn t s)
  changes-Books same = save-Books s.outbox λ k. elim (Bool-cases (text_eq t.id k)) [
    | inl here ↦
        let e : t.id ≡ k = text_eq→eq t.id k here in
        rw (get-save k t old s found, here, same)
          (b.enqueued k ∙ ap owed (subst (λ j. get_txn j s ≡ some old) e found))
    | inr other ↦ rw (get-save k t old s found, other) (b.enqueued k)
  ]

  -- A row that is done from here on gets its entry.
  pub finishes-Books :
      (settings : Settings) (env : Env)
      → is_done old.status ≡ false
      → is_done t.status ≡ true
      → Books (save_txn t (enqueue settings env t s))
  unfolding enqueue new_entry
  finishes-Books settings env before after =
      save-Books (Table.insert entry_key (new_entry settings env t) s.outbox) λ k.
        Table.count-insert (is_for k) entry_key (new_entry settings env t) s.outbox
        ∙ elim (Bool-cases (text_eq t.id k)) [
          | inl here ↦
              let e : t.id ≡ k = text_eq→eq t.id k here in
              let none_yet : Table.count (is_for k) s.outbox ≡ 0 =
                b.enqueued k
                ∙ ap owed (subst (λ j. get_txn j s ≡ some old) e found)
                ∙ ap bit before in
              rw (get-save k t old s found, here, after) (ap (λ n. n + 1) none_yet)
          | inr other ↦ rw (get-save k t old s found, other) (ground (arith, b.enqueued k))
        ]
