-- ===== src/Commits/Sequence.antt =====
-- Building the sequence of writes of a handler: what attribution and a finished payment write.
use hightower_pos.Prelude.{◌≡◌, refl, inl, inr, Bool, true, false, some, Option-cases, ap, ◌∙◌}
use hightower_pos.Table
use hightower_pos.Model.{Txn, Store, Settings, Env, txn_key, get_txn, save_txn}
use hightower_pos.Till.{attribute_transaction, get_open_session}
use hightower_pos.Outbox.{enqueue}
use hightower_pos.Commits.{
  is_done, may_follow, Changes, tallies, finishes, Writes, nothing, then_write,
}
use hightower_pos.Commits.Kept.{attribute-transactions}

pub chain : {s u v : Store} → Writes s u → Writes u v → Writes s v
chain w nothing = w
chain w (then_write w' one) = then_write (chain w w') one

-- The columns that no handler changes.
abbrev pub Same : Txn → Txn → Type 0
Same t old =
    (t.id ≡ old.id)
    × (t.txn_type ≡ old.txn_type)
    × (t.parent_transaction_id ≡ old.parent_transaction_id)
    × (t.total_cents ≡ old.total_cents)
    × (t.cashier_id ≡ old.cashier_id)

pub Same-columns : (txn : Txn) → Same txn txn
Same-columns txn = (refl, refl, refl, refl, refl)

pub steps :
    (old t : Txn) → Same t old → may_follow old.txn_type old.status t.status ≡ true → Changes old t
steps old t (i, ty, p, tot, c) f = record {
  same_id = i;
  same_type = ty;
  same_parent = p;
  same_total = tot;
  same_cashier = c;
  follows = inr f;
}

pub stays : (old t : Txn) → Same t old → t.status ≡ old.status → Changes old t
stays old t (i, ty, p, tot, c) f = record {
  same_id = i;
  same_type = ty;
  same_parent = p;
  same_total = tot;
  same_cashier = c;
  follows = inl f;
}

module _ (is_refund : Bool) (txn : Txn) (s : Store) where
  pub attribute-Same : Same (attribute_transaction is_refund txn s).0 txn
  unfolding attribute_transaction
  attribute-Same = elim (Option-cases (get_open_session txn.cashier_id s)) [
    | inl e ↦ rw (e, attribute_transaction) (refl, refl, refl, refl, refl)
    | inr (a, e) ↦ rw (e, attribute_transaction) (refl, refl, refl, refl, refl)
  ]

  pub attribute-status : (attribute_transaction is_refund txn s).0.status ≡ txn.status
  unfolding attribute_transaction
  attribute-status = elim (Option-cases (get_open_session txn.cashier_id s)) [
    | inl e ↦ rw (e, attribute_transaction) refl
    | inr (a, e) ↦ rw (e, attribute_transaction) refl
  ]

pub Same-trans : (a b c : Txn) → Same a b → Same b c → Same a c
Same-trans a b c (i, ty, p, tot, ca) (i', ty', p', tot', ca') =
    (i ∙ i', ty ∙ ty', p ∙ p', tot ∙ tot', ca ∙ ca')

-- A transaction that is done is attributed to the till, entered in the outbox and saved.
pub attributed-Writes :
    (is_refund : Bool) (settings : Settings) (env : Env) (old txn : Txn) (s : Store)
    → get_txn txn.id s ≡ some old
    → Same txn old
    → may_follow old.txn_type old.status txn.status ≡ true
    → is_done old.status ≡ false
    → is_done txn.status ≡ true
    → Writes s (
        save_txn (attribute_transaction is_refund txn s).0 (
          enqueue settings env
            (attribute_transaction is_refund txn s).0
            (attribute_transaction is_refund txn s).1))
attributed-Writes is_refund settings env old txn s found same f before after =
    let t : Txn = (attribute_transaction is_refund txn s).0 in
    let s' : Store = (attribute_transaction is_refund txn s).1 in
    let e : t.status ≡ txn.status = attribute-status is_refund txn s in
    let same' : Same t txn = attribute-Same is_refund txn s in
    let found' : get_txn t.id s' ≡ some old =
      ap (λ k. get_txn k s') same'.0
      ∙ ap (λ rows. Table.find txn_key txn.id rows) (attribute-transactions is_refund txn s)
      ∙ found in
    then_write (then_write nothing (tallies is_refund txn s)) (
      finishes settings env t old s' found'
        (steps old t (Same-trans t txn old same' same)
          (ap (may_follow old.txn_type old.status) e ∙ f))
        before (ap is_done e ∙ after))

-- The row that was just saved is found.
pub just_saved :
    (t old : Txn) (s : Store) → get_txn t.id s ≡ some old → get_txn t.id (save_txn t s) ≡ some t
just_saved t old s found = Table.find-put_self txn_key t s.transactions old found
