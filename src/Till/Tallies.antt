-- ===== src/Till/Tallies.antt =====
-- The running tallies of an open session over a run of finished transactions.
use hightower_pos.Prelude.{
  ℕ, ◌+◌, ◌≡◌, refl, Bool, true, false, some, List, [], ◌∷◌, arith, length, All, if◌then◌else◌, ap,
  sym, ◌∙◌, subst,
}
use hightower_pos.Prelude.Int.{ℤ, pos, neg, ◌+ℤ◌, int_laws, +ℤ-zero, +ℤ_assoc}
use hightower_pos.Prelude.Text.{Text}
use hightower_pos.Table
use hightower_pos.Model.{Txn, TillSession, Store, is_cash, till_key}
use hightower_pos.Till.{
  is_open_for, get_open_session, attribute_transaction, tally, expected_closing,
}
use hightower_pos.Till.OneOpen.{
  TillsOk, open-holds, attribute_transaction-TillsOk, tally-id, tally-cashier, tally-status,
}

-- A finished transaction, with the flag that its service passes.
abbrev pub Finished : Type 0
Finished = Bool × Txn

-- The finished transactions in order; the stamps on the transactions are the caller's to save.
unfoldable pub attribute_all : List Finished → Store → Store
attribute_all [] s = s
attribute_all ((is_refund, txn) ∷ rest) s =
    attribute_all rest (attribute_transaction is_refund txn s).1

-- The cash that a finished transaction brings into the drawer, by its stored total.
unfoldable pub cash_in : Finished → ℤ
cash_in (is_refund, txn) =
    if is_cash txn.payment_method
    then (if is_refund then neg txn.total_cents else txn.total_cents)
    else pos 0

unfoldable pub net_cash : List Finished → ℤ
unfolding cash_in
net_cash [] = pos 0
net_cash (f ∷ rest) = cash_in f +ℤ net_cash rest

unfoldable pub cash_count : List Finished → ℕ
cash_count [] = 0
cash_count ((is_refund, txn) ∷ rest) =
    (if is_cash txn.payment_method then 1 else 0) + cash_count rest

pub tally-expected :
    (is_refund : Bool) (txn : Txn) (t : TillSession)
    → expected_closing (tally is_refund txn t) ≡ expected_closing t +ℤ cash_in (is_refund, txn)
unfolding tally cash_in
tally-expected true txn t = grind int_laws
tally-expected false txn t = grind int_laws

-- After one attribution the session found for the cashier is the tallied one.
pub attribute_transaction-found :
    (is_refund : Bool) (txn : Txn) (s : Store) (t : TillSession)
    → TillsOk s.till_sessions
    → get_open_session txn.cashier_id s ≡ some t
    → get_open_session txn.cashier_id (attribute_transaction is_refund txn s).1
      ≡ some (tally is_refund txn t)
unfolding attribute_transaction
attribute_transaction-found is_refund txn s t ok e =
    let holds = open-holds txn.cashier_id s t e in
    rw (e, attribute_transaction)
      (Table.first-put till_key (is_open_for txn.cashier_id) (tally is_refund txn t) s.till_sessions
        t ok.keyed e (tally-id is_refund txn t)
        (rw (tally-cashier is_refund txn t, tally-status is_refund txn t) holds))

-- What a run of finished transactions has done to a session.
pub record IsTallied (run : List Finished) (before after : TillSession) : Type 0 where
  pub expected : expected_closing after ≡ expected_closing before +ℤ net_cash run
  pub transactions : after.transaction_count ≡ before.transaction_count + length run
  pub cash_transactions :
      after.cash_transaction_count ≡ before.cash_transaction_count + cash_count run
  pub same_id : after.id ≡ before.id

tally-IsTallied : (f : Finished) (t : TillSession) → IsTallied (f ∷ []) t (tally f.0 f.1 t)
unfolding tally net_cash cash_count
tally-IsTallied (is_refund, txn) t = record {
  expected =
      tally-expected is_refund txn t
      ∙ ap (λ x. expected_closing t +ℤ x) (sym (+ℤ-zero (cash_in (is_refund, txn))));
  transactions = ground arith;
  cash_transactions = ground arith;
  same_id = tally-id is_refund txn t;
}

IsTallied-cons :
    (f : Finished) (run : List Finished) (t u v : TillSession)
    → IsTallied (f ∷ []) t u
    → IsTallied run u v
    → IsTallied (f ∷ run) t v
unfolding net_cash cash_count
IsTallied-cons f run t u v one more = record {
  expected =
      more.expected
      ∙ ap (λ x. x +ℤ net_cash run) one.expected
      ∙ +ℤ_assoc (expected_closing t) (cash_in f +ℤ pos 0) (net_cash run)
      ∙ ap (λ x. expected_closing t +ℤ (x +ℤ net_cash run)) (+ℤ-zero (cash_in f));
  transactions = omega arith;
  cash_transactions = omega arith;
  same_id = more.same_id ∙ one.same_id;
}

-- Over any run of finished transactions of a cashier with an open session, the cashier keeps that
-- session; its expected closing amount moves by the cash sales' totals less the cash refunds' stored
-- totals, and its counters by the transactions and the cash transactions of the run.
pub attribute_all-IsTallied :
    (run : List Finished) (c : Text) (s : Store) (t : TillSession)
    → TillsOk s.till_sessions
    → All (λ f. f.1.cashier_id ≡ c) run
    → get_open_session c s ≡ some t
    → (u : TillSession) × (get_open_session c (attribute_all run s) ≡ some u) × IsTallied run t u
unfolding attribute_all net_cash cash_count
attribute_all-IsTallied [] c s t ok own e = (
  t,
  e,
  record {
    expected = sym (+ℤ-zero (expected_closing t));
    transactions = omega arith;
    cash_transactions = omega arith;
    same_id = refl;
  },
)
attribute_all-IsTallied ((is_refund, txn) ∷ run) c s t ok own e =
    let s' = (attribute_transaction is_refund txn s).1 in
    let t' = tally is_refund txn t in
    let at_once : get_open_session txn.cashier_id s' ≡ some t' =
      attribute_transaction-found is_refund txn s t ok
        (subst (λ x. get_open_session x s ≡ some t) (sym own.0) e) in
    let (u, found, rest) =
      attribute_all-IsTallied run c s' t' (attribute_transaction-TillsOk is_refund txn s ok) own.1
        (subst (λ x. get_open_session x s' ≡ some t') own.0 at_once) in
    (u, found, IsTallied-cons (is_refund, txn) run t t' u (tally-IsTallied (is_refund, txn) t) rest)
