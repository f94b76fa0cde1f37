-- ===== src/Refund/Drift.antt =====
-- How a cash refund moves the till: `pos_service/services/refund.py` stores a refund with negative
-- amounts, and `attribute_transaction` of `pos_service/services/till.py` adds the stored total to the cash refunds.
use hightower_pos.Table
use hightower_pos.Prelude.{sym, subst, ◌≡◌, refl, true, false, some, ap, ◌∙◌}
use hightower_pos.Prelude.Int.{ℤ, neg, ◌+ℤ◌, int_laws}
use hightower_pos.Prelude.Text.{Text}
use hightower_pos.Model.{Txn, TillSession, Store, Env, Settings, cash, complete, returned}
use hightower_pos.Till.{
  get_open_session, expected_closing, attribute_transaction, tally, is_open_for,
}
use hightower_pos.Till.OneOpen.{TillsOk, attribute_transaction-TillsOk}
use hightower_pos.Till.Tallies.{cash_in, tally-expected, attribute_transaction-found}
use hightower_pos.Outbox.{enqueue}
use hightower_pos.Checkout.Payment.{settle_sale}
use hightower_pos.Refund.Start.{new_refund}
use hightower_pos.Refund.Payment.{settle_refund}

-- A row that the flow has made of a new refund: what the till reads of it is what it started with.
pub record Pays (r started : Txn) : Type 0 where
  pub total : r.total_cents ≡ started.total_cents
  pub method : r.payment_method ≡ started.payment_method
  pub cashier : r.cashier_id ≡ started.cashier_id

sale_in : (t : Txn) → t.payment_method ≡ some cash → cash_in (false, t) ≡ t.total_cents
unfolding cash_in
sale_in t by_cash = rw (by_cash, cash_in) refl

refund_in :
    (r : Txn) (total : ℤ)
    → r.payment_method ≡ some cash
    → r.total_cents ≡ neg total
    → cash_in (true, r) ≡ total
unfolding cash_in
refund_in r total by_cash negative = rw (by_cash, cash_in, negative) (grind int_laws)

module _ (settings : Settings) (env : Env) (t : Txn) (so_id : Text) where
  abbrev done : Txn
  done = record t { status = complete; sentry_so_id = some so_id }

  -- What a settled sale and a settled refund do to the tills is their attribution.
  sale_tills :
      (s : Store)
      → (settle_sale settings env t (returned so_id) s).1.till_sessions
        ≡ (attribute_transaction false done s).1.till_sessions
  unfolding settle_sale enqueue
  sale_tills s = refl

  refund_tills :
      (original : Txn) (s : Store)
      → (settle_refund settings env t original (returned so_id) s).1.till_sessions
        ≡ (attribute_transaction true done s).1.till_sessions
  unfolding settle_refund enqueue
  refund_tills original s = refl

same_session :
    (c : Text) (s u : Store)
    → s.till_sessions ≡ u.till_sessions
    → get_open_session c s ≡ get_open_session c u
unfolding get_open_session
same_session c s u e = ap (λ rows. Table.first (is_open_for c) rows) e

-- A cash sale and then its cash refund, both taken by Sentry and by one cashier with an open session,
-- leave the expected closing amount of that session higher by twice the sale's total. The refund row `r`
-- has the total, the method and the cashier that the flow gives to a refund of the sale.
pub refund-drift :
    (settings : Settings) (env env' : Env) (sold r original : Txn) (so_id refund_so_id : Text)
    (s : Store) (t : TillSession)
    → TillsOk s.till_sessions
    → get_open_session sold.cashier_id s ≡ some t
    → sold.payment_method ≡ some cash
    → Pays r (new_refund env' sold.cashier_id sold)
    → let after_sale = (settle_sale settings env sold (returned so_id) s).1 in
      let after_refund =
        (settle_refund settings env' r original (returned refund_so_id) after_sale).1 in
      (u : TillSession) × (get_open_session sold.cashier_id after_refund ≡ some u)
      × (expected_closing u ≡ expected_closing t +ℤ (sold.total_cents +ℤ sold.total_cents))
unfolding new_refund
refund-drift settings env env' sold r original so_id refund_so_id s t ok at_till by_cash pays =
    let sale = done settings env sold so_id in
    let repaid = done settings env' r refund_so_id in
    let s₁ = (settle_sale settings env sold (returned so_id) s).1 in
    let s₂ = (settle_refund settings env' r original (returned refund_so_id) s₁).1 in
    let tills₁ = sale_tills settings env sold so_id s in
    let at_sale : get_open_session sold.cashier_id s₁ ≡ some (tally false sale t) =
      same_session sold.cashier_id s₁ (attribute_transaction false sale s).1 tills₁
      ∙ attribute_transaction-found false sale s t ok at_till in
    let ok₁ : TillsOk s₁.till_sessions =
      subst TillsOk (sym tills₁) (attribute_transaction-TillsOk false sale s ok) in
    let u = tally true repaid (tally false sale t) in
    let at_refund : get_open_session r.cashier_id s₂ ≡ some u =
      same_session r.cashier_id s₂ (attribute_transaction true repaid s₁).1
        (refund_tills settings env' r refund_so_id original s₁)
      ∙ attribute_transaction-found true repaid s₁ (tally false sale t) ok₁
          (ap (λ c. get_open_session c s₁) pays.cashier ∙ at_sale) in
    (
      u,
      sym (ap (λ c. get_open_session c s₂) pays.cashier) ∙ at_refund,
      summed (expected_closing t) sold.total_cents (tally-expected true repaid (tally false sale t))
          (tally-expected false sale t)
          (refund_in repaid sold.total_cents (pays.method ∙ by_cash) pays.total)
          (sale_in sale by_cash),
    )
  where
    summed :
        {a b x y : ℤ} (e total : ℤ)
        → a ≡ b +ℤ x
        → b ≡ e +ℤ y
        → x ≡ total
        → y ≡ total
        → a ≡ e +ℤ (total +ℤ total)
    summed e total ha hb hx hy = rw (ha, hb, hx, hy) (grind int_laws)
