-- ===== src/Routes/Invariant.antt =====
-- What the endpoints keep, over any sequence of requests.
use hightower_pos.Prelude.{◌≡◌, none, some, true}
use hightower_pos.Prelude.Text.{Text}
use hightower_pos.Model.{Txn, Store, Settings, Env, Services, get_txn}
use hightower_pos.Checkout.Handlers.{charge_cash-Writes, charge_card-Writes, cancel_checkout-Writes}
use hightower_pos.Checkout.Started.{start_checkout-Writes, poll_card-Writes}
use hightower_pos.Refund.Handlers.{start_refund-Writes, charge_cash_refund-Writes}
use hightower_pos.Refund.Card.{charge_card_refund-Writes, cancel_refund-Writes, poll_refund-Writes}
use hightower_pos.Commits.{Writes, nothing}
use hightower_pos.Commits.Posts.{drain_once-Writes, retry_entry-Writes}
use hightower_pos.Reconcile.{retry_sentry, retry_failed_sales, retry_failed_refunds}
use hightower_pos.Reconcile.Runs.{retry_failed_sales-Writes, retry_failed_refunds-Writes}
use hightower_pos.Reconcile.Moves.{retry_sentry-Writes}
use hightower_pos.Outbox.{drain_once, retry_fabric_outbox_entry}
use hightower_pos.Till.OneOpen.{TillsOk}
use hightower_pos.Commits.Tills.{Writes-TillsOk}
use hightower_pos.Commits.Books.{Books}
use hightower_pos.Commits.Kept.{Writes-Books}
use hightower_pos.Commits.Sequence.{chain}
use hightower_pos.Commits.History.{Later, is_final, Writes-Evolves, final-stays}
use hightower_pos.Routes.{
  CheckoutCall, start_sale, pay_cash, pay_card, cancel_sale, poll_sale, serve_checkout, RefundCall,
  begin_refund, repay_cash, repay_card, stop_refund, poll_refund, serve_refund, Served, at_rest,
  then_checkout, then_refund, then_retry, then_drain, then_repost, then_retry_sales,
  then_retry_refunds,
}

module _ (settings : Settings) (services : Services) (env : Env) (s : Store) (b : Books s)
    (fresh : get_txn env.txn_id s ≡ none) where
  serve_checkout-Writes : (c : CheckoutCall) → Writes s (serve_checkout settings services env c s)
  unfolding serve_checkout
  serve_checkout-Writes (start_sale lines cashier_id customer) =
      start_checkout-Writes settings services env lines cashier_id customer s fresh
  serve_checkout-Writes (pay_cash txn_id amount) =
      charge_cash-Writes settings services env txn_id amount s
  serve_checkout-Writes (pay_card txn_id) = charge_card-Writes settings services env txn_id s
  serve_checkout-Writes (cancel_sale txn_id) = cancel_checkout-Writes s b services txn_id
  serve_checkout-Writes (poll_sale txn_id) = poll_card-Writes settings services env txn_id s b

  serve_refund-Writes : (c : RefundCall) → Writes s (serve_refund settings services env c s)
  unfolding serve_refund
  serve_refund-Writes (begin_refund id cashier_id) =
      start_refund-Writes settings env id cashier_id s fresh
  serve_refund-Writes (repay_cash id) = charge_cash_refund-Writes settings services env s b id
  serve_refund-Writes (repay_card id) = charge_card_refund-Writes settings services env s b id
  serve_refund-Writes (stop_refund id) = cancel_refund-Writes settings services env s b id
  serve_refund-Writes (poll_refund id) = poll_refund-Writes settings services env s b id

-- The requests served so far are one sequence of writes, which kept the books.
Served-Writes :
    (settings : Settings) (s s' : Store) → Served settings s s' → Books s → Writes s s' × Books s'
Served-Writes settings s s' at_rest b = (nothing, b)
Served-Writes settings s s' (then_checkout services env c u before fresh) b =
    let (w, b') = Served-Writes settings s u before b in
    let one : Writes u (serve_checkout settings services env c u) =
      serve_checkout-Writes settings services env u b' fresh c in
    (chain w one, Writes-Books one b')
Served-Writes settings s s' (then_refund services env c u before fresh) b =
    let (w, b') = Served-Writes settings s u before b in
    let one : Writes u (serve_refund settings services env c u) =
      serve_refund-Writes settings services env u b' fresh c in
    (chain w one, Writes-Books one b')
Served-Writes settings s s' (then_retry services now id u before) b =
    let (w, b') = Served-Writes settings s u before b in
    let one : Writes u (retry_sentry services now id u).1 =
      retry_sentry-Writes services now id u b' in
    (chain w one, Writes-Books one b')
Served-Writes settings s s' (then_drain write now batch_size u before keyed) b =
    let (w, b') = Served-Writes settings s u before b in
    let one : Writes u (drain_once write now batch_size u).1 =
      drain_once-Writes write now batch_size u keyed in
    (chain w one, Writes-Books one b')
Served-Writes settings s s' (then_repost now id u before) b =
    let (w, b') = Served-Writes settings s u before b in
    let one : Writes u (retry_fabric_outbox_entry now id u).1 = retry_entry-Writes now id u in
    (chain w one, Writes-Books one b')
Served-Writes settings s s' (then_retry_sales services now u before) b =
    let (w, b') = Served-Writes settings s u before b in
    let one : Writes u (retry_failed_sales services now u).1 =
      retry_failed_sales-Writes services now u b' in
    (chain w one, Writes-Books one b')
Served-Writes settings s s' (then_retry_refunds services now u before) b =
    let (w, b') = Served-Writes settings s u before b in
    let one : Writes u (retry_failed_refunds services now u).1 =
      retry_failed_refunds-Writes services now u b' in
    (chain w one, Writes-Books one b')

-- Sales, refunds, retries at Sentry and drains of the outbox keep `Books`, whatever Sentry, Windcave and
-- Fabric answer and whichever branch each takes: ids stay distinct, every refund refers to a stored
-- sale, a sale has at most one refund in a blocking state, and the outbox holds exactly one entry for
-- each transaction that is complete or waits for a retry at Sentry, and no other entry. The uuid of each
-- request must be unused when it is served, and the entries' ids distinct when a drain starts.
pub Served-Books : (settings : Settings) (s s' : Store) → Served settings s s' → Books s → Books s'
Served-Books settings s s' served b = (Served-Writes settings s s' served b).1

-- A transaction that is stored stays stored, with its type, parent, total and cashier, and its status
-- only moves along the steps of its type, over any sequence of sales, refunds, retries and drains, from
-- a store whose books are kept. The uuids are unused and the entries' ids distinct, as for `Served-Books`.
pub Served-Evolves :
    (settings : Settings) (s s' : Store)
    → Served settings s s'
    → Books s
    → (k : Text) (t : Txn) → get_txn k s ≡ some t
    → (t' : Txn) × (get_txn k s' ≡ some t') × Later t t'
Served-Evolves settings s s' served b = Writes-Evolves (Served-Writes settings s s' served b).0

-- A transaction in a final status (complete, cancelled, refused by validation or by the payment) keeps
-- that status over any sequence of sales, refunds, retries and drains, from a store whose books are
-- kept. The uuids are unused and the entries' ids distinct, as for `Served-Books`.
pub Served-final :
    (settings : Settings) (s s' : Store)
    → Served settings s s'
    → Books s
    → (k : Text) (t : Txn) → get_txn k s ≡ some t
    → is_final t.status ≡ true
    → (t' : Txn) × (get_txn k s' ≡ some t') × (t'.status ≡ t.status)
Served-final settings s s' served b k t there final =
    let (t', at', later) = Served-Evolves settings s s' served b k t there in
    (t', at', final-stays t.txn_type t.status t'.status final later.leads)

-- Sales, refunds, retries and drains keep the till sessions' ids distinct and at most one open session
-- for each cashier, from a store whose books are kept. The uuids are unused and the entries' ids
-- distinct, as for `Served-Books`.
pub Served-TillsOk :
    (settings : Settings) (s s' : Store)
    → Served settings s s'
    → Books s
    → TillsOk s.till_sessions
    → TillsOk s'.till_sessions
Served-TillsOk settings s s' served b = Writes-TillsOk (Served-Writes settings s s' served b).0
