-- ===== src/Routes.antt =====
-- The endpoints that move transactions: `pos_service/routes/checkout.py` and
-- `pos_service/routes/refunds.py`, with the background tasks that two of them start. Each request
-- brings its own clock and fresh uuids (`Env`) and the answers of the outside (`Services`).
pub mod Invariant
pub mod Reported
mod Tests
use hightower_pos.Prelude.{ℕ, ◌≡◌, Option, none, List, [], ◌∷◌}
use hightower_pos.Prelude.Int.{ℤ}
use hightower_pos.Prelude.Text.{Text}
use hightower_pos.Table
use hightower_pos.Outbox.{drain_once, retry_fabric_outbox_entry}
use hightower_pos.Reconcile.{retry_sentry, retry_failed_sales, retry_failed_refunds}
use hightower_pos.Model.{entry_key, Payload, Reply, Store, Settings, Env, Services, get_txn}
use hightower_pos.Checkout.Pricing.{LineIn, Customer, start_checkout}
use hightower_pos.Checkout.Payment.{charge_cash, charge_card, cancel_checkout}
use hightower_pos.Checkout.Poll.{poll_card_until_complete}
use hightower_pos.Refund.Start.{start_refund}
use hightower_pos.Refund.Payment.{charge_cash_refund, charge_card_refund}
use hightower_pos.Refund.Poll.{cancel_refund, poll_refund_until_complete}

pub data CheckoutCall : Type 0 where
  start_sale : (lines : List LineIn) (cashier_id : Text) (customer : Option Customer) → CheckoutCall
  pay_cash : (txn_id : Text) (amount_tendered_cents : ℤ) → CheckoutCall
  pay_card cancel_sale poll_sale : (txn_id : Text) → CheckoutCall

unfoldable pub serve_checkout : Settings → Services → Env → CheckoutCall → Store → Store
unfolding start_checkout charge_cash charge_card cancel_checkout poll_card_until_complete
serve_checkout settings services env (start_sale lines cashier_id customer) s =
    (start_checkout settings services env lines cashier_id customer s).1
serve_checkout settings services env (pay_cash txn_id amount_tendered_cents) s =
    (charge_cash settings services env txn_id amount_tendered_cents s).1
serve_checkout settings services env (pay_card txn_id) s =
    (charge_card settings services env txn_id s).1
serve_checkout settings services env (cancel_sale txn_id) s = (cancel_checkout services txn_id s).1
serve_checkout settings services env (poll_sale txn_id) s =
    poll_card_until_complete settings services env txn_id s

pub data RefundCall : Type 0 where
  begin_refund : (original_transaction_id cashier_id : Text) → RefundCall
  repay_cash repay_card stop_refund poll_refund : (refund_txn_id : Text) → RefundCall

unfoldable pub serve_refund : Settings → Services → Env → RefundCall → Store → Store
unfolding start_refund charge_cash_refund charge_card_refund cancel_refund
    poll_refund_until_complete
serve_refund settings services env (begin_refund original_transaction_id cashier_id) s =
    (start_refund settings env original_transaction_id cashier_id s).1
serve_refund settings services env (repay_cash refund_txn_id) s =
    (charge_cash_refund settings services env refund_txn_id s).1
serve_refund settings services env (repay_card refund_txn_id) s =
    (charge_card_refund settings services env refund_txn_id s).1
serve_refund settings services env (stop_refund refund_txn_id) s = (cancel_refund refund_txn_id s).1
serve_refund settings services env (poll_refund refund_txn_id) s =
    poll_refund_until_complete settings services env refund_txn_id s

-- One request after another, and drains of the outbox between them. The uuid of each request is unused
-- when it is served, and the entries' ids are distinct when a drain starts, as the primary keys say.
pub data Served (settings : Settings) (s : Store) : Store → Type 0 where
  at_rest : Served settings s s
  then_checkout :
      (services : Services) (env : Env) (c : CheckoutCall) (u : Store)
      → Served settings s u
      → get_txn env.txn_id u ≡ none
      → Served settings s (serve_checkout settings services env c u)
  then_refund :
      (services : Services) (env : Env) (c : RefundCall) (u : Store)
      → Served settings s u
      → get_txn env.txn_id u ≡ none
      → Served settings s (serve_refund settings services env c u)
  then_retry :
      (services : Services) (now : ℕ) (transaction_id : Text) (u : Store)
      → Served settings s u
      → Served settings s (retry_sentry services now transaction_id u).1
  then_drain :
      (write : Payload → Reply (Option Text)) (now batch_size : ℕ) (u : Store)
      → Served settings s u
      → Table.IsKeyed entry_key u.outbox
      → Served settings s (drain_once write now batch_size u).1
  then_repost :
      (now : ℕ) (entry_id : Text) (u : Store)
      → Served settings s u
      → Served settings s (retry_fabric_outbox_entry now entry_id u).1
  then_retry_sales :
      (services : Services) (now : ℕ) (u : Store)
      → Served settings s u
      → Served settings s (retry_failed_sales services now u).1
  then_retry_refunds :
      (services : Services) (now : ℕ) (u : Store)
      → Served settings s u
      → Served settings s (retry_failed_refunds services now u).1
