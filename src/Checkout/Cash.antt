-- ===== src/Checkout/Cash.antt =====
-- `charge_cash` of `pos_service/services/checkout.py` on every branch.
use hightower_pos.Prelude.{
  ◌≡◌, refl, inl, inr, Bool, true, false, some, [], ◌∷◌, Option-cases, ap, sym, ◌∙◌, subst,
}
use hightower_pos.Prelude.Int.{ℤ, ltb_ℤ, ◌-ℤ◌}
use hightower_pos.Prelude.Text.{Text}
use hightower_pos.Table
use hightower_pos.Model.{
  Txn, Status, sale, cash, Store, Settings, Env, Services, Reply, returned, failed, crashed, Result,
  ok, err, get_txn, save_txn, call, awaiting_payment, payment_success, complete,
  inventory_update_failed, create_pos_so, txn_key, ◌>>=◌, insufficient_tender, unhandled_exception,
}
use hightower_pos.Till.{attribute_transaction, get_open_session}
use hightower_pos.Outbox.{enqueue}
use hightower_pos.Checkout.Payment.{
  build_checkout_request, settle_sale, send_to_sentry, paid_cash, cash_tender, charge_cash,
  load_for_payment,
}
use hightower_pos.Commits.Kept.{attribute-transactions}
use hightower_pos.Commits.Sequence.{just_saved, attribute-Same, attribute-status}

-- The row after a cash payment: stored as it was returned, in cash, with the change written down.
pub record IsPaid (status : Status) (amount : ℤ) (before t : Txn) (s : Store) : Type 0 where
  pub stored : get_txn before.id s ≡ some t
  pub has_status : t.status ≡ status
  pub in_cash : t.payment_method ≡ some cash
  pub change :
      t.tenders ≡ some (cash_tender before.total_cents amount (amount -ℤ before.total_cents) ∷ [])

-- What a sufficient payment comes to, by the answer of Sentry.
abbrev pub AfterCash : ℤ → Txn → Store → Reply Text → Result Txn × Store → Type 0
AfterCash amount before s (returned so_id) (out, s') =
    (t : Txn) × (out ≡ ok t) × IsPaid complete amount before t s' × (t.sentry_so_id ≡ some so_id)
AfterCash amount before s (failed e) (out, s') =
    (t : Txn) × (out ≡ ok t)
    × IsPaid inventory_update_failed amount before t s'
    × (s'.till_sessions ≡ s.till_sessions)
AfterCash amount before s crashed (out, s') =
    (out ≡ err unhandled_exception 500)
    × IsPaid payment_success amount before (paid_cash amount before) s'
    × (s'.outbox ≡ s.outbox)

module _ (is_refund : Bool) (txn : Txn) (s : Store) where
  attribute-payment :
      ((attribute_transaction is_refund txn s).0.payment_method ≡ txn.payment_method)
      × ((attribute_transaction is_refund txn s).0.tenders ≡ txn.tenders)
      × ((attribute_transaction is_refund txn s).0.sentry_so_id ≡ txn.sentry_so_id)
  unfolding attribute_transaction
  attribute-payment = elim (Option-cases (get_open_session txn.cashier_id s)) [
    | inl e ↦ rw (e, attribute_transaction) (refl, refl, refl)
    | inr (a, e) ↦ rw (e, attribute_transaction) (refl, refl, refl)
  ]

module _ (settings : Settings) (services : Services) (env : Env) (amount : ℤ) (txn : Txn)
    (s : Store) (found : get_txn txn.id s ≡ some txn) where
  settled :
      (reply : Reply Text) (u : Store)
      → get_txn txn.id u ≡ some (paid_cash amount txn)
      → u.till_sessions ≡ s.till_sessions
      → u.outbox ≡ s.outbox
      → AfterCash amount txn s reply (settle_sale settings env (paid_cash amount txn) reply u)
  unfolding settle_sale paid_cash enqueue
  settled (returned so_id) u at_u tills entries =
      let done : Txn = record txn {
        status = complete;
        payment_method = some cash;
        tenders = some (cash_tender txn.total_cents amount (amount -ℤ txn.total_cents) ∷ []);
        sentry_so_id = some so_id;
      } in
      let t : Txn = (attribute_transaction false done u).0 in
      let u' : Store = (attribute_transaction false done u).1 in
      let same : t.id ≡ txn.id = (attribute-Same false done u).0 in
      let (method, tenders, so) = attribute-payment false done u in
      let at_u' : get_txn t.id u' ≡ some (paid_cash amount txn) =
        ap (λ k. get_txn k u') same
        ∙ ap (λ rows. Table.find txn_key txn.id rows) (attribute-transactions false done u)
        ∙ at_u in
      let kept : get_txn t.id (save_txn t u') ≡ some t =
        just_saved t (paid_cash amount txn) u' at_u' in
      (
        t,
        refl,
        record {
          stored = subst (λ k. get_txn k (save_txn t u') ≡ some t) same kept;
          has_status = attribute-status false done u;
          in_cash = method;
          change = tenders;
        },
        so,
      )
  settled (failed e) u at_u tills entries = (
    _,
    refl,
    record {
      stored = just_saved _ (paid_cash amount txn) u at_u;
      has_status = refl;
      in_cash = refl;
      change = refl;
    },
    tills,
  )
  settled crashed u at_u tills entries =
      (refl, record { stored = at_u; has_status = refl; in_cash = refl; change = refl }, entries)

  loaded :
      txn.txn_type ≡ sale → txn.status ≡ awaiting_payment → load_for_payment txn.id s ≡ (ok txn, s)
  unfolding load_for_payment
  loaded ty st = rw (load_for_payment, found, ty, st) refl

  too_little :
      txn.txn_type ≡ sale
      → txn.status ≡ awaiting_payment
      → ltb_ℤ amount txn.total_cents ≡ true
      → charge_cash settings services env txn.id amount s
        ≡ (err (insufficient_tender txn.total_cents) 400, s)
  unfolding charge_cash
  too_little ty st short = let e = loaded ty st in rw (charge_cash, ◌>>=◌, e, short, e) refl

  enough :
      txn.txn_type ≡ sale
      → txn.status ≡ awaiting_payment
      → ltb_ℤ amount txn.total_cents ≡ false
      → charge_cash settings services env txn.id amount s
        ≡ send_to_sentry settings services env
            (paid_cash amount txn)
            cash
            (save_txn (paid_cash amount txn) s)
  unfolding charge_cash
  enough ty st fits = let e = loaded ty st in rw (charge_cash, ◌>>=◌, e, fits, e) refl

  -- For a stored sale that awaits payment: less cash than the total is refused and changes nothing. Else
  -- the sale is paid in cash with the change written down, and by the answer of Sentry it is stored as
  -- complete with the order's id, or as INVENTORY_UPDATE_FAILED with every till as it was, or, where the
  -- call raises anything else, as PAYMENT_SUCCESS without an outbox entry.
  pub charge_cash_lem :
      txn.txn_type ≡ sale
      → txn.status ≡ awaiting_payment
      → let out = charge_cash settings services env txn.id amount s in
        let reply =
          services.create_pos_so_reply
            (build_checkout_request env.now (paid_cash amount txn) cash) in
        (ltb_ℤ amount txn.total_cents ≡ true
          → out ≡ (err (insufficient_tender txn.total_cents) 400, s))
        × (ltb_ℤ amount txn.total_cents ≡ false → AfterCash amount txn s reply out)
  unfolding send_to_sentry paid_cash
  charge_cash_lem ty st =
      let request = build_checkout_request env.now (paid_cash amount txn) cash in
      let reply = services.create_pos_so_reply request in
      let u : Store = call (create_pos_so request) (save_txn (paid_cash amount txn) s) in
      (
        too_little ty st,
        λ fits.
            subst (AfterCash amount txn s reply) (sym (enough ty st fits))
              (settled reply u (just_saved (paid_cash amount txn) txn s found) refl refl),
      )
