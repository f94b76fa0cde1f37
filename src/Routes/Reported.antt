-- ===== src/Routes/Reported.antt =====
-- What the terminal has been told by the status reads of `pos_service/services/checkout.py` and
-- `pos_service/services/refund.py`, against what happens later.
use hightower_pos.Prelude.{
  ◌≡◌, refl, sym, ap, subst, ◌∙◌, ◌⊎◌, inl, inr, Bool, true, some, arith, Option-cases, if-cases,
}
use hightower_pos.Prelude.Text.{Text}
use hightower_pos.Model
use hightower_pos.Model.{
  Status, TxnType, sale, refund, Txn, Store, Settings, Result, ok, err, get_txn, is_refund_type,
}
use hightower_pos.Commits.{may_follow}
use hightower_pos.Commits.Books.{Books}
use hightower_pos.Commits.History.{Leads, here, further}
use hightower_pos.Clients.Windcave.{XmlParser}
use hightower_pos.Receipt.Format.{StoreInfo}
use hightower_pos.Receipt.Status.{
  StatusView, get_status, get_refund_status, is_terminal_status, is_refund_terminal_status,
  status_view, refund_status_view,
}
use hightower_pos.Routes.{Served}
use hightower_pos.Routes.Invariant.{Served-Evolves}

-- Between two terminal reports: nothing, or the failed order that a retry has brought to Sentry.
abbrev pub Resolves : (failed_status before after : Status) → Type 0
Resolves failed_status before after =
    (after ≡ before) ⊎ ((before ≡ failed_status) × (after ≡ Model.complete))

-- The report `v` is terminal only if `v'` is, with the same status or a resolved one.
abbrev pub StaysTerminal : (failed_status : Status) → StatusView → StatusView → Type 0
StaysTerminal failed_status v v' =
    v.is_terminal ≡ true → (v'.is_terminal ≡ true) × Resolves failed_status v.status v'.status

sale_step :
    (ty : TxnType) (a b : Status)
    → is_terminal_status a ≡ true
    → may_follow ty a b ≡ true
    → Resolves Model.inventory_update_failed a b
unfolding is_terminal_status
sale_step sale a b h f = ground arith
sale_step refund a b h f = ground arith

refund_step :
    (ty : TxnType) (a b : Status)
    → is_refund_terminal_status a ≡ true
    → may_follow ty a b ≡ true
    → Resolves Model.refund_inventory_update_failed a b
unfolding is_refund_terminal_status
refund_step sale a b h f = ground arith
refund_step refund a b h f = ground arith

ok_inj : {A : Type 0} {a b : A} → ok a ≡ ok b → a ≡ b
ok_inj h = cc

-- A set of terminal statuses that is left only by resolving the failed one.
module _ (terminal : Status → Bool) (failed : Status)
    (complete_terminal : terminal Model.complete ≡ true) (distinct : failed ≡ Model.complete → ⊥)
    (step : (ty : TxnType) (a b : Status)
      → terminal a ≡ true
      → may_follow ty a b ≡ true
      → Resolves failed a b) where
  Resolves-terminal : (a b : Status) → terminal a ≡ true → Resolves failed a b → terminal b ≡ true
  Resolves-terminal a b h (inl same) = ap terminal same ∙ h
  Resolves-terminal a b h (inr (was, now)) = ap terminal now ∙ complete_terminal

  Resolves-trans :
      (a x b : Status) → Resolves failed a x → Resolves failed x b → Resolves failed a b
  Resolves-trans a x b (inl same) r = subst (λ y. Resolves failed y b) same r
  Resolves-trans a x b (inr (was, now)) (inl same) = inr (was, same ∙ now)
  Resolves-trans a x b (inr (was, now)) (inr (again, later)) = absurd (distinct (sym again ∙ now))

  Leads-Resolves :
      (ty : TxnType) (a b : Status)
      → terminal a ≡ true
      → Leads ty a b
      → (terminal b ≡ true) × Resolves failed a b
  Leads-Resolves ty a b h here = (h, inl refl)
  Leads-Resolves ty a b h (further x y l f) =
      let (hx, rx) = Leads-Resolves ty a x h l in
      let r = step ty x y hx f in (Resolves-terminal x y hx r, Resolves-trans a x y rx r)

module _ (parse_xml : XmlParser) (settings : Settings) (store : StoreInfo) (s s' : Store)
    (served : Served settings s s') (b : Books s) where
  get_status-stays :
      (id : Text) (v : StatusView)
      → get_status parse_xml settings store id s ≡ ok v
      → (v' : StatusView) × (get_status parse_xml settings store id s' ≡ ok v')
        × StaysTerminal Model.inventory_update_failed v v'
  unfolding get_status status_view is_terminal_status
  get_status-stays id v h = elim (Option-cases (get_txn id s)) [
    | inl missing ↦ cc (rw (get_status, missing) at h)
    | inr (t, there) ↦
        let (t', later_there, later) = Served-Evolves settings s s' served b id t there in
        (
          status_view parse_xml settings store t',
          rw (get_status, later_there) refl,
          subst
              (λ v.
                StaysTerminal Model.inventory_update_failed v
                  (status_view parse_xml settings store t'))
              (ok_inj (rw (get_status, there) at h))
              (λ terminal.
                Leads-Resolves is_terminal_status Model.inventory_update_failed refl (λ e. cc)
                  sale_step t.txn_type t.status t'.status terminal later.leads),
        )
  ]

  -- What a report on a refund has read.
  refund_view-read :
      (id : Text) (v : StatusView) (t : Txn)
      → get_txn id s ≡ some t
      → get_refund_status parse_xml settings store id s ≡ ok v
      → (is_refund_type t.txn_type ≡ true) × (refund_status_view parse_xml settings store s t ≡ v)
  unfolding get_refund_status
  refund_view-read id v t there h =
      if-cases
        (λ (r : Result StatusView).
          r ≡ ok v
          → (is_refund_type t.txn_type ≡ true)
            × (refund_status_view parse_xml settings store s t ≡ v))
        (is_refund_type t.txn_type) _ _ (λ is e. (is, ok_inj e)) (λ _ e. cc)
        (rw (get_refund_status, there) at h)

  get_refund_status-stays :
      (id : Text) (v : StatusView)
      → get_refund_status parse_xml settings store id s ≡ ok v
      → (v' : StatusView) × (get_refund_status parse_xml settings store id s' ≡ ok v')
        × StaysTerminal Model.refund_inventory_update_failed v v'
  unfolding get_refund_status refund_status_view is_refund_terminal_status
  get_refund_status-stays id v h = elim (Option-cases (get_txn id s)) [
    | inl missing ↦ cc (rw (get_refund_status, missing) at h)
    | inr (t, there) ↦
        let (t', later_there, later) = Served-Evolves settings s s' served b id t there in
        let (is_ref, seen) = refund_view-read id v t there h in
        (
          refund_status_view parse_xml settings store s' t',
          rw (get_refund_status, later_there)
              (if-cases (λ r. r ≡ ok (refund_status_view parse_xml settings store s' t'))
                (is_refund_type t'.txn_type) _ _ (λ _. refl)
                (λ other. cc (is_ref, other, ap is_refund_type later.later_type))),
          subst
              (λ v.
                StaysTerminal Model.refund_inventory_update_failed v
                  (refund_status_view parse_xml settings store s' t'))
              seen
              (λ terminal.
                Leads-Resolves is_refund_terminal_status Model.refund_inventory_update_failed refl
                  (λ e. cc) refund_step t.txn_type t.status t'.status terminal later.leads),
        )
  ]

  -- Once the status read of a sale has reported it as terminal, it does so after any sequence of
  -- sales, refunds, retries and drains, from a store whose books are kept: with the same status, or
  -- with complete where the first report said that the order had failed at Sentry.
  pub get_status-settled :
      (id : Text) (v : StatusView)
      → get_status parse_xml settings store id s ≡ ok v
      → v.is_terminal ≡ true
      → (v' : StatusView) × (get_status parse_xml settings store id s' ≡ ok v')
        × (v'.is_terminal ≡ true)
        × Resolves Model.inventory_update_failed v.status v'.status
  get_status-settled id v h terminal =
      let (v', later, stays) = get_status-stays id v h in
      (v', later, (stays terminal).0, (stays terminal).1)

  -- The same for a refund: a terminal report of `get_refund_status` is never withdrawn, and only a
  -- refund that failed at Sentry is reported differently later, as complete.
  pub get_refund_status-settled :
      (id : Text) (v : StatusView)
      → get_refund_status parse_xml settings store id s ≡ ok v
      → v.is_terminal ≡ true
      → (v' : StatusView) × (get_refund_status parse_xml settings store id s' ≡ ok v')
        × (v'.is_terminal ≡ true)
        × Resolves Model.refund_inventory_update_failed v.status v'.status
  get_refund_status-settled id v h terminal =
      let (v', later, stays) = get_refund_status-stays id v h in
      (v', later, (stays terminal).0, (stays terminal).1)
