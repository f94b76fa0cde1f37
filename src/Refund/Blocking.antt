-- ===== src/Refund/Blocking.antt =====
-- One refund at a time: what `start_refund` of `pos_service/services/refund.py` does to the next one.
use hightower_pos.Prelude.{
  ℕ, ◌≡◌, refl, true, false, ◌&&◌, none, some, Bool-cases, Option-cases, inl, inr, ltb, subst,
}
use hightower_pos.Prelude.Text.{Text, text_eq_refl}
use hightower_pos.Table
use hightower_pos.Model.{
  Txn, Store, Settings, Env, ErrorCode, ok, err, already_refunded, get_txn, add_txn, txn_key,
  is_sale, is_complete,
}
use hightower_pos.Commits.Kept.{still_found}
use hightower_pos.Refund.Start.{
  blocks, existing_blocking_refund, days_since, lookup_refund, new_refund, start_refund,
}

abbrev pub IsGate : Settings → ℕ → Txn → Type 0
IsGate settings now o =
    ((is_sale o.txn_type && is_complete o.status) ≡ true)
    × (ltb settings.refund_window_days (days_since now o) ≡ false)

-- What the gates have read when they pass.
passed :
    (settings : Settings) (now : ℕ) (id : Text) (s : Store) (o : Txn)
    → lookup_refund settings now id s ≡ ok o
    → (get_txn id s ≡ some o) × IsGate settings now o × (existing_blocking_refund o.id s ≡ none)
unfolding lookup_refund
passed settings now id s o h = elim (Option-cases (get_txn id s)) [
  | inl e ↦ absurd (not_ok (rw (e, lookup_refund) at h))
  | inr (o', e) ↦ elim (Bool-cases (is_sale o'.txn_type && is_complete o'.status)) [
    | inr other ↦ absurd (not_ok (rw (e, lookup_refund, other) at h))
    | inl done ↦ elim (Bool-cases (ltb settings.refund_window_days (days_since now o'))) [
      | inl late ↦ absurd (not_ok (rw (e, lookup_refund, done, late) at h))
      | inr in_time ↦ elim (Option-cases (existing_blocking_refund o'.id s)) [
        | inr (b, e₂) ↦ absurd (not_ok (rw (e, lookup_refund, done, in_time, e₂) at h))
        | inl e₂ ↦
            let same : o' ≡ o = ok_inj (rw (e, lookup_refund, done, in_time, e₂) at h) in
            subst
              (λ x.
                (get_txn id s ≡ some x)
                × IsGate settings now x
                × (existing_blocking_refund x.id s ≡ none))
              same (e, (done, in_time), e₂)
      ]
    ]
  ]
]
  where
    not_ok : {code : ErrorCode} {http : ℕ} → err code http ≡ ok o → ⊥
    not_ok h = cc

    ok_inj : {x : Txn} → ok x ≡ ok o → x ≡ o
    ok_inj h = cc

blocker :
    (env : Env) (cashier : Text) (o : Txn) (s : Store)
    → existing_blocking_refund o.id s ≡ none
    → existing_blocking_refund o.id (add_txn (new_refund env cashier o) s)
      ≡ some (new_refund env cashier o)
unfolding existing_blocking_refund new_refund
blocker env cashier o s none_yet =
    Table.first-insert (blocks o.id) txn_key (new_refund env cashier o) s.transactions none_yet
      (rw (text_eq_refl o.id) refl)

refused :
    (settings : Settings) (env : Env) (now : ℕ) (id cashier : Text) (s : Store) (o : Txn)
    → get_txn env.txn_id s ≡ none
    → lookup_refund settings now id s ≡ ok o
    → lookup_refund settings now id (add_txn (new_refund env cashier o) s)
      ≡ err (already_refunded env.txn_id) 422
unfolding lookup_refund new_refund
refused settings env now id cashier s o fresh gates =
    let (at_o, (done, in_time), none_yet) = passed settings now id s o gates in
    let there : get_txn id (add_txn (new_refund env cashier o) s) ≡ some o =
      still_found (new_refund env cashier o) s fresh id o at_o in
    rw (there, lookup_refund, done, in_time, blocker env cashier o s none_yet) refl

started :
    (settings : Settings) (env : Env) (id cashier : Text) (s : Store) (o : Txn)
    → lookup_refund settings env.now id s ≡ ok o
    → start_refund settings env id cashier s
      ≡ (ok (new_refund env cashier o), add_txn (new_refund env cashier o) s)
unfolding start_refund
started settings env id cashier s o h = rw (start_refund, h) refl

stopped :
    (settings : Settings) (env : Env) (id cashier : Text) (s : Store) (code : ErrorCode) (http : ℕ)
    → lookup_refund settings env.now id s ≡ err code http
    → start_refund settings env id cashier s ≡ (err code http, s)
unfolding start_refund
stopped settings env id cashier s code http h = rw (start_refund, h) refl

-- Once a refund of a sale has started, the next request to refund that sale is refused with the id of
-- the first one, and writes nothing, at any time at which it would have passed before. The first
-- refund's uuid must be unused.
pub start_refund-blocks :
    (settings : Settings) (env env' : Env) (id cashier cashier' : Text) (s : Store) (o : Txn)
    → get_txn env.txn_id s ≡ none
    → lookup_refund settings env.now id s ≡ ok o
    → lookup_refund settings env'.now id s ≡ ok o
    → start_refund settings env' id cashier' (start_refund settings env id cashier s).1
      ≡ (err (already_refunded env.txn_id) 422, (start_refund settings env id cashier s).1)
start_refund-blocks settings env env' id cashier cashier' s o fresh first again =
    rw (started settings env id cashier s o first) (
      stopped settings env' id cashier' (add_txn (new_refund env cashier o) s)
        (already_refunded env.txn_id) 422
        (refused settings env env'.now id cashier s o fresh again))
