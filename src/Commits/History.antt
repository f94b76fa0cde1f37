-- ===== src/Commits/History.antt =====
-- What the writes never undo: a stored transaction stays, with its identity and its amounts, and its
-- status only moves along `may_follow`.
use hightower_pos.Prelude.{
  ◌≡◌, refl, inl, inr, Bool, true, false, some, arith, Bool-cases, ap, sym, ◌∙◌, subst,
}
use hightower_pos.Prelude.Text.{Text, text_eq, text_eq→eq}
use hightower_pos.Table
use hightower_pos.Model
use hightower_pos.Model.{
  Status, TxnType, sale, refund, Txn, Store, Settings, Env, txn_key, get_txn, save_txn, add_txn,
}
use hightower_pos.Outbox.{enqueue}
use hightower_pos.Commits.{
  may_follow, Changes, Write, logs, tallies, changes, finishes, posts, adds, Writes, nothing,
  then_write,
}
use hightower_pos.Commits.Books.{get-save}
use hightower_pos.Commits.Kept.{attribute-transactions, still_found}

-- The statuses that a transaction of a type can get to.
pub data Leads (ty : TxnType) (a : Status) : Status → Type 0 where
  here : Leads ty a a
  further : (b c : Status) → Leads ty a b → may_follow ty b c ≡ true → Leads ty a c

-- The row `t` that is stored at first, as it is stored later.
pub record Later (t t' : Txn) : Type 0 where
  pub later_type : t'.txn_type ≡ t.txn_type
  pub later_parent : t'.parent_transaction_id ≡ t.parent_transaction_id
  pub later_total : t'.total_cents ≡ t.total_cents
  pub later_cashier : t'.cashier_id ≡ t.cashier_id
  pub leads : Leads t.txn_type t.status t'.status

abbrev pub Evolves : Store → Store → Type 0
Evolves s s' =
    (k : Text) (t : Txn) → get_txn k s ≡ some t → (t' : Txn) × (get_txn k s' ≡ some t') × Later t t'

unchanged : (t : Txn) → Later t t
unchanged t = record {
  later_type = refl;
  later_parent = refl;
  later_total = refl;
  later_cashier = refl;
  leads = here;
}

Leads-trans : {ty : TxnType} {a b c : Status} → Leads ty a b → Leads ty b c → Leads ty a c
Leads-trans l here = l
Leads-trans l (further b c m f) = further b c (Leads-trans l m) f

Later-trans : (a b c : Txn) → Later a b → Later b c → Later a c
Later-trans a b c x y = record {
  later_type = y.later_type ∙ x.later_type;
  later_parent = y.later_parent ∙ x.later_parent;
  later_total = y.later_total ∙ x.later_total;
  later_cashier = y.later_cashier ∙ x.later_cashier;
  leads = Leads-trans x.leads (subst (λ ty. Leads ty b.status c.status) x.later_type y.leads);
}

changed : (old t : Txn) → Changes old t → Later old t
changed old t c = record {
  later_type = c.same_type;
  later_parent = c.same_parent;
  later_total = c.same_total;
  later_cashier = c.same_cashier;
  leads = elim c.follows [
    | inl e ↦ subst (Leads old.txn_type old.status) (sym e) here
    | inr f ↦ further old.status t.status here f
  ];
}

saved :
    (t old : Txn) (s : Store) → get_txn t.id s ≡ some old → Changes old t → Evolves s (save_txn t s)
saved t old s found c k r there = elim (Bool-cases (text_eq t.id k)) [
  | inl same ↦
      let e : old ≡ r =
        some_inj (sym found ∙ ap (λ j. get_txn j s) (text_eq→eq t.id k same) ∙ there) in
      (t, rw (get-save k t old s found, same) refl, subst (λ x. Later x t) e (changed old t c))
  | inr other ↦ (r, rw (get-save k t old s found, other) there, unchanged r)
]
  where
    some_inj : {x y : Txn} → some x ≡ some y → x ≡ y
    some_inj h = cc

saved_enqueued :
    (settings : Settings) (env : Env) (t old : Txn) (s : Store)
    → get_txn t.id s ≡ some old
    → Changes old t
    → Evolves s (save_txn t (enqueue settings env t s))
unfolding enqueue
saved_enqueued settings env t old s found c = saved t old s found c

Write-Evolves : {s s' : Store} → Write s s' → Evolves s s'
Write-Evolves (logs c s) k r there = (r, there, unchanged r)
Write-Evolves (tallies is_refund txn s) k r there = (
  r,
  ap (λ rows. Table.find txn_key k rows) (attribute-transactions is_refund txn s) ∙ there,
  unchanged r,
)
Write-Evolves (changes t old s found c same) k r there = saved t old s found c k r there
Write-Evolves (finishes settings env t old s found c before after) k r there =
    saved_enqueued settings env t old s found c k r there
Write-Evolves (posts e old s found same) k r there = (r, there, unchanged r)
Write-Evolves (adds t s fresh st) k r there = (r, still_found t s fresh k r there, unchanged r)

-- What is stored before a handler is stored after it, one or more steps later.
pub Writes-Evolves : {s s' : Store} → Writes s s' → Evolves s s'
Writes-Evolves nothing k r there = (r, there, unchanged r)
Writes-Evolves (then_write w one) k r there =
    let (r₁, at₁, l₁) = Writes-Evolves w k r there in
    let (r₂, at₂, l₂) = Write-Evolves one k r₁ at₁ in (r₂, at₂, Later-trans r r₁ r₂ l₁ l₂)

-- No step leaves these.
abbrev pub is_final : Status → Bool
is_final Model.complete = true
is_final Model.cancelled = true
is_final Model.validation_failed = true
is_final Model.payment_failed = true
is_final Model.refund_payment_failed = true
is_final _ = false

no_step : (ty : TxnType) (a b : Status) → is_final a ≡ true → may_follow ty a b ≡ true → ⊥
no_step sale a b h f = ground arith
no_step refund a b h f = ground arith

pub final-stays : (ty : TxnType) (a b : Status) → is_final a ≡ true → Leads ty a b → b ≡ a
final-stays ty a b h here = refl
final-stays ty a b h (further x y l f) =
    absurd (no_step ty x y (ap is_final (final-stays ty a x h l) ∙ h) f)
