-- ===== src/Reconcile/Reported.antt =====
-- What the loops of `retry_failed_sales` and `retry_failed_refunds` of
-- `pos_service/services/reconciliation.py` report, against the rows that they leave.
use hightower_pos.Prelude.{
  ◌+◌, ◌≡◌, refl, ap, ◌∙◌, Bool, true, false, none, some, Option, List, [], ◌∷◌, ◌++◌, All, map,
  arith,
}
use hightower_pos.Prelude.Text.{Text, text_eq, text_eq-sym}
use hightower_pos.Table
use hightower_pos.Model.{Txn, Status, Store, Result, ok, err, get_txn, txn_key}
use hightower_pos.Reconcile.{RetryReport, report_one, retry_turn, retry_rows}
use hightower_pos.Reconcile.Loops.{Apart, AllApart, IsTurn, still_turns}
use hightower_pos.Commits.{Writes}
use hightower_pos.Commits.Books.{Books}
use hightower_pos.Commits.Kept.{Writes-Books}

abbrev pub status_in : Option Txn → Option Status
status_in none = none
status_in (some t) = some t.status

abbrev pub status_of : Text → Store → Option Status
status_of k s = status_in (get_txn k s)

-- The statuses of all rows but one are as before.
abbrev pub Keeps : Text → Store → Store → Type 0
Keeps id s s' = (k : Text) → text_eq k id ≡ false → status_of k s' ≡ status_of k s

append-cons : (xs : List Text) (x : Text) (ys : List Text) → (xs ++ x ∷ []) ++ ys ≡ xs ++ x ∷ ys
append-cons [] x ys = refl
append-cons (z ∷ xs) x ys = ap (λ r. z ∷ r) (append-cons xs x ys)

module _ (good bad : Status) where
  -- A retry that returns: the status says which way it went, and no other row has another status.
  abbrev pub Turned : Txn → Store → Result Bool × Store → Type 0
  Turned t s (err code http, s') = Unit
  Turned t s (ok true, s') = (status_of t.id s' ≡ some good) × Keeps t.id s s'
  Turned t s (ok false, s') = (status_of t.id s' ≡ some bad) × Keeps t.id s s'

  -- What a loop over rows adds to the report: the ids of the rows that stand as good, and of those that
  -- stand as bad, each row once.
  pub record Adds (rows : List Txn) (before r : RetryReport) (s s' : Store) : Type 0 where
    pub done : List Text
    pub failing : List Text
    pub succeeded : r.succeeded ≡ before.succeeded ++ done
    pub still_failing : r.still_failing ≡ before.still_failing ++ failing
    pub scanned : r.scanned ≡ before.scanned
    pub all_good : All (λ id. status_of id s' ≡ some good) done
    pub all_bad : All (λ id. status_of id s' ≡ some bad) failing
    pub each :
        (q : Text → Bool)
        → Table.count q done + Table.count q failing ≡ Table.count q (map txn_key rows)
    pub others :
        (k : Text) → All (λ x. text_eq x.id k ≡ false) rows → status_of k s' ≡ status_of k s

  abbrev pub Outcome : List Txn → RetryReport → Store → Result RetryReport × Store → Type 0
  Outcome rows before s (err code http, s') = Unit
  Outcome rows before s (ok r, s') = Adds rows before r s s'

  Adds-good :
      (t : Txn) (rows : List Txn) (before r : RetryReport) (s s₁ s' : Store)
      → All (Apart t) rows
      → (status_of t.id s₁ ≡ some good) × Keeps t.id s s₁
      → Adds rows (report_one true t.id before) r s₁ s'
      → Adds (t ∷ rows) before r s s'
  unfolding Table.count
  Adds-good t rows before r s s₁ s' d one rest = record {
    done = t.id ∷ rest.done;
    failing = rest.failing;
    succeeded = rest.succeeded ∙ append-cons before.succeeded t.id rest.done;
    still_failing = rest.still_failing;
    scanned = rest.scanned;
    all_good = (rest.others t.id d ∙ one.0, rest.all_good);
    all_bad = rest.all_bad;
    each = λ q. omega (arith, rest.each q);
    others = λ k h. rest.others k h.1 ∙ one.1 k (text_eq-sym k t.id ∙ h.0);
  }

  Adds-bad :
      (t : Txn) (rows : List Txn) (before r : RetryReport) (s s₁ s' : Store)
      → All (Apart t) rows
      → (status_of t.id s₁ ≡ some bad) × Keeps t.id s s₁
      → Adds rows (report_one false t.id before) r s₁ s'
      → Adds (t ∷ rows) before r s s'
  unfolding Table.count
  Adds-bad t rows before r s s₁ s' d one rest = record {
    done = rest.done;
    failing = t.id ∷ rest.failing;
    succeeded = rest.succeeded;
    still_failing = rest.still_failing ∙ append-cons before.still_failing t.id rest.failing;
    scanned = rest.scanned;
    all_good = rest.all_good;
    all_bad = (rest.others t.id d ∙ one.0, rest.all_bad);
    each = λ q. omega (arith, rest.each q);
    others = λ k h. rest.others k h.1 ∙ one.1 k (text_eq-sym k t.id ∙ h.0);
  }

  turn-Outcome :
      (retry_one : Txn → Store → Result Bool × Store) (t : Txn) (rows : List Txn) (s : Store)
      (m : Result Bool × Store) (rest : RetryReport → Store → Result RetryReport × Store)
      (before : RetryReport)
      → All (Apart t) rows
      → Turned t s m
      → ((r : RetryReport) → Outcome rows r m.1 (rest r m.1))
      → Outcome (t ∷ rows) before s (retry_turn retry_one t m rest before)
  unfolding retry_turn
  turn-Outcome retry_one t rows s (err code http, s₁) rest before d one more = tt
  turn-Outcome retry_one t rows s (ok true, s₁) rest before d one more =
      later (rest (report_one true t.id before) s₁) (more (report_one true t.id before))
    where
      later :
          (out : Result RetryReport × Store)
          → Outcome rows (report_one true t.id before) s₁ out
          → Outcome (t ∷ rows) before s out
      later (err code http, s') h = tt
      later (ok r, s') h = Adds-good t rows before r s s₁ s' d one h
  turn-Outcome retry_one t rows s (ok false, s₁) rest before d one more =
      later (rest (report_one false t.id before) s₁) (more (report_one false t.id before))
    where
      later :
          (out : Result RetryReport × Store)
          → Outcome rows (report_one false t.id before) s₁ out
          → Outcome (t ∷ rows) before s out
      later (err code http, s') h = tt
      later (ok r, s') h = Adds-bad t rows before r s s₁ s' d one h

  module _ (p : Txn → Bool) (retry_one : Txn → Store → Result Bool × Store)
      (writes : (t : Txn) (s : Store) → Books s → IsTurn p s t → Writes s (retry_one t s).1)
      (others : (t x : Txn) (s : Store)
        → Books s
        → IsTurn p s t
        → IsTurn p s x
        → Apart t x
        → get_txn x.id (retry_one t s).1 ≡ some x)
      (turned : (t : Txn) (s : Store) → Books s → IsTurn p s t → Turned t s (retry_one t s)) where
    pub rows-Outcome :
        (rows : List Txn) (before : RetryReport) (s : Store)
        → Books s
        → AllApart rows
        → All (IsTurn p s) rows
        → Outcome rows before s (retry_rows retry_one rows before s)
    unfolding retry_rows Table.count
    rows-Outcome [] before s b d h = record {
      done = [];
      failing = [];
      succeeded = append-nil before.succeeded;
      still_failing = append-nil before.still_failing;
      scanned = refl;
      all_good = tt;
      all_bad = tt;
      each = λ q. omega arith;
      others = λ k none_left. refl;
    }
      where
        append-nil : (xs : List Text) → xs ≡ xs ++ []
        append-nil [] = refl
        append-nil (x ∷ xs) = ap (λ r. x ∷ r) (append-nil xs)
    rows-Outcome (t ∷ rows) before s b d h =
        turn-Outcome retry_one t rows s (retry_one t s) (retry_rows retry_one rows) before d.0
          (turned t s b h.0)
          (λ r.
            rows-Outcome rows r (retry_one t s).1 (Writes-Books (writes t s b h.0) b) d.1
              (still_turns p retry_one writes others t rows s b h.0 d.0 h.1))
