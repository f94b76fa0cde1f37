-- ===== src/Reconcile/Loops.antt =====
-- The loops of `retry_failed_sales` and `retry_failed_refunds` of
-- `pos_service/services/reconciliation.py` as sequences of writes: the rows that were read before the
-- loop are still the stored ones when their turn comes.
use hightower_pos.Prelude.{
  ◌≡◌, inl, inr, Bool, true, false, none, some, List, [], ◌∷◌, keep, All, All-keep, Bool-cases, sym,
}
use hightower_pos.Prelude.Text.{text_eq}
use hightower_pos.Table
use hightower_pos.Model.{Txn, Store, Result, ok, err, get_txn, txn_key}
use hightower_pos.Reconcile.{RetryReport, retry_turn, retry_rows}
use hightower_pos.Commits.{Writes, nothing}
use hightower_pos.Commits.Books.{Books}
use hightower_pos.Commits.Kept.{Writes-Books}
use hightower_pos.Commits.Sequence.{chain}

abbrev pub Apart : Txn → Txn → Type 0
Apart t x = text_eq x.id t.id ≡ false

abbrev pub AllApart : List Txn → Type 0
AllApart [] = Unit
AllApart (t ∷ ts) = All (Apart t) ts × AllApart ts

find-none-All :
    (t : Txn) (rows : List Txn) → Table.find txn_key t.id rows ≡ none → All (Apart t) rows
unfolding Table.find
find-none-All t [] h = tt
find-none-All t (r ∷ rows) h = elim (Bool-cases (text_eq r.id t.id)) [
  | inl same ↦ absurd (none≢some (sym (rw (same, Table.find) at h)))
  | inr other ↦ (other, find-none-All t rows (rw (other, Table.find) at h))
]
  where
    none≢some : {a : Txn} → none ≡ some a → ⊥
    none≢some h = cc

pub kept-AllApart :
    (p : Txn → Bool) (rows : List Txn) → Table.IsKeyed txn_key rows → AllApart (keep p rows)
kept-AllApart p [] h = tt
kept-AllApart p (t ∷ rows) h = elim (Bool-cases (p t)) [
  | inl yes_kept ↦
      rw (yes_kept, AllApart)
        (
          All-keep (Apart t) (Apart t) p (λ x _ d. d) rows (find-none-All t rows h.0),
          kept-AllApart p rows h.1,
        )
  | inr dropped ↦ rw (dropped, AllApart) (kept-AllApart p rows h.1)
]

abbrev pub IsTurn : (Txn → Bool) → Store → Txn → Type 0
IsTurn p s t = (get_txn t.id s ≡ some t) × (p t ≡ true)

module _ (p : Txn → Bool) (retry_one : Txn → Store → Result Bool × Store)
    (writes : (t : Txn) (s : Store) → Books s → IsTurn p s t → Writes s (retry_one t s).1)
    (others : (t x : Txn) (s : Store)
      → Books s
      → IsTurn p s t
      → IsTurn p s x
      → Apart t x
      → get_txn x.id (retry_one t s).1 ≡ some x) where
  pub still_turns :
      (t : Txn) (rows : List Txn) (s : Store)
      → Books s
      → IsTurn p s t
      → All (Apart t) rows
      → All (IsTurn p s) rows
      → All (IsTurn p (retry_one t s).1) rows
  still_turns t [] s b turn d h = tt
  still_turns t (x ∷ rows) s b turn d h =
      ((others t x s b turn h.0 d.0, h.0.1), still_turns t rows s b turn d.1 h.1)

  turn-Writes :
      (t : Txn) (m : Result Bool × Store) (rest : RetryReport → Store → Result RetryReport × Store)
      (report : RetryReport)
      → ((r : RetryReport) → Writes m.1 (rest r m.1).1)
      → Writes m.1 (retry_turn retry_one t m rest report).1
  unfolding retry_turn
  turn-Writes t (ok done, s) rest report more = more _
  turn-Writes t (err code http, s) rest report more = nothing

  rows-Writes :
      (rows : List Txn) (report : RetryReport) (s : Store)
      → Books s
      → AllApart rows
      → All (IsTurn p s) rows
      → Writes s (retry_rows retry_one rows report s).1
  unfolding retry_rows
  rows-Writes [] report s b d h = nothing
  rows-Writes (t ∷ rows) report s b d h =
      let one : Writes s (retry_one t s).1 = writes t s b h.0 in
      let next = still_turns t rows s b h.0 d.0 h.1 in
      let b' : Books (retry_one t s).1 = Writes-Books one b in
      chain one (
        turn-Writes t (retry_one t s) (retry_rows retry_one rows) report
          (λ r. rows-Writes rows r (retry_one t s).1 b' d.1 next))

  pub kept-Writes :
      (report : RetryReport) (s : Store)
      → Books s
      → Writes s (retry_rows retry_one (keep p s.transactions) report s).1
  kept-Writes report s b =
      rows-Writes (keep p s.transactions) report s b (kept-AllApart p s.transactions b.keyed) (
        All-keep (λ t. get_txn t.id s ≡ some t) (IsTurn p s) p
          (λ t yes_kept stored. (stored, yes_kept)) s.transactions
          (Table.keyed-found txn_key s.transactions b.keyed))
