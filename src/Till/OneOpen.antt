-- ===== src/Till/OneOpen.antt =====
-- The invariant of the till table: distinct ids, and at most one open session for each cashier.
use hightower_pos.Prelude.{
  ℕ, ◌≤◌, ◌≡◌, refl, ◌⊎◌, inl, inr, Bool, true, none, some, List, arith, Bool-cases, Option-cases,
  subst,
}
use hightower_pos.Prelude.Text.{Text, text_eq, text_eq→eq, text_eq_refl}
use hightower_pos.Table
use hightower_pos.Table.{bit}
use hightower_pos.Model.{Txn, TillSession, Store, closed, till_key, save_till, user_key}
use hightower_pos.Till.Counting.{refused≢accepted}
use hightower_pos.Till.{
  Counts, is_open_for, get_open_session, open_session, close_session, close_row,
  attribute_transaction, tally, try_render_pdf, Renderer, denominations_to_cents, accepted,
  TillResult-cases, new_session,
}

-- Distinct ids, and at most one open session for each cashier.
pub record TillsOk (rows : List TillSession) : Type 0 where
  pub keyed : Table.IsKeyed till_key rows
  pub one_open : (c : Text) → Table.count (is_open_for c) rows ≤ 1

pub find-open :
    (c : Text) (s : Store) (t : TillSession)
    → Table.IsKeyed till_key s.till_sessions
    → get_open_session c s ≡ some t
    → Table.find till_key t.id s.till_sessions ≡ some t
unfolding get_open_session
find-open c s t keyed e = Table.first-find till_key (is_open_for c) s.till_sessions t keyed e

pub open-holds :
    (c : Text) (s : Store) (t : TillSession)
    → get_open_session c s ≡ some t
    → is_open_for c t ≡ true
unfolding get_open_session
open-holds c s t e = Table.first-holds (is_open_for c) s.till_sessions t e

-- A row that is saved under its own key, and is open for no cashier for whom it was not, keeps the
-- invariant.
pub put-TillsOk :
    (t old : TillSession) (rows : List TillSession)
    → Table.find till_key t.id rows ≡ some old
    → ((c : Text) → bit (is_open_for c t) ≤ bit (is_open_for c old))
    → TillsOk rows
    → TillsOk (Table.put till_key t rows)
put-TillsOk t old rows found less ok = record {
  keyed = Table.put-IsKeyed till_key t rows ok.keyed;
  one_open = λ c.
      omega
        (arith, Table.count-put (is_open_for c) till_key t rows old found, less c, ok.one_open c);
}

pub insert-TillsOk :
    (t : TillSession) (rows : List TillSession)
    → Table.find till_key t.id rows ≡ none
    → Table.first (is_open_for t.cashier_id) rows ≡ none
    → TillsOk rows
    → TillsOk (Table.insert till_key t rows)
insert-TillsOk t rows fresh none_open ok = record {
  keyed = Table.insert-IsKeyed till_key t rows fresh ok.keyed;
  one_open = one_more;
}
  where
    one_more : (c : Text) → Table.count (is_open_for c) (Table.insert till_key t rows) ≤ 1
    one_more c = elim (Bool-cases (text_eq t.cashier_id c)) [
      | inl same ↦
          let zero_now : Table.count (is_open_for c) rows ≡ 0 =
            subst (λ x. Table.count (is_open_for x) rows ≡ 0) (text_eq→eq t.cashier_id c same)
              (Table.count-first-none (is_open_for t.cashier_id) rows none_open) in
          ground (arith, zero_now, Table.count-insert (is_open_for c) till_key t rows)
      | inr other ↦
          ground (arith, other, ok.one_open c, Table.count-insert (is_open_for c) till_key t rows)
    ]

module _ (is_refund : Bool) (txn : Txn) (t : TillSession) where
  pub tally-id : (tally is_refund txn t).id ≡ t.id
  unfolding tally
  tally-id = ground arith

  pub tally-cashier : (tally is_refund txn t).cashier_id ≡ t.cashier_id
  unfolding tally
  tally-cashier = ground arith

  pub tally-status : (tally is_refund txn t).status ≡ t.status
  unfolding tally
  tally-status = ground arith

-- Opening a session under a fresh id keeps the till invariant, whether it is accepted or refused.
pub open_session-TillsOk :
    (id : Text) (now : ℕ) (cashier_id terminal_id : Text) (counts : Counts) (s : Store)
    → Table.find till_key id s.till_sessions ≡ none
    → TillsOk s.till_sessions
    → TillsOk (open_session id now cashier_id terminal_id counts s).1.till_sessions
unfolding open_session
open_session-TillsOk id now cashier_id terminal_id counts s fresh ok =
    elim (Option-cases (Table.first (is_open_for cashier_id) s.till_sessions)) [
      | inr (existing, e) ↦ rw (e, open_session) ok
      | inl none_open ↦ elim (TillResult-cases (denominations_to_cents counts)) [
        | inr (error, bad) ↦ rw (none_open, open_session, bad) ok
        | inl (total, good) ↦
            rw (none_open, open_session, good)
              (insert-TillsOk (new_session id now cashier_id terminal_id counts total)
                s.till_sessions fresh none_open ok)
      ]
    ]

-- Once opened, the session is the one that is found for the cashier.
pub open_session-found :
    (id : Text) (now : ℕ) (cashier_id terminal_id : Text) (counts : Counts) (s : Store)
    {t : TillSession}
    → (open_session id now cashier_id terminal_id counts s).0 ≡ accepted t
    → get_open_session cashier_id (open_session id now cashier_id terminal_id counts s).1 ≡ some t
unfolding open_session
open_session-found id now cashier_id terminal_id counts s {t} h =
    elim (Option-cases (Table.first (is_open_for cashier_id) s.till_sessions)) [
      | inr (existing, e) ↦ absurd (refused≢accepted (rw (e, open_session) at h))
      | inl none_open ↦ elim (TillResult-cases (denominations_to_cents counts)) [
        | inr (error, bad) ↦ absurd (refused≢accepted (rw (none_open, bad, open_session) at h))
        | inl (total, good) ↦
            let row = new_session id now cashier_id terminal_id counts total in
            ground (
              arith,
              none_open,
              good,
              text_eq_refl cashier_id,
              Table.first-insert (is_open_for cashier_id) till_key row s.till_sessions,
            )
      ]
    ]

-- What `try_render_pdf` can do: nothing, or save the session with a path.
pub try_render_pdf_cases :
    (render : Renderer) (t : TillSession) (s : Store)
    → (try_render_pdf render t s ≡ (t, s))
      ⊎ ((path : Text) × (try_render_pdf render t s
            ≡ (record t { pdf_path = some path }, save_till (record t { pdf_path = some path }) s)))
unfolding try_render_pdf
try_render_pdf_cases none t s = inl refl
try_render_pdf_cases (some render) t s =
    elim (Option-cases (Table.find user_key t.cashier_id s.users)) [
      | inl missing ↦ inl (rw (missing, try_render_pdf))
      | inr (user, found) ↦ elim (Option-cases (render t user)) [
        | inl raised ↦ inl (rw (found, try_render_pdf, raised))
        | inr (path, drawn) ↦ inr (path, rw (found, try_render_pdf, drawn))
      ]
    ]

-- Saving the row of an open session again, with a tally or with the path of its report, keeps the
-- invariant.
pub resave-TillsOk :
    (t old : TillSession) (s : Store)
    → Table.find till_key t.id s.till_sessions ≡ some old
    → t.cashier_id ≡ old.cashier_id
    → t.status ≡ old.status
    → TillsOk s.till_sessions
    → TillsOk (save_till t s).till_sessions
resave-TillsOk t old s found same_cashier same_status =
    put-TillsOk t old s.till_sessions found λ c. rw (same_cashier, same_status) (omega arith)

close-TillsOk :
    (t old : TillSession) (s : Store)
    → Table.find till_key t.id s.till_sessions ≡ some old
    → t.status ≡ closed
    → TillsOk s.till_sessions
    → TillsOk (save_till t s).till_sessions
close-TillsOk t old s found shut = put-TillsOk t old s.till_sessions found λ c. ground (arith, shut)

try_render_pdf-TillsOk :
    (render : Renderer) (t : TillSession) (s : Store)
    → Table.find till_key t.id s.till_sessions ≡ some t
    → TillsOk s.till_sessions
    → TillsOk (try_render_pdf render t s).1.till_sessions
try_render_pdf-TillsOk render t s found ok = elim (try_render_pdf_cases render t s) [
  | inl same ↦ rw same ok
  | inr (path, saved) ↦
      rw saved (resave-TillsOk (record t { pdf_path = some path }) t s found refl refl ok)
]

-- Closing a session keeps the till invariant, on every branch and whatever the report renderer does.
pub close_session-TillsOk :
    (now : ℕ) (cashier_id : Text) (counts : Counts) (render : Renderer) (s : Store)
    → TillsOk s.till_sessions
    → TillsOk (close_session now cashier_id counts render s).1.till_sessions
unfolding close_session
close_session-TillsOk now cashier_id counts render s ok =
    elim (Option-cases (get_open_session cashier_id s)) [
      | inl none_open ↦ rw (none_open, close_session) ok
      | inr (session, e) ↦ elim (TillResult-cases (denominations_to_cents counts)) [
        | inr (error, bad) ↦ rw (e, close_session, bad) ok
        | inl (total, good) ↦
            let row = close_row now counts total session in
            let found = find-open cashier_id s session ok.keyed e in
            rw (e, close_session, good)
              (try_render_pdf-TillsOk render row (save_till row s)
                (Table.find-put_self till_key row s.till_sessions session found)
                (close-TillsOk row session s found refl ok))
      ]
    ]

-- Attributing a transaction keeps the till invariant.
pub attribute_transaction-TillsOk :
    (is_refund : Bool) (txn : Txn) (s : Store)
    → TillsOk s.till_sessions
    → TillsOk (attribute_transaction is_refund txn s).1.till_sessions
unfolding attribute_transaction
attribute_transaction-TillsOk is_refund txn s ok =
    elim (Option-cases (get_open_session txn.cashier_id s)) [
      | inl none_open ↦ rw (none_open, attribute_transaction) ok
      | inr (session, e) ↦
          let found = find-open txn.cashier_id s session ok.keyed e in
          rw (e, attribute_transaction)
            (resave-TillsOk (tally is_refund txn session) session s
              (rw (tally-id is_refund txn session) found) (tally-cashier is_refund txn session)
              (tally-status is_refund txn session) ok)
    ]
