-- ===== src/Reports/Shifts.antt =====
-- Sequences of till calls: `open_session`, `close_session` and `attribute_transaction` of
-- `pos_service/services/till.py` and `session_pdf` of `pos_service/routes/till.py`.
use hightower_pos.Prelude.{
  ℕ, ◌≡◌, refl, Bool, true, false, Option, none, some, Option-cases, inl, inr, if-cases,
}
use hightower_pos.Prelude.Text.{Text}
use hightower_pos.Table
use hightower_pos.Model.{TillSession, User, Txn, Store, till_key, user_key, is_opened}
use hightower_pos.Till.{Counts, Renderer, open_session, close_session, attribute_transaction}
use hightower_pos.Till.OneOpen.{
  TillsOk, open_session-TillsOk, close_session-TillsOk, attribute_transaction-TillsOk,
  resave-TillsOk,
}
use hightower_pos.Reports.Pdf.{PdfReply, regenerate, stored_pdf, closed_pdf, session_pdf}

-- Calls in sequence; the uuid of a new session is unused.
pub data Shifts : Store → Store → Type 0 where
  no_call : {s : Store} → Shifts s s
  opens :
      {s s' : Store} (id : Text) (now : ℕ) (cashier_id terminal_id : Text) (counts : Counts)
      → Table.find till_key id s.till_sessions ≡ none
      → Shifts (open_session id now cashier_id terminal_id counts s).1 s'
      → Shifts s s'
  closes :
      {s s' : Store} (now : ℕ) (cashier_id : Text) (counts : Counts) (render : Renderer)
      → Shifts (close_session now cashier_id counts render s).1 s'
      → Shifts s s'
  attributes :
      {s s' : Store} (is_refund : Bool) (txn : Txn)
      → Shifts (attribute_transaction is_refund txn s).1 s'
      → Shifts s s'
  shows :
      {s s' : Store} (exists : Text → Bool) (render : TillSession → User → Option Text) (id : Text)
      → Shifts (session_pdf exists render id s).1 s'
      → Shifts s s'

module _ (exists : Text → Bool) (render : TillSession → User → Option Text) where
  abbrev Keeps : PdfReply × Store → Type 0
  Keeps r = TillsOk r.1.till_sessions

  regenerate-TillsOk :
      (session : TillSession) (s : Store)
      → Table.find till_key session.id s.till_sessions ≡ some session
      → TillsOk s.till_sessions
      → Keeps (regenerate exists render session s)
  unfolding regenerate
  regenerate-TillsOk session s found ok =
      elim (Option-cases (Table.find user_key session.cashier_id s.users)) [
        | inl unknown ↦ rw (regenerate, unknown) ok
        | inr (user, known) ↦ elim (Option-cases (render session user)) [
          | inl fails ↦ rw (regenerate, known, fails) ok
          | inr (path, drawn) ↦
              rw (regenerate, known, drawn)
                (resave-TillsOk (record session { pdf_path = some path }) session s found refl refl
                  ok)
        ]
      ]

  stored_pdf-TillsOk :
      (o : Option Text) (session : TillSession) (s : Store)
      → Table.find till_key session.id s.till_sessions ≡ some session
      → TillsOk s.till_sessions
      → Keeps (stored_pdf exists render o session s)
  unfolding stored_pdf
  stored_pdf-TillsOk none session s found ok = regenerate-TillsOk session s found ok
  stored_pdf-TillsOk (some path) session s found ok =
      if-cases Keeps (exists path) _ _ (λ there. ok) (λ gone. regenerate-TillsOk session s found ok)

  closed_pdf-TillsOk :
      (b : Bool) (session : TillSession) (s : Store)
      → Table.find till_key session.id s.till_sessions ≡ some session
      → TillsOk s.till_sessions
      → Keeps (closed_pdf exists render b session s)
  unfolding closed_pdf
  closed_pdf-TillsOk true session s found ok = ok
  closed_pdf-TillsOk false session s found ok =
      stored_pdf-TillsOk session.pdf_path session s found ok

  session_pdf-TillsOk :
      (id : Text) (s : Store) → TillsOk s.till_sessions → Keeps (session_pdf exists render id s)
  unfolding session_pdf
  session_pdf-TillsOk id s ok = elim (Option-cases (Table.find till_key id s.till_sessions)) [
    | inl missing ↦ rw (session_pdf, missing) ok
    | inr (session, found) ↦
        rw (session_pdf, found)
          (closed_pdf-TillsOk (is_opened session.status) session s
            (Table.self_found till_key id s.till_sessions session found) ok)
  ]

-- Over any sequence of openings, closings, attributions and report requests, accepted or refused and
-- with any renderer, the ids of the till sessions stay distinct and a cashier has at most one open
-- session.
pub Shifts-TillsOk :
    {s s' : Store} → Shifts s s' → TillsOk s.till_sessions → TillsOk s'.till_sessions
Shifts-TillsOk no_call ok = ok
Shifts-TillsOk {s} (opens id now cashier_id terminal_id counts fresh later) ok =
    Shifts-TillsOk later (open_session-TillsOk id now cashier_id terminal_id counts s fresh ok)
Shifts-TillsOk {s} (closes now cashier_id counts render later) ok =
    Shifts-TillsOk later (close_session-TillsOk now cashier_id counts render s ok)
Shifts-TillsOk {s} (attributes is_refund txn later) ok =
    Shifts-TillsOk later (attribute_transaction-TillsOk is_refund txn s ok)
Shifts-TillsOk {s} (shows exists render id later) ok =
    Shifts-TillsOk later (session_pdf-TillsOk exists render id s ok)
