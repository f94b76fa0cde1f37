-- ===== src/Reports/Served.antt =====
-- Asking twice for the report of a till session, in `pos_service/routes/till.py`.
use hightower_pos.Prelude.{
  ◌≡◌, refl, sym, subst, Bool, true, false, Option, none, some, Option-cases, inl, inr, if-cases,
}
use hightower_pos.Prelude.Text.{Text}
use hightower_pos.Table
use hightower_pos.Model.{TillSession, User, Store, is_opened, till_key, user_key}
use hightower_pos.Reports.Pdf.{
  PdfReply, served_file, regenerate, stored_pdf, closed_pdf, session_pdf,
}

module _ (exists : Text → Bool) (render : TillSession → User → Option Text) (id : Text) where
  -- A closed session whose file is there is served, and nothing is written.
  served_from_disk :
      (s : Store) (session : TillSession) (path : Text)
      → Table.find till_key id s.till_sessions ≡ some session
      → is_opened session.status ≡ false
      → session.pdf_path ≡ some path
      → exists path ≡ true
      → session_pdf exists render id s ≡ (served_file path, s)
  unfolding session_pdf closed_pdf stored_pdf
  served_from_disk s session path found done stored there =
      rw (session_pdf, found)
        (subst (λ b. closed_pdf exists render b session s ≡ (served_file path, s)) (sym done)
          (subst (λ o. stored_pdf exists render o session s ≡ (served_file path, s)) (sym stored)
            (rw there refl)))

  -- What the first answer promises: the session has the path stored, it is no longer open, and a second
  -- request reads the path from the row.
  abbrev Repeats : PdfReply × Store → Type 0
  Repeats (served_file path, s') =
      ((session : TillSession) × (Table.find till_key id s'.till_sessions ≡ some session)
        × (is_opened session.status ≡ false)
        × (session.pdf_path ≡ some path))
  Repeats (_, s') = Unit

  regenerate-Repeats :
      (s : Store) (session : TillSession)
      → Table.find till_key id s.till_sessions ≡ some session
      → is_opened session.status ≡ false
      → Repeats (regenerate exists render session s)
  unfolding regenerate
  regenerate-Repeats s session found done =
      elim (Option-cases (Table.find user_key session.cashier_id s.users)) [
        | inl unknown ↦ rw (regenerate, unknown) tt
        | inr (user, known) ↦ elim (Option-cases (render session user)) [
          | inl fails ↦ rw (regenerate, known, fails) tt
          | inr (path, drawn) ↦
              rw (regenerate, known, drawn)
                (
                  record session { pdf_path = some path },
                  Table.find-put_at till_key id (record session { pdf_path = some path })
                      s.till_sessions session
                      (Table.find-key till_key id s.till_sessions session found) found,
                  done,
                  refl,
                )
        ]
      ]

  stored_pdf-Repeats :
      (s : Store) (session : TillSession) (o : Option Text)
      → Table.find till_key id s.till_sessions ≡ some session
      → is_opened session.status ≡ false
      → session.pdf_path ≡ o
      → Repeats (stored_pdf exists render o session s)
  unfolding stored_pdf
  stored_pdf-Repeats s session none found done stored = regenerate-Repeats s session found done
  stored_pdf-Repeats s session (some path) found done stored =
      if-cases Repeats (exists path) _ _ (λ there. (session, found, done, stored))
        (λ gone. regenerate-Repeats s session found done)

  closed_pdf-Repeats :
      (s : Store) (session : TillSession) (b : Bool)
      → Table.find till_key id s.till_sessions ≡ some session
      → is_opened session.status ≡ b
      → Repeats (closed_pdf exists render b session s)
  unfolding closed_pdf
  closed_pdf-Repeats s session true found is_open = tt
  closed_pdf-Repeats s session false found done =
      stored_pdf-Repeats s session session.pdf_path found done refl

  session_pdf-Repeats : (s : Store) → Repeats (session_pdf exists render id s)
  unfolding session_pdf
  session_pdf-Repeats s = elim (Option-cases (Table.find till_key id s.till_sessions)) [
    | inl missing ↦ rw (session_pdf, missing) tt
    | inr (session, found) ↦
        rw (session_pdf, found) (closed_pdf-Repeats s session (is_opened session.status) found refl)
  ]

-- Once a request for the report of a till session has served a file, drawn anew or not, the session
-- has its path stored, and whenever the file is on the disk another request serves the same file and
-- writes nothing, whatever a new drawing of the report would give.
pub session_pdf_again :
    (exists exists' : Text → Bool) (render render' : TillSession → User → Option Text) (id : Text)
    (s s' : Store) (path : Text)
    → session_pdf exists render id s ≡ (served_file path, s')
    → exists' path ≡ true
    → ((session : TillSession) × (Table.find till_key id s'.till_sessions ≡ some session)
        × (session.pdf_path ≡ some path))
      × (session_pdf exists' render' id s' ≡ (served_file path, s'))
session_pdf_again exists exists' render render' id s s' path first there =
    let (session, found, done, stored) =
      subst (Repeats exists render id) first (session_pdf-Repeats exists render id s) in
    (
      (session, found, stored),
      served_from_disk exists' render' id s' session path found done stored there,
    )
