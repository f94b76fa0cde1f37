-- ===== src/Reports/Pdf.antt =====
-- `session_pdf` and `close_till` of `pos_service/routes/till.py`. The file system and the drawing library
-- are parameters.
use hightower_pos.Prelude.{ℕ, Bool, true, false, Option, none, some, if◌then◌else◌}
use hightower_pos.Prelude.Int.{ℤ}
use hightower_pos.Prelude.Text.{Text}
use hightower_pos.Table
use hightower_pos.Model.{
  TillSession, TillStatus, User, Store, is_opened, till_key, user_key, save_till,
}
use hightower_pos.Till.{Counts, TillResult, accepted, refused, close_session}
use hightower_pos.Reports.Tills.{pdf_url}

pub data PdfReply : Type 0 where
  served_file : (path : Text) → PdfReply
  session_not_found session_not_closed cashier_not_found pdf_render_failed : PdfReply

unfoldable pub pdf_status : PdfReply → ℕ
pdf_status (served_file path) = 200
pdf_status session_not_found = 404
pdf_status session_not_closed = 404
pdf_status cashier_not_found = 500
pdf_status pdf_render_failed = 500

module _ (exists : Text → Bool) (render : TillSession → User → Option Text) where
  -- The stored path is missing or its file is: the report is drawn again and its path is committed.
  unfoldable pub regenerate : TillSession → Store → PdfReply × Store
  regenerate session s = elim (Table.find user_key session.cashier_id s.users) [
    | none ↦ (cashier_not_found, s)
    | some user ↦ elim (render session user) [
      | none ↦ (pdf_render_failed, s)
      | some path ↦ (served_file path, save_till (record session { pdf_path = some path }) s)
    ]
  ]

  unfoldable pub stored_pdf : (pdf_path : Option Text) → TillSession → Store → PdfReply × Store
  unfolding regenerate
  stored_pdf none session s = regenerate session s
  stored_pdf (some path) session s =
      if exists path then (served_file path, s) else regenerate session s

  -- The flag is `session.status == "OPEN"`.
  unfoldable pub closed_pdf : (is_open : Bool) → TillSession → Store → PdfReply × Store
  unfolding stored_pdf
  closed_pdf true session s = (session_not_closed, s)
  closed_pdf false session s = stored_pdf session.pdf_path session s

  unfoldable pub session_pdf : (session_id : Text) → Store → PdfReply × Store
  unfolding closed_pdf
  session_pdf session_id s = elim (Table.find till_key session_id s.till_sessions) [
    | none ↦ (session_not_found, s)
    | some session ↦ closed_pdf (is_opened session.status) session s
  ]

-- `CloseTillResponse`; the four values that the route asserts are set by the closing.
pub record ClosedTill : Type 0 where
  pub session_id : Text
  pub status : TillStatus
  pub opening_float_cents : ℤ
  pub cash_sales_cents : ℤ
  pub cash_refunds_cents : ℤ
  pub expected_closing_cents : Option ℤ
  pub closing_count_cents : Option ℤ
  pub variance_cents : Option ℤ
  pub pdf_url : Text
  pub closed_at : Option ℕ

unfoldable pub closed_till : TillSession → ClosedTill
unfolding pdf_url
closed_till session = record {
  session_id = session.id;
  status = session.status;
  opening_float_cents = session.opening_float_cents;
  cash_sales_cents = session.cash_sales_cents;
  cash_refunds_cents = session.cash_refunds_cents;
  expected_closing_cents = session.expected_closing_cents;
  closing_count_cents = session.closing_count_cents;
  variance_cents = session.variance_cents;
  pdf_url = pdf_url session.id;
  closed_at = session.closed_at;
}

-- The route passes its settings, so the report is drawn.
unfoldable pub close_till :
    (render : TillSession → User → Option Text) (now : ℕ) (username : Text)
    → Counts
    → Store
    → TillResult ClosedTill × Store
unfolding close_session closed_till
close_till render now username closing_denominations s =
    let (r, s') = close_session now username closing_denominations (some render) s in (shown r, s')
  where
    shown : TillResult TillSession → TillResult ClosedTill
    shown (refused e) = refused e
    shown (accepted session) = accepted (closed_till session)
