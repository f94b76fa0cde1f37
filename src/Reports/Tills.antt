-- ===== src/Reports/Tills.antt =====
-- The till endpoints of `pos_service/routes/till.py`.
use hightower_pos.Prelude.{ℕ, Bool, true, ◌&&◌, Option, none, some, List, [], ◌∷◌, ◌++◌, leb, map}
use hightower_pos.Prelude.Int.{ℤ}
use hightower_pos.Prelude.Text.{Text, text_eq, codes}
use hightower_pos.Model.{TillSession, TillStatus, opened, closed, Store, Settings}
use hightower_pos.Till.{
  Counts, TillResult, accepted, refused, get_open_session, open_session, expected_closing,
}
use hightower_pos.Reports.{page}

unfoldable pub pdf_url : (session_id : Text) → Text
pdf_url session_id = codes "/api/till/sessions/" ++ session_id ++ codes "/pdf"

-- `TillCurrentResponse`, where a till is open.
pub record CurrentTill : Type 0 where
  pub session_id : Text
  pub opening_float_cents : ℤ
  pub cash_sales_cents : ℤ
  pub cash_refunds_cents : ℤ
  pub transaction_count : ℕ
  pub cash_transaction_count : ℕ
  pub expected_closing_cents : ℤ
  pub opened_at : ℕ

unfoldable pub current_till : (username : Text) → Store → Option CurrentTill
unfolding get_open_session
current_till username s = elim (get_open_session username s) [
  | none ↦ none
  | some session ↦ some (record {
    session_id = session.id;
    opening_float_cents = session.opening_float_cents;
    cash_sales_cents = session.cash_sales_cents;
    cash_refunds_cents = session.cash_refunds_cents;
    transaction_count = session.transaction_count;
    cash_transaction_count = session.cash_transaction_count;
    expected_closing_cents = expected_closing session;
    opened_at = session.opened_at;
  })
]

-- `OpenTillResponse`
pub record OpenedTill : Type 0 where
  pub session_id : Text
  pub opening_float_cents : ℤ
  pub opened_at : ℕ

-- The terminal is the Windcave station.
unfoldable pub open_till :
    Settings
    → (id : Text) (now : ℕ) (username : Text) → Counts
    → Store
    → TillResult OpenedTill × Store
unfolding open_session
open_till settings id now username opening_denominations s =
    let (r, s') = open_session id now username settings.windcave_station opening_denominations s in
    (shown r, s')
  where
    shown : TillResult TillSession → TillResult OpenedTill
    shown (refused e) = refused e
    shown (accepted session) = accepted (record {
      session_id = session.id;
      opening_float_cents = session.opening_float_cents;
      opened_at = session.opened_at;
    })

-- A row of the listing.
pub record SessionSummary : Type 0 where
  pub session_id : Text
  pub cashier_id : Text
  pub terminal_id : Text
  pub status : TillStatus
  pub opening_float_cents : ℤ
  pub cash_sales_cents : ℤ
  pub cash_refunds_cents : ℤ
  pub expected_closing_cents : Option ℤ
  pub closing_count_cents : Option ℤ
  pub variance_cents : Option ℤ
  pub transaction_count : ℕ
  pub cash_transaction_count : ℕ
  pub opened_at : ℕ
  pub closed_at : Option ℕ
  pub pdf_url : Option Text

abbrev url_of : TillStatus → Text → Option Text
url_of opened id = none
url_of closed id = some (pdf_url id)

unfoldable pub session_summary : TillSession → SessionSummary
unfolding pdf_url
session_summary row = record {
  session_id = row.id;
  cashier_id = row.cashier_id;
  terminal_id = row.terminal_id;
  status = row.status;
  opening_float_cents = row.opening_float_cents;
  cash_sales_cents = row.cash_sales_cents;
  cash_refunds_cents = row.cash_refunds_cents;
  expected_closing_cents = row.expected_closing_cents;
  closing_count_cents = row.closing_count_cents;
  variance_cents = row.variance_cents;
  transaction_count = row.transaction_count;
  cash_transaction_count = row.cash_transaction_count;
  opened_at = row.opened_at;
  closed_at = row.closed_at;
  pdf_url = url_of row.status row.id;
}

-- The column's text, against which the query compares the parameter.
abbrev pub status_text : TillStatus → Text
status_text opened = codes "OPEN"
status_text closed = codes "CLOSED"

-- The query parameters; `status` is `CLOSED` where the request has none.
pub record SessionQuery : Type 0 where
  pub cashier_id : Option Text
  pub from : Option ℕ
  pub to : Option ℕ
  pub status : Option Text
  pub limit : ℕ
  pub offset : ℕ

abbrev pub matches_text : Option Text → Text → Bool
matches_text none t = true
matches_text (some wanted) t = text_eq t wanted

-- An empty status includes all.
abbrev pub matches_status : Option Text → Text → Bool
matches_status none t = true
matches_status (some []) t = true
matches_status (some (c ∷ wanted)) t = text_eq t (c ∷ wanted)

abbrev pub not_before : Option ℕ → ℕ → Bool
not_before none t = true
not_before (some from) t = leb from t

abbrev pub not_after : Option ℕ → ℕ → Bool
not_after none t = true
not_after (some to) t = leb t to

unfoldable pub is_listed : SessionQuery → TillSession → Bool
is_listed q row =
    matches_text q.cashier_id row.cashier_id
    && matches_status q.status (status_text row.status)
    && not_before q.from row.opened_at
    && not_after q.to row.opened_at

unfoldable pub list_sessions : SessionQuery → Store → List SessionSummary
unfolding is_listed page session_summary
list_sessions q s =
    map session_summary (page (λ row. row.opened_at) (is_listed q) q.limit q.offset s.till_sessions)
