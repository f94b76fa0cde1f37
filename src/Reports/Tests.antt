-- ===== src/Reports/Tests.antt =====
-- Examples for the results on the reports: a closed till whose report is drawn on demand.
use hightower_pos.Prelude.{
  ◌≡◌, ◌↔◌, refl, true, false, none, some, List, [], ◌∷◌, map, Option, Bool-cases, inl, inr, arith,
}
use hightower_pos.Prelude.Int.{pos}
use hightower_pos.Prelude.Text.{Text, codes, text_eq}
use hightower_pos.Table
use hightower_pos.Model.{TillSession, User, Store, closed, save_till, till_key}
use hightower_pos.Samples.{shop, till_session}
use hightower_pos.Till.{Counts, open_session, close_session}
use hightower_pos.Till.OneOpen.{TillsOk}
use hightower_pos.Reports.Shifts.{no_call, opens, closes, Shifts-TillsOk}
use hightower_pos.Reports.Tills.{SessionQuery, list_sessions, session_summary, is_listed}
use hightower_pos.Reports.Pdf.{session_pdf, served_file}
use hightower_pos.Reports.Served.{session_pdf_again}
use hightower_pos.Reports.Listed.{Asks, IsPage, list_sessions-IsPage}

abbrev closed_session : TillSession
closed_session = record till_session { status = closed; closed_at = some 9 }

abbrev ann : User
ann = record {
  username = codes "ann";
  password_hash = [];
  display_name = codes "Ann";
  is_active = true;
  must_change_password = true;
  created_at = 0;
}

abbrev closed_shop : Store
closed_shop = record shop { till_sessions = closed_session ∷ []; users = ann ∷ [] }

abbrev drawn : TillSession → User → Option Text
drawn session user = some (codes "t.pdf")

abbrev all_closed : SessionQuery
all_closed = record {
  cashier_id = none;
  from = some 0;
  to = none;
  status = some (codes "CLOSED");
  limit = 50;
  offset = 0;
}

list_sessions-IsPage_example :
    ((rows : List TillSession) × (list_sessions all_closed closed_shop ≡ map session_summary rows)
      × IsPage (λ r. r.opened_at) (is_listed all_closed) 50 0 closed_shop.till_sessions rows)
    × ((row : TillSession) → (is_listed all_closed row ≡ true) ↔ Asks all_closed row)
list_sessions-IsPage_example = list_sessions-IsPage all_closed closed_shop

abbrev drawn_shop : Store
drawn_shop = save_till (record closed_session { pdf_path = some (codes "t.pdf") }) closed_shop

session_pdf_again_example :
    ((session : TillSession) × (Table.find till_key (codes "t") drawn_shop.till_sessions
        ≡ some session)
      × (session.pdf_path ≡ some (codes "t.pdf")))
    × (session_pdf (λ path. true) (λ session user. none) (codes "t") drawn_shop
        ≡ (served_file (codes "t.pdf"), drawn_shop))
unfolding session_pdf Table.find Table.put
session_pdf_again_example =
    session_pdf_again (λ path. false) (λ path. true) drawn (λ session user. none) (codes "t")
      closed_shop drawn_shop (codes "t.pdf") refl refl

one_till : TillsOk shop.till_sessions
unfolding Table.find Table.count
one_till = record {
  keyed = (refl, tt);
  one_open = λ c. elim (Bool-cases (text_eq (codes "ann") c)) [
    | inl here ↦ rw here (omega arith)
    | inr other ↦ rw other (omega arith)
  ];
}

abbrev float : Counts
float = (codes "twenty", pos 3) ∷ []

abbrev after_bob : Store
after_bob = (open_session (codes "u") 9 (codes "bob") (codes "T2") float shop).1

abbrev after_close : Store
after_close = (close_session 20 (codes "ann") float none after_bob).1

Shifts-TillsOk_example : TillsOk after_close.till_sessions
unfolding Table.find
Shifts-TillsOk_example =
    Shifts-TillsOk
      (opens (codes "u") 9 (codes "bob") (codes "T2") float refl
        (closes {s = after_bob} 20 (codes "ann") float none no_call))
      one_till
