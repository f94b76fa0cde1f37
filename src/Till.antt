-- ===== src/Till.antt =====
-- Till sessions: `pos_service/services/till.py`, and the expected closing amount that
-- `current_till` of `pos_service/routes/till.py` reports.
pub mod Counting
pub mod OneOpen
pub mod Closing
pub mod Tallies
mod Tests
use hightower_pos.Prelude.{
  ℕ, ◌+◌, ◌≡◌, refl, ◌⊎◌, inl, inr, Bool, true, false, ◌&&◌, not, Option, none, some, List, [], ◌∷◌,
  if◌then◌else◌,
}
use hightower_pos.Prelude.Int.{ℤ, pos, ◌+ℤ◌, ◌-ℤ◌, ◌*ℤ◌, ltb_ℤ}
use hightower_pos.Prelude.Text.{Text, text_eq, codes}
use hightower_pos.Table
use hightower_pos.Model.{
  Txn, TillSession, User, TillStatus, opened, closed, is_cash, is_opened, Store, save_till,
  till_key, user_key,
}

-- A dict of counts, in insertion order.
abbrev pub Counts : Type 0
Counts = List (Text × ℤ)

abbrev pub denominations : List (Text × ℕ)
denominations =
    (codes "hundred", 10000)
    ∷ (codes "fifty", 5000)
    ∷ (codes "twenty", 2000)
    ∷ (codes "ten", 1000)
    ∷ (codes "five", 500)
    ∷ (codes "one", 100)
    ∷ (codes "quarter", 25)
    ∷ (codes "dime", 10)
    ∷ (codes "nickel", 5)
    ∷ (codes "penny", 1)
    ∷ []

-- `TillError.code` with its details.
pub data TillError : Type 0 where
  invalid_denomination : (bad_key : Text) → TillError
  negative_or_non_integer_count : (bad_key : Text) (value : ℤ) → TillError
  already_open : (existing_session_id : Text) → TillError
  no_open_session : TillError

abbrev pub status_code : TillError → ℕ
status_code (invalid_denomination _) = 400
status_code (negative_or_non_integer_count _ _) = 400
status_code (already_open _) = 409
status_code no_open_session = 409

pub data TillResult (A : Type 0) : Type 0 where
  accepted : A → TillResult A
  refused : TillError → TillResult A

pub TillResult-cases :
    {A : Type 0} (r : TillResult A)
    → ((a : A) × (r ≡ accepted a)) ⊎ ((e : TillError) × (r ≡ refused e))
TillResult-cases (accepted a) = inl (a, refl)
TillResult-cases (refused e) = inr (e, refl)

-- `key in DENOMINATION_KEYS`
unfoldable pub is_denomination : List (Text × ℕ) → Text → Bool
is_denomination [] k = false
is_denomination ((name, value) ∷ table) k = if text_eq name k then true else is_denomination table k

-- The loop over the keys: the first one that is no denomination.
unfoldable pub unknown_key : List (Text × ℕ) → Counts → Option Text
unfolding is_denomination
unknown_key table [] = none
unknown_key table ((k, n) ∷ counts) =
    if is_denomination table k then unknown_key table counts else some k

-- `counts.get(name, 0)`
unfoldable pub count_of : Text → Counts → ℤ
count_of name [] = pos 0
count_of name ((k, n) ∷ counts) = if text_eq k name then n else count_of name counts

-- The loop over the denominations, with the total so far.
unfoldable pub sum_counts : List (Text × ℕ) → Counts → ℤ → TillResult ℤ
unfolding count_of
sum_counts [] counts total = accepted total
sum_counts ((name, value_cents) ∷ table) counts total =
    let qty = count_of name counts in
    let rest = sum_counts table counts (total +ℤ qty *ℤ pos value_cents) in
    if ltb_ℤ qty (pos 0) then refused (negative_or_non_integer_count name qty) else rest

unfoldable pub denominations_to_cents : Counts → TillResult ℤ
unfolding unknown_key sum_counts
denominations_to_cents counts = elim (unknown_key denominations counts) [
  | some k ↦ refused (invalid_denomination k)
  | none ↦ sum_counts denominations counts (pos 0)
]

abbrev pub is_open_for : Text → TillSession → Bool
is_open_for cashier_id t = text_eq t.cashier_id cashier_id && is_opened t.status

unfoldable pub get_open_session : Text → Store → Option TillSession
get_open_session cashier_id s = Table.first (is_open_for cashier_id) s.till_sessions

-- The row of a session that opens with `opening_float` cents in the drawer.
unfoldable pub new_session :
    (id : Text) (now : ℕ) (cashier_id terminal_id : Text) → Counts → ℤ → TillSession
new_session id now cashier_id terminal_id opening_denominations opening_float = record {
  id = id;
  cashier_id = cashier_id;
  terminal_id = terminal_id;
  status = opened;
  opening_float_cents = opening_float;
  opening_denominations = opening_denominations;
  closing_count_cents = none;
  closing_denominations = none;
  expected_closing_cents = none;
  variance_cents = none;
  cash_sales_cents = pos 0;
  cash_refunds_cents = pos 0;
  transaction_count = 0;
  cash_transaction_count = 0;
  opened_at = now;
  closed_at = none;
  pdf_path = none;
}

-- `id` is the fresh uuid and `now` the time of the insert.
unfoldable pub open_session :
    (id : Text) (now : ℕ) (cashier_id terminal_id : Text)
    → Counts
    → Store
    → TillResult TillSession × Store
unfolding get_open_session denominations_to_cents new_session
open_session id now cashier_id terminal_id opening_denominations s =
    elim (get_open_session cashier_id s) [
      | some existing ↦ (refused (already_open existing.id), s)
      | none ↦ elim (denominations_to_cents opening_denominations) [
        | refused e ↦ (refused e, s)
        | accepted opening_float ↦
            let session =
              new_session id now cashier_id terminal_id opening_denominations opening_float in
            (
              accepted session,
              record s { till_sessions = Table.insert till_key session s.till_sessions },
            )
      ]
    ]

abbrev pub expected_closing : TillSession → ℤ
expected_closing t = t.opening_float_cents +ℤ t.cash_sales_cents -ℤ t.cash_refunds_cents

-- `render` is `render_close_report`: a path, or `none` where it raises. It is `none` as a whole when
-- the caller passes no settings.
abbrev pub Renderer : Type 0
Renderer = Option (TillSession → User → Option Text)

unfoldable pub try_render_pdf : Renderer → TillSession → Store → TillSession × Store
try_render_pdf none session s = (session, s)
try_render_pdf (some render) session s = elim (Table.find user_key session.cashier_id s.users) [
  | none ↦ (session, s)
  | some user ↦ elim (render session user) [
    | none ↦ (session, s)
    | some path ↦
        let done : TillSession = record session { pdf_path = some path } in (done, save_till done s)
  ]
]

-- The row that `close_session` commits before it renders the report.
unfoldable pub close_row : ℕ → Counts → ℤ → TillSession → TillSession
close_row now closing_denominations closing_count session = record session {
  status = closed;
  closing_denominations = some closing_denominations;
  closing_count_cents = some closing_count;
  expected_closing_cents = some (expected_closing session);
  variance_cents = some (closing_count -ℤ expected_closing session);
  closed_at = some now;
}

unfoldable pub close_session :
    (now : ℕ) (cashier_id : Text) → Counts → Renderer → Store → TillResult TillSession × Store
unfolding get_open_session denominations_to_cents close_row try_render_pdf
close_session now cashier_id closing_denominations render s = elim (get_open_session cashier_id s) [
  | none ↦ (refused no_open_session, s)
  | some session ↦ elim (denominations_to_cents closing_denominations) [
    | refused e ↦ (refused e, s)
    | accepted closing_count ↦
        let row = close_row now closing_denominations closing_count session in
        let (done, s') = try_render_pdf render row (save_till row s) in (accepted done, s')
  ]
]

-- The session after one more transaction.
unfoldable pub tally : Bool → Txn → TillSession → TillSession
tally is_refund txn session =
    if is_cash txn.payment_method
    then (if is_refund
        then record session {
          transaction_count = session.transaction_count + 1;
          cash_transaction_count = session.cash_transaction_count + 1;
          cash_refunds_cents = session.cash_refunds_cents +ℤ txn.total_cents;
        }
        else record session {
          transaction_count = session.transaction_count + 1;
          cash_transaction_count = session.cash_transaction_count + 1;
          cash_sales_cents = session.cash_sales_cents +ℤ txn.total_cents;
        })
    else record session { transaction_count = session.transaction_count + 1 }

-- The caller commits: the stamped transaction comes back, and the session is saved.
unfoldable pub attribute_transaction : (is_refund : Bool) → Txn → Store → Txn × Store
unfolding get_open_session tally
attribute_transaction is_refund txn s = elim (get_open_session txn.cashier_id s) [
  | none ↦ (txn, s)
  | some session ↦
      (record txn { till_session_id = some session.id }, save_till (tally is_refund txn session) s)
]
