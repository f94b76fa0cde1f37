-- ===== src/Prices/Rows.antt =====
-- What `import_csv` of `pos_service/services/pricing.py` makes of the rows that `csv.reader` yields.
use hightower_pos.Prelude.{
  ℕ, ◌+◌, Bool, true, false, ◌&&◌, not, Option, none, some, List, [], ◌∷◌, ◌++◌, if◌then◌else◌, leb,
  ◌==◌,
}
use hightower_pos.Prelude.Int.{ℤ, pos}
use hightower_pos.Prelude.Text.{Text, codes, text_eq, strip}
use hightower_pos.Model.{
  RejectReason, missing_columns, empty_sku, price_not_numeric, price_negative, RejectedLine,
}
use hightower_pos.Prices.Decimal.{Decimal, finite, infinite, nan, decimal, to_cents}

-- A data row's end: a price to store, a rejected line, or an exception that nothing handles.
pub data Verdict : Type 0 where
  priced : (sku : Text) (cents : ℤ) → Verdict
  rejected : RejectReason → Verdict
  row_crashes : Verdict

-- A number that compares below zero is rejected; comparing `NaN` and rounding an infinite price raise
-- InvalidOperation outside the `try`.
unfoldable pub price_verdict : Text → Decimal → Verdict
unfolding to_cents
price_verdict sku nan = row_crashes
price_verdict sku (infinite true) = rejected price_negative
price_verdict sku (infinite false) = row_crashes
price_verdict sku (finite is_negative coefficient exponent) =
    if is_negative && not (coefficient == 0)
    then rejected price_negative
    else elim (to_cents coefficient exponent) [
      | none ↦ row_crashes
      | some cents ↦ priced sku (pos cents)
    ]

unfoldable pub fields_verdict : (sku price_text : Text) → Verdict
unfolding price_verdict decimal
fields_verdict [] price_text = rejected empty_sku
fields_verdict (c ∷ sku) price_text = elim (decimal price_text) [
  | none ↦ rejected price_not_numeric
  | some price ↦ price_verdict (c ∷ sku) price
]

unfoldable pub row_verdict : List Text → Verdict
unfolding fields_verdict
row_verdict [] = rejected missing_columns
row_verdict (cell ∷ []) = rejected missing_columns
row_verdict (first ∷ second ∷ rest) = fields_verdict (strip first) (strip second)

abbrev is_blank : Text → Bool
is_blank [] = true
is_blank (c ∷ text) = false

-- `not row or all(not cell.strip() for cell in row)`
unfoldable pub is_blank_row : List Text → Bool
is_blank_row [] = true
is_blank_row (cell ∷ row) = is_blank (strip cell) && is_blank_row row

-- The rows that are not blank with their numbers, from a number on.
unfoldable pub data_rows : ℕ → List (List Text) → List (ℕ × List Text)
unfolding is_blank_row
data_rows row_num [] = []
data_rows row_num (row ∷ rows) =
    let rest = data_rows (row_num + 1) rows in
    if is_blank_row row then rest else (row_num, row) ∷ rest

-- `",".join(row)`
unfoldable pub join_cells : List Text → Text
join_cells [] = []
join_cells (cell ∷ []) = cell
join_cells (cell ∷ next ∷ row) = cell ++ b',' ∷ join_cells (next ∷ row)

-- `upserts` and `rejected` as the loop over the rows fills them: `none` where it raises.
abbrev pub Sorted : Type 0
Sorted = List (Text × ℤ) × List RejectedLine

-- What one row adds in front of what the rows after it give.
unfoldable pub add_row : (row_num : ℕ) (row : List Text) → Verdict → Option Sorted → Option Sorted
unfolding join_cells
add_row row_num row verdict none = none
add_row row_num row row_crashes (some rest) = none
add_row row_num row (priced sku cents) (some (upserts, lines)) =
    some ((sku, cents) ∷ upserts, lines)
add_row row_num row (rejected why) (some (upserts, lines)) =
    some (upserts, record { row = row_num; raw = join_cells row; reason = why } ∷ lines)

unfoldable pub sort_rows : List (ℕ × List Text) → Option Sorted
unfolding add_row row_verdict
sort_rows [] = some ([], [])
sort_rows ((row_num, row) ∷ rows) = add_row row_num row (row_verdict row) (sort_rows rows)

-- `lower` decides the comparison with the expected header: besides the capital letters only the Kelvin
-- sign has a lower case among the header's letters.
abbrev lower_letter : ℕ → ℕ
lower_letter c = if leb b'A' c && leb c b'Z' then c + 32 else if c == 8490 then b'k' else c

abbrev lowered : Text → Text
lowered [] = []
lowered (c ∷ text) = lower_letter c ∷ lowered text

-- `normalized_header == EXPECTED_HEADER`
unfoldable pub is_expected_header : List Text → Bool
is_expected_header (first ∷ second ∷ []) =
    text_eq (lowered (strip first)) (codes "sku")
    && text_eq (lowered (strip second)) (codes "price")
is_expected_header _ = false
