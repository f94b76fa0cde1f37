-- ===== src/Prices/Import.antt =====
-- `import_csv`, `list_imports` and `list_prices` of `pos_service/services/pricing.py`.
use hightower_pos.Prelude.{
  false, ℕ, ◌+◌, not, Option, none, some, List, [], ◌∷◌, ◌++◌, if◌then◌else◌, ltb, length, take,
}
use hightower_pos.Prelude.Text.{Text}
use hightower_pos.Model.{Store, PriceImport, RejectedLine}
use hightower_pos.Prices.{upsert_all, storable}
use hightower_pos.Prices.Rows.{data_rows, sort_rows, is_expected_header, Sorted}

-- `PricingError.code`, with `max` as the route reports it.
pub data PricingError : Type 0 where
  bad_header : PricingError
  too_many_rows : (max : ℕ) → PricingError

-- `ImportResult`, with the audit row that the import leaves.
pub record ImportResult : Type 0 where
  pub rows_imported : ℕ
  pub rows_rejected : ℕ
  pub rejected_lines : List RejectedLine
  pub import_id : ℕ

-- An import ends with a result, with a PricingError, or with an exception that nothing handles.
pub data ImportEnd : Type 0 where
  imported : ImportResult → ImportEnd
  refused : PricingError → ImportEnd
  import_crashes : ImportEnd

abbrev pub rejected_lines_cap : ℕ
rejected_lines_cap = 100

abbrev if_any : List RejectedLine → Option (List RejectedLine)
if_any [] = none
if_any (line ∷ lines) = some (line ∷ lines)

-- The ids count up from 1, and no row is deleted.
unfoldable pub audit_row :
    (now : ℕ) (filename imported_by : Text) → Sorted → List PriceImport → PriceImport
audit_row now filename imported_by (upserts, rejected) price_imports = record {
  id = length price_imports + 1;
  filename = filename;
  rows_imported = length upserts;
  rows_rejected = length rejected;
  rejected_lines = if_any (take rejected_lines_cap rejected);
  imported_by = imported_by;
  created_at = now;
}

-- The one commit of an import: the prices and the audit row, or nothing at all.
unfoldable pub commit_import :
    (now : ℕ) (filename imported_by : Text) → Sorted → Store → ImportEnd × Store
unfolding audit_row upsert_all
commit_import now filename imported_by (upserts, rejected) s =
    let audit = audit_row now filename imported_by (upserts, rejected) s.price_imports in
    let result : ImportResult = record {
      rows_imported = length upserts;
      rows_rejected = length rejected;
      rejected_lines = take rejected_lines_cap rejected;
      import_id = audit.id;
    } in
    if storable upserts
    then (
      imported result,
      record s {
        prices = upsert_all false now upserts s.prices;
        price_imports = s.price_imports ++ audit ∷ [];
      },
    )
    else (import_crashes, s)

-- `rows` is what `csv.reader` yields of the decoded text.
unfoldable pub import_csv :
    (now : ℕ)
    → (rows : List (List Text)) → (filename imported_by : Text) (max_rows : ℕ) → Store
    → ImportEnd × Store
unfolding is_expected_header data_rows sort_rows commit_import
import_csv now [] filename imported_by max_rows s = (refused bad_header, s)
import_csv now (header ∷ rows) filename imported_by max_rows s =
    let raw_rows = data_rows 2 rows in
    if not (is_expected_header header)
    then (refused bad_header, s)
    else if ltb max_rows (length raw_rows)
    then (refused (too_many_rows max_rows), s)
    else elim (sort_rows raw_rows) [
      | none ↦ (import_crashes, s)
      | some sorted ↦ commit_import now filename imported_by sorted s
    ]
