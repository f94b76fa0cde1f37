-- ===== src/Prices/Accounts.antt =====
-- What an import of `pos_service/services/pricing.py` stores and reports.
use hightower_pos.Prelude.{
  Option-cases, inl, inr, subst, ◌≢◌, ℕ, ◌+◌, ◌≤◌, ◌≡◌, refl, ap, ◌∙◌, true, false, not, Option,
  none, some, List, [], ◌∷◌, ◌++◌, arith, ltb, length, length-take, if-cases,
}
use hightower_pos.Prelude.Int.{ℤ}
use hightower_pos.Prelude.Text.{strip, Text}
use hightower_pos.Model.{Store, RejectedLine, PriceImport}
use hightower_pos.Prices.{storable}
use hightower_pos.Prices.Decimal.{Decimal, decimal, finite, infinite, nan, to_cents}
use hightower_pos.Prices.Rows.{
  fields_verdict, price_verdict, Verdict, Verdict, priced, rejected, row_crashes, row_verdict,
  add_row, sort_rows, data_rows, Sorted, is_expected_header,
}
use hightower_pos.Prices.Import.{
  import_csv, commit_import, ImportResult, ImportEnd, imported, refused, import_crashes, audit_row,
}
use hightower_pos.Prices.Stamps.{time, time-imported_all}
use hightower_pos.Prices.Refines.{view, override_all, view-upsert_all}

-- The prices that the rows give, by what each row says alone.
abbrev pub accepted : List (ℕ × List Text) → List (Text × ℤ)
accepted [] = []
accepted ((row_num, row) ∷ rows) =
    let rest = accepted rows in
    elim (row_verdict row) [
      | priced sku cents ↦ (sku, cents) ∷ rest
      | rejected why ↦ rest
      | row_crashes ↦ rest
    ]

-- The loop keeps the accepted rows in order and puts every other row among the rejected lines.
pub record IsSorted (rows : List (ℕ × List Text)) (sorted : Sorted) : Type 0 where
  pub all_accepted : sorted.0 ≡ accepted rows
  pub all_counted : length sorted.0 + length sorted.1 ≡ length rows

abbrev IsSortedIfAny : List (ℕ × List Text) → Option Sorted → Type 0
IsSortedIfAny rows none = Unit
IsSortedIfAny rows (some sorted) = IsSorted rows sorted

add_row-IsSorted :
    (row_num : ℕ) (row : List Text) (rows : List (ℕ × List Text)) (v : Verdict)
    (rest : Option Sorted)
    → row_verdict row ≡ v
    → IsSortedIfAny rows rest
    → IsSortedIfAny ((row_num, row) ∷ rows) (add_row row_num row v rest)
unfolding add_row
add_row-IsSorted row_num row rows v none e h = tt
add_row-IsSorted row_num row rows row_crashes (some rest) e h = tt
add_row-IsSorted row_num row rows (priced sku cents) (some (upserts, lines)) e h = record {
  all_accepted = rw (accepted, e) (ap (λ r. (sku, cents) ∷ r) h.all_accepted);
  all_counted = omega (arith, h.all_counted);
}
add_row-IsSorted row_num row rows (rejected why) (some (upserts, lines)) e h = record {
  all_accepted = rw (accepted, e) h.all_accepted;
  all_counted = omega (arith, h.all_counted);
}

sort_rows-IsSorted : (rows : List (ℕ × List Text)) → IsSortedIfAny rows (sort_rows rows)
unfolding sort_rows
sort_rows-IsSorted [] = record { all_accepted = refl; all_counted = refl }
sort_rows-IsSorted ((row_num, row) ∷ rows) =
    add_row-IsSorted row_num row rows (row_verdict row) (sort_rows rows) refl
      (sort_rows-IsSorted rows)

-- A successful import of `rows`, the data rows.
pub record Imports (max_rows : ℕ) (rows : List (ℕ × List Text)) (s s' : Store) (r : ImportResult)
    : Type 0 where
  pub within : length rows ≤ max_rows
  pub overrides : (k : Text) → view s'.prices k ≡ override_all (accepted rows) (view s.prices) k
  pub dated : (k : Text) (t : ℕ) → time s.prices k ≡ some t → time s'.prices k ≡ some t
  pub counted_imports : r.rows_imported ≡ length (accepted rows)
  pub counted_all : r.rows_imported + r.rows_rejected ≡ length rows
  pub capped : length r.rejected_lines ≤ 100
  pub audited :
      (audit : PriceImport) × (s'.price_imports ≡ s.price_imports ++ audit ∷ [])
      × (audit.id ≡ r.import_id)
      × (audit.rows_imported ≡ r.rows_imported)
      × (audit.rows_rejected ≡ r.rows_rejected)
  pub untouched : s' ≡ record s { prices = s'.prices; price_imports = s'.price_imports }

-- An import on every branch.
abbrev pub ImportOutcome :
    (max_rows : ℕ) (rows : List (List Text)) → Store → ImportEnd × Store → Type 0
ImportOutcome max_rows [] s (imported r, s') = ⊥
ImportOutcome max_rows (header ∷ rows) s (imported r, s') =
    (is_expected_header header ≡ true) × Imports max_rows (data_rows 2 rows) s s' r
ImportOutcome max_rows rows s (refused e, s') = s' ≡ s
ImportOutcome max_rows rows s (import_crashes, s') = s' ≡ s

commit_import-Outcome :
    (now : ℕ) (header : List Text) (rows : List (List Text)) (filename imported_by : Text)
    (max_rows : ℕ) (s : Store) (upserts : List (Text × ℤ)) (lines : List RejectedLine)
    → is_expected_header header ≡ true
    → length (data_rows 2 rows) ≤ max_rows
    → IsSorted (data_rows 2 rows) (upserts, lines)
    → ImportOutcome max_rows
        (header ∷ rows)
        s
        (commit_import now filename imported_by (upserts, lines) s)
unfolding commit_import audit_row
commit_import-Outcome now header rows filename imported_by max_rows s upserts lines good within
      sorted =
    if-cases (ImportOutcome max_rows (header ∷ rows) s) (storable upserts) _ _
      (λ fine. (
        good,
        record {
          within = within;
          overrides = λ k.
              view-upsert_all false now upserts s.prices k
              ∙ ap (λ r. override_all r (view s.prices) k) sorted.all_accepted;
          dated = time-imported_all now upserts s.prices;
          counted_imports = ap length sorted.all_accepted;
          counted_all = sorted.all_counted;
          capped = omega (arith, length-take 100 lines);
          audited = (
            audit_row now filename imported_by (upserts, lines) s.price_imports,
            refl,
            refl,
            refl,
            refl,
          );
          untouched = refl;
        },
      ))
      (λ large. refl)

-- An import on every branch: a refused import and one that ends in an exception store nothing; a
-- successful one had the expected header and no more data rows than the cap, overrides the prices with
-- the rows that are accepted, the last row of a SKU counting, but leaves the time of a price that is
-- there, counts every data row as imported or rejected, reports at most a hundred rejected lines, adds the audit row that it reports, and changes
-- nothing else.
pub import_csv-ImportOutcome :
    (now : ℕ) (rows : List (List Text)) (filename imported_by : Text) (max_rows : ℕ) (s : Store)
    → ImportOutcome max_rows rows s (import_csv now rows filename imported_by max_rows s)
unfolding import_csv
import_csv-ImportOutcome now [] filename imported_by max_rows s = refl
import_csv-ImportOutcome now (header ∷ rows) filename imported_by max_rows s =
    if-cases (ImportOutcome max_rows (header ∷ rows) s) (not (is_expected_header header)) _ _
      (λ bad. refl)
      (λ good.
        if-cases (ImportOutcome max_rows (header ∷ rows) s)
          (ltb max_rows (length (data_rows 2 rows))) _ _ (λ many. refl)
          (λ few.
            ended (ground (arith, good)) (ground (arith, few)) (sort_rows (data_rows 2 rows))
              (sort_rows-IsSorted (data_rows 2 rows))))
  where
    ended :
        is_expected_header header ≡ true
        → length (data_rows 2 rows) ≤ max_rows
        → (o : Option Sorted) → IsSortedIfAny (data_rows 2 rows) o
        → (let out : ImportEnd × Store = elim o [
          | none ↦ (import_crashes, s)
          | some sorted ↦ commit_import now filename imported_by sorted s
        ] in
            ImportOutcome max_rows (header ∷ rows) s out)
    ended good within none h = refl
    ended good within (some (upserts, lines)) h =
        commit_import-Outcome now header rows filename imported_by max_rows s upserts lines good
          within h

crash-sort_rows :
    (before after : List (ℕ × List Text)) (row_num : ℕ) (row : List Text)
    → row_verdict row ≡ row_crashes
    → sort_rows (before ++ (row_num, row) ∷ after) ≡ none
unfolding sort_rows add_row
crash-sort_rows [] after row_num row e = rw (sort_rows, e) (crash_front (sort_rows after))
  where
    crash_front : (o : Option Sorted) → add_row row_num row row_crashes o ≡ none
    crash_front none = refl
    crash_front (some (upserts, lines)) = refl
crash-sort_rows ((n, r) ∷ before) after row_num row e =
    rw (sort_rows, crash-sort_rows before after row_num row e) refl

-- A price that passes as a number, but compares or rounds with InvalidOperation: NaN, a positive
-- infinity, and an amount whose cents need more digits than the context has.
abbrev pub IsUnpriceable : Option Decimal → Type 0
IsUnpriceable none = ⊥
IsUnpriceable (some nan) = Unit
IsUnpriceable (some (infinite true)) = ⊥
IsUnpriceable (some (infinite false)) = Unit
IsUnpriceable (some (finite true coefficient exponent)) = ⊥
IsUnpriceable (some (finite false coefficient exponent)) = to_cents coefficient exponent ≡ none

price-crashes :
    (sku : Text) (price : Decimal)
    → IsUnpriceable (some price)
    → price_verdict sku price ≡ row_crashes
unfolding price_verdict
price-crashes sku nan h = refl
price-crashes sku (infinite true) h = absurd h
price-crashes sku (infinite false) h = refl
price-crashes sku (finite true coefficient exponent) h = absurd h
price-crashes sku (finite false coefficient exponent) h = rw h refl

row-crashes :
    (first second : Text) (rest : List Text)
    → strip first ≢ []
    → IsUnpriceable (decimal (strip second))
    → row_verdict (first ∷ second ∷ rest) ≡ row_crashes
unfolding row_verdict
row-crashes first second rest filled h = fields (strip first) filled
  where
    fields : (sku : Text) → sku ≢ [] → fields_verdict sku (strip second) ≡ row_crashes
    fields [] filled = absurd (filled refl)
    fields (c ∷ sku) filled = elim (Option-cases (decimal (strip second))) [
      | inl unread ↦ absurd (subst IsUnpriceable unread h)
      | inr (price, reads) ↦
          rw (reads, fields_verdict) (price-crashes (c ∷ sku) price (subst IsUnpriceable reads h))
    ]

-- One data row with a SKU and a price cell that reads as NaN, as a positive infinity or as an amount
-- beyond the digits of the context ends the import of a file that is otherwise in order with an
-- exception: nothing of the file is stored, and no line is reported.
pub import_csv-crashes :
    (now : ℕ) (header : List Text) (rows : List (List Text)) (filename imported_by : Text)
    (max_rows : ℕ) (s : Store) (before after : List (ℕ × List Text)) (row_num : ℕ)
    (first second : Text) (rest : List Text)
    → is_expected_header header ≡ true
    → length (data_rows 2 rows) ≤ max_rows
    → data_rows 2 rows ≡ before ++ (row_num, first ∷ second ∷ rest) ∷ after
    → strip first ≢ []
    → IsUnpriceable (decimal (strip second))
    → import_csv now (header ∷ rows) filename imported_by max_rows s ≡ (import_crashes, s)
unfolding import_csv
import_csv-crashes now header rows filename imported_by max_rows s before after row_num first second
      rest good within split filled spoilt =
    let none_sorted : sort_rows (data_rows 2 rows) ≡ none =
      ap sort_rows split
      ∙ crash-sort_rows before after row_num (first ∷ second ∷ rest)
          (row-crashes first second rest filled spoilt) in
    let few : ltb max_rows (length (data_rows 2 rows)) ≡ false = ground (arith, within) in
    rw (import_csv, good, few, none_sorted) refl
