-- ===== src/Prices/Tests.antt =====
-- Examples for the results on prices: two good rows, a bad one and a blank one.
use hightower_pos.Prelude.{◌*◌, ◌≡◌, refl, true, false, none, some, List, [], ◌∷◌, arith}
use hightower_pos.Prelude.Int.{ℤ, pos, negsuc, ◌-ℤ◌}
use hightower_pos.Prelude.Text.{Text, codes}
use hightower_pos.Prelude.Digits.{show_ℕ}
use hightower_pos.Table
use hightower_pos.Model.{Reply, returned}
use hightower_pos.Samples.{shop}
use hightower_pos.Prices.Decimal.{decimal, finite, infinite, nan, to_cents}
use hightower_pos.Prices.Rows.{row_verdict, priced, rejected, data_rows, is_expected_header}
use hightower_pos.Prices.Import.{import_csv, import_crashes}
use hightower_pos.Prices.Sync.{sync_once}
use hightower_pos.Prices.Synced.{SyncOutcome, sync_once-SyncOutcome}
use hightower_pos.Prices.Accounts.{ImportOutcome, import_csv-ImportOutcome, import_csv-crashes}
use hightower_pos.Reports.{newest_first}
use hightower_pos.Prices.Listing.{like, list_prices, list_imports, get_price_endpoint}
use hightower_pos.Prices.HalfUp.{IsCents, to_cents-IsCents}
use hightower_pos.Model.{price_not_numeric}

plain : decimal (codes " 12.345 ") ≡ some (finite false 12345 (negsuc 2))
unfolding decimal ◌-ℤ◌
plain = refl

scientific : decimal (codes "-1_0e+2") ≡ some (finite true 10 (pos 2))
unfolding decimal ◌-ℤ◌
scientific = refl

not_a_number : decimal (codes "sNaN12") ≡ some nan
unfolding decimal
not_a_number = refl

endless : decimal (codes "-Infinity") ≡ some (infinite true)
unfolding decimal
endless = refl

bare_point : decimal (codes ".") ≡ none
unfolding decimal ◌-ℤ◌
bare_point = refl

half_up : to_cents 12345 (negsuc 2) ≡ some 1235
unfolding to_cents show_ℕ
half_up = refl

a_price : row_verdict (codes " A " ∷ codes "1.005" ∷ []) ≡ priced (codes "A") (pos 101)
unfolding row_verdict ◌-ℤ◌ show_ℕ
a_price = refl

no_price : row_verdict (codes "A" ∷ codes "1,5" ∷ []) ≡ rejected price_not_numeric
unfolding row_verdict ◌-ℤ◌
no_price = refl

abbrev file : List (List Text)
file =
    (codes "SKU" ∷ codes " Price" ∷ [])
    ∷ (codes "A" ∷ codes "5.50" ∷ [])
    ∷ []
    ∷ (codes "B" ∷ codes "cheap" ∷ [])
    ∷ (codes "A" ∷ codes "6" ∷ [])
    ∷ []

import_csv-ImportOutcome_example :
    ImportOutcome 5000 file shop (import_csv 9 file (codes "p.csv") (codes "ann") 5000 shop)
import_csv-ImportOutcome_example =
    import_csv-ImportOutcome 9 file (codes "p.csv") (codes "ann") 5000 shop

abbrev spoiled : List (List Text)
spoiled = (codes "A" ∷ codes "5.50" ∷ []) ∷ (codes "B" ∷ codes "nan" ∷ []) ∷ []

import_csv-crashes_example :
    import_csv 9
      ((codes "sku" ∷ codes "price" ∷ []) ∷ spoiled)
      (codes "p.csv")
      (codes "ann")
      5000
      shop
    ≡ (import_crashes, shop)
unfolding is_expected_header data_rows row_verdict
import_csv-crashes_example =
    import_csv-crashes 9 (codes "sku" ∷ codes "price" ∷ []) spoiled (codes "p.csv") (codes "ann")
      5000 shop ((2, codes "A" ∷ codes "5.50" ∷ []) ∷ []) [] 3 (codes "B") (codes "nan") [] refl
      (omega arith) refl (λ e. cc) tt

abbrev catalog : Reply (List (Text × ℤ))
catalog = returned ((codes "A", pos 550) ∷ (codes "B", pos 99) ∷ (codes "A", pos 600) ∷ [])

sync_once-SyncOutcome_example : SyncOutcome 9 catalog shop (sync_once 9 catalog shop)
sync_once-SyncOutcome_example = sync_once-SyncOutcome 9 catalog shop

to_cents-IsCents_example : IsCents (12345 * 100) (negsuc 2) (to_cents 12345 (negsuc 2))
unfolding to_cents show_ℕ
to_cents-IsCents_example = to_cents-IsCents 12345 (negsuc 2) (omega arith)

wildcard : like (codes "%a_1%") (codes "TEA-10") ≡ true
unfolding like
wildcard = refl

no_match : like (codes "a%") (codes "tea") ≡ false
unfolding like
no_match = refl

first_price : list_prices (some (codes "a")) 1 shop ≡ shop.prices
unfolding list_prices
first_price = refl

no_imports : list_imports 50 shop ≡ []
unfolding list_imports newest_first
no_imports = refl

missing_price : get_price_endpoint (codes "Z") shop ≡ none
unfolding get_price_endpoint Table.find
missing_price = refl
