-- ===== src/Prices.antt =====
-- The prices of `pos_service/services/pricing.py` and `pos_service/services/fabric_price_sync.py`.
pub mod Decimal
pub mod Rows
pub mod Import
pub mod Sync
pub mod Refines
pub mod Stamps
pub mod Synced
pub mod Accounts
pub mod Listing
pub mod HalfUp
mod Tests
use hightower_pos.Prelude.{
  ℕ, ◌^◌, Bool, true, false, ◌&&◌, Option, none, some, List, [], ◌∷◌, if◌then◌else◌,
}
use hightower_pos.Prelude.Int.{ℤ, pos, negsuc, magnitude, ltb_ℤ}
use hightower_pos.Prelude.Text.{Text, text_eq}
use hightower_pos.Table
use hightower_pos.Model.{Price, price_key}

-- A new row, with the time that the database sets.
abbrev pub price_row : (now : ℕ) → Text → ℤ → Price
price_row now sku cents = record { sku = sku; unit_price_cents = cents; updated_at = now }

-- The conflicting row after `DO UPDATE SET`: the sync sets the time, the import does not, and the
-- column's `onupdate` is not run by such a statement.
unfoldable pub conflicting : (sets_time : Bool) (now : ℕ) → Text → ℤ → Price → Price
conflicting true now sku cents old = price_row now sku cents
conflicting false now sku cents old = price_row old.updated_at sku cents

-- One row of `INSERT ... ON CONFLICT (sku) DO UPDATE SET`.
unfoldable pub upsert : (sets_time : Bool) (now : ℕ) → Text → ℤ → List Price → List Price
unfolding conflicting
upsert sets_time now sku cents prices = elim (Table.find price_key sku prices) [
  | none ↦ Table.insert price_key (price_row now sku cents) prices
  | some old ↦ Table.put price_key (conflicting sets_time now sku cents old) prices
]

-- The rows of one statement, in order.
unfoldable pub upsert_all : (sets_time : Bool) (now : ℕ) → List (Text × ℤ) → List Price → List Price
unfolding upsert
upsert_all sets_time now [] prices = prices
upsert_all sets_time now ((sku, cents) ∷ rows) prices =
    upsert_all sets_time now rows (upsert sets_time now sku cents prices)

-- An INTEGER column takes 64 bits; the driver raises OverflowError on a larger number.
abbrev pub storable : List (Text × ℤ) → Bool
storable [] = true
storable ((sku, cents) ∷ rows) =
    ltb_ℤ cents (pos (2 ^ 63)) && ltb_ℤ (negsuc (2 ^ 63)) cents && storable rows
