-- ===== src/Prices/Refines.antt =====
-- The price table as a map from SKUs to prices, which the import of `pos_service/services/pricing.py`
-- and the sync of `pos_service/services/fabric_price_sync.py` override.
use hightower_pos.Prelude.{
  ℕ, zero, suc, ◌≤◌, ◌≡◌, refl, sym, ap, ◌∙◌, Bool, true, false, Option, none, some, List, [], ◌∷◌,
  ◌++◌, arith, if◌then◌else◌, length, take, drop, Option-cases, inl, inr,
}
use hightower_pos.Prelude.Int.{ℤ}
use hightower_pos.Prelude.Text.{Text, text_eq}
use hightower_pos.Table
use hightower_pos.Model.{Price, price_key}
use hightower_pos.Checkout.Pricing.{get_price_cents}
use hightower_pos.Prices.{conflicting, upsert, upsert_all, price_row}
use hightower_pos.Prices.Sync.{upsert_batches}

-- The abstract view: what the price scan of a sale reads.
abbrev pub PriceMap : Type 0
PriceMap = Text → Option ℤ

abbrev pub view : List Price → PriceMap
view prices sku = get_price_cents prices sku

-- One new price, then all of them in order, so that the last one for a SKU counts.
abbrev pub override : PriceMap → Text → ℤ → PriceMap
override m sku cents k = if text_eq sku k then some cents else m k

abbrev pub override_all : List (Text × ℤ) → PriceMap → PriceMap
override_all [] m = m
override_all ((sku, cents) ∷ rows) m = override_all rows (override m sku cents)

price_of : Option Price → Option ℤ
price_of none = none
price_of (some p) = some p.unit_price_cents

view_lem :
    (prices : List Price) (k : Text) → view prices k ≡ price_of (Table.find price_key k prices)
unfolding price_of
view_lem prices k = by_found (Table.find price_key k prices)
  where
    by_found :
        (o : Option Price)
        → (let out : Option ℤ = elim o [ none ↦ none | some p ↦ some p.unit_price_cents ] in
            out ≡ price_of o)
    by_found none = refl
    by_found (some p) = refl

-- The row that an upsert leaves for its SKU.
abbrev pub upserted : (sets_time : Bool) (now : ℕ) → Text → ℤ → Option Price → Price
upserted sets_time now sku cents none = price_row now sku cents
upserted sets_time now sku cents (some old) = conflicting sets_time now sku cents old

pub find-upsert :
    (b : Bool) (now : ℕ) (sku : Text) (cents : ℤ) (prices : List Price) (k : Text)
    → Table.find price_key k (upsert b now sku cents prices) ≡ (
        if text_eq sku k
        then some (upserted b now sku cents (Table.find price_key sku prices))
        else Table.find price_key k prices)
unfolding upsert conflicting
find-upsert b now sku cents prices k = elim (Option-cases (Table.find price_key sku prices)) [
  | inl absent ↦
      rw (upsert, absent) (Table.find-insert price_key k (price_row now sku cents) prices absent)
  | inr (old, there) ↦ rw (upsert, there) (found b old there)
]
  where
    found :
        (b : Bool) (old : Price)
        → Table.find price_key sku prices ≡ some old
        → Table.find price_key k (Table.put price_key (conflicting b now sku cents old) prices) ≡ (
            if text_eq sku k
            then some (conflicting b now sku cents old)
            else Table.find price_key k prices)
    found true old there = Table.find-put price_key k (price_row now sku cents) prices old there
    found false old there =
        Table.find-put price_key k (price_row old.updated_at sku cents) prices old there

price_of-upserted :
    (b : Bool) (now : ℕ) (sku : Text) (cents : ℤ) (old : Option Price)
    → price_of (some (upserted b now sku cents old)) ≡ some cents
unfolding price_of conflicting
price_of-upserted b now sku cents none = refl
price_of-upserted true now sku cents (some old) = refl
price_of-upserted false now sku cents (some old) = refl

view-upsert :
    (b : Bool) (now : ℕ) (sku : Text) (cents : ℤ) (prices : List Price) (k : Text)
    → view (upsert b now sku cents prices) k ≡ override (view prices) sku cents k
view-upsert b now sku cents prices k =
    view_lem (upsert b now sku cents prices) k
    ∙ ap price_of (find-upsert b now sku cents prices k)
    ∙ branches (text_eq sku k)
  where
    row : Price
    row = upserted b now sku cents (Table.find price_key sku prices)

    branches :
        (c : Bool)
        → price_of (if c then some row else Table.find price_key k prices)
          ≡ (if c then some cents else view prices k)
    branches true = price_of-upserted b now sku cents (Table.find price_key sku prices)
    branches false = sym (view_lem prices k)

override_all-agree :
    (rows : List (Text × ℤ)) (m n : PriceMap)
    → ((k : Text) → m k ≡ n k)
    → (k : Text) → override_all rows m k ≡ override_all rows n k
override_all-agree [] m n h k = h k
override_all-agree ((sku, cents) ∷ rows) m n h k =
    override_all-agree rows (override m sku cents) (override n sku cents)
      (λ j. ap (λ o. if text_eq sku j then some cents else o) (h j)) k

-- The statements of an upsert implement the overriding of the map.
pub view-upsert_all :
    (b : Bool) (now : ℕ) (rows : List (Text × ℤ)) (prices : List Price) (k : Text)
    → view (upsert_all b now rows prices) k ≡ override_all rows (view prices) k
unfolding upsert_all
view-upsert_all b now [] prices k = refl
view-upsert_all b now ((sku, cents) ∷ rows) prices k =
    view-upsert_all b now rows (upsert b now sku cents prices) k
    ∙ override_all-agree rows (view (upsert b now sku cents prices))
        (override (view prices) sku cents) (view-upsert b now sku cents prices) k

upsert_all-append :
    (b : Bool) (now : ℕ) (xs ys : List (Text × ℤ)) (prices : List Price)
    → upsert_all b now (xs ++ ys) prices ≡ upsert_all b now ys (upsert_all b now xs prices)
unfolding upsert_all
upsert_all-append b now [] ys prices = refl
upsert_all-append b now ((sku, cents) ∷ xs) ys prices =
    upsert_all-append b now xs ys (upsert b now sku cents prices)

take-append-drop : {A : Type 0} (n : ℕ) (xs : List A) → take n xs ++ drop n xs ≡ xs
take-append-drop zero xs = refl
take-append-drop (suc n) [] = refl
take-append-drop (suc n) (x ∷ xs) = ap (λ r. x ∷ r) (take-append-drop n xs)

length-drop-le : {A : Type 0} (n : ℕ) (xs : List A) → length (drop n xs) ≤ length xs
length-drop-le zero xs = omega arith
length-drop-le (suc n) [] = omega arith
length-drop-le (suc n) (x ∷ xs) = omega (arith, length-drop-le n xs)

-- Batches of any positive size come to one statement over all rows.
pub upsert_batches-all :
    (now fuel size : ℕ) (rows : List (Text × ℤ)) (prices : List Price)
    → length rows ≤ fuel
    → upsert_batches now fuel (suc size) rows prices ≡ upsert_all true now rows prices
unfolding upsert_batches upsert_all
upsert_batches-all now fuel size [] prices h = refl
upsert_batches-all now zero size (row ∷ rows) prices h = absurd (omega arith)
upsert_batches-all now (suc fuel) size (row ∷ rows) prices h =
    upsert_batches-all now fuel size (drop size rows)
      (upsert_all true now (row ∷ take size rows) prices)
      (omega (arith, length-drop-le size rows, h))
    ∙ sym (upsert_all-append true now (row ∷ take size rows) (drop size rows) prices)
    ∙ ap (λ r. upsert_all true now (row ∷ r) prices) (take-append-drop size rows)
