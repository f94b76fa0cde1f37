-- ===== src/Prices/Stamps.antt =====
-- The times of the prices after an import and after a sync: `updated_at` of `POSPrice`.
use hightower_pos.Prelude.{
  ℕ, ◌≡◌, refl, ◌∙◌, ap, Bool, true, false, ◌||◌, Bool-cases, Option, none, some, List, [], ◌∷◌,
  ◌⊎◌, inl, inr, if◌then◌else◌,
}
use hightower_pos.Prelude.Int.{ℤ}
use hightower_pos.Prelude.Text.{Text, text_eq, text_eq→eq}
use hightower_pos.Table
use hightower_pos.Model.{Price, price_key}
use hightower_pos.Prices.{conflicting, upsert, upsert_all}
use hightower_pos.Prices.Refines.{upserted, find-upsert}

-- When a price was last set.
abbrev pub time_of : Option Price → Option ℕ
time_of none = none
time_of (some p) = some p.updated_at

abbrev pub time : List Price → Text → Option ℕ
time prices sku = time_of (Table.find price_key sku prices)

abbrev pub is_priced : List (Text × ℤ) → Text → Bool
is_priced [] k = false
is_priced ((sku, cents) ∷ rows) k = text_eq sku k || is_priced rows k

module _ (now : ℕ) where
  time-synced :
      (sku : Text) (cents : ℤ) (prices : List Price) (k : Text)
      → time (upsert true now sku cents prices) k
        ≡ (if text_eq sku k then some now else time prices k)
  unfolding conflicting
  time-synced sku cents prices k =
      ap time_of (find-upsert true now sku cents prices k)
      ∙ branches (text_eq sku k) (Table.find price_key sku prices)
    where
      branches :
          (c : Bool) (old : Option Price)
          → time_of
              (if c then some (upserted true now sku cents old) else Table.find price_key k prices)
            ≡ (if c then some now else time prices k)
      branches true none = refl
      branches true (some old) = refl
      branches false old = refl

  -- A sync sets the time of every price in the catalog, and of no other.
  pub time-synced_all :
      (rows : List (Text × ℤ)) (prices : List Price) (k : Text)
      → time (upsert_all true now rows prices) k
        ≡ (if is_priced rows k then some now else time prices k)
  unfolding upsert_all
  time-synced_all [] prices k = refl
  time-synced_all ((sku, cents) ∷ rows) prices k =
      time-synced_all rows (upsert true now sku cents prices) k
      ∙ ap (λ rest. if is_priced rows k then some now else rest) (time-synced sku cents prices k)
      ∙ joined (text_eq sku k) (is_priced rows k)
    where
      joined :
          (here later : Bool)
          → (if later then some now else (if here then some now else time prices k))
            ≡ (if here || later then some now else time prices k)
      joined true true = refl
      joined true false = refl
      joined false true = refl
      joined false false = refl

  time-imported :
      (sku : Text) (cents : ℤ) (prices : List Price) (k : Text) (t : ℕ)
      → time prices k ≡ some t
      → time (upsert false now sku cents prices) k ≡ some t
  unfolding conflicting
  time-imported sku cents prices k t h =
      ap time_of (find-upsert false now sku cents prices k) ∙ same (Bool-cases (text_eq sku k))
    where
      kept :
          (old : Option Price)
          → time_of old ≡ some t
          → time_of (some (upserted false now sku cents old)) ≡ some t
      kept none e = cc
      kept (some old) e = e

      same :
          (text_eq sku k ≡ true) ⊎ (text_eq sku k ≡ false)
          → time_of (
              if text_eq sku k
              then some (upserted false now sku cents (Table.find price_key sku prices))
              else Table.find price_key k prices)
            ≡ some t
      same (inl here) =
          rw here
            (kept (Table.find price_key sku prices) (ap (time prices) (text_eq→eq sku k here) ∙ h))
      same (inr other) = rw other h

  -- An import leaves the time of every price that is there.
  pub time-imported_all :
      (rows : List (Text × ℤ)) (prices : List Price) (k : Text) (t : ℕ)
      → time prices k ≡ some t
      → time (upsert_all false now rows prices) k ≡ some t
  unfolding upsert_all
  time-imported_all [] prices k t h = h
  time-imported_all ((sku, cents) ∷ rows) prices k t h =
      time-imported_all rows (upsert false now sku cents prices) k t
        (time-imported sku cents prices k t h)
