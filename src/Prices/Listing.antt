-- ===== src/Prices/Listing.antt =====
-- The reads of `pos_service/services/pricing.py` and `pos_service/routes/prices.py`.
use hightower_pos.Prelude.{
  ℕ, ◌+◌, ◌≡◌, refl, Bool, true, false, none, ◌&&◌, ◌||◌, Option, some, List, [], ◌∷◌, ◌++◌, arith,
  if◌then◌else◌, ltb, ◌==◌, take, keep,
}
use hightower_pos.Prelude.Text.{Text, text_leb}
use hightower_pos.Table
use hightower_pos.Model.{Price, PriceImport, Store, price_key}
use hightower_pos.Reports.{newest_first}

-- SQLite's LIKE ignores the case of ASCII letters.
abbrev pub folded : ℕ → ℕ
folded c = if ltb 64 c && ltb c 91 then c + 32 else c

-- `%` before a pattern: the rest matches some suffix of the text.
abbrev pub some_suffix : (Text → Bool) → Text → Bool
some_suffix matches [] = matches []
some_suffix matches (c ∷ text) = matches (c ∷ text) || some_suffix matches text

-- One character of a pattern that is no `%`.
abbrev pub one_char : ℕ → (Text → Bool) → Text → Bool
one_char p matches [] = false
one_char p matches (c ∷ text) = (p == b'_' || folded p == folded c) && matches text

-- `text LIKE pattern`
unfoldable pub like : (pattern text : Text) → Bool
like [] [] = true
like [] (c ∷ text) = false
like (p ∷ pattern) text =
    if p == b'%' then some_suffix (like pattern) text else one_char p (like pattern) text

-- `if search:`, then `sku LIKE %search%`
unfoldable pub is_searched : Option Text → Price → Bool
unfolding like
is_searched none price = true
is_searched (some []) price = true
is_searched (some (c ∷ wanted)) price = like (b'%' ∷ (c ∷ wanted) ++ b'%' ∷ []) price.sku

unfoldable pub place_sku : Price → List Price → List Price
place_sku p [] = p ∷ []
place_sku p (q ∷ rows) =
    let rest = place_sku p rows in if text_leb p.sku q.sku then p ∷ q ∷ rows else q ∷ rest

-- `ORDER BY sku`
unfoldable pub by_sku : List Price → List Price
unfolding place_sku
by_sku [] = []
by_sku (p ∷ rows) = place_sku p (by_sku rows)

unfoldable pub list_prices : (search : Option Text) (limit : ℕ) → Store → List Price
unfolding is_searched by_sku
list_prices search limit s = take limit (by_sku (keep (is_searched search) s.prices))

-- `ORDER BY id DESC`
unfoldable pub list_imports : (limit : ℕ) → Store → List PriceImport
list_imports limit s = take limit (newest_first (λ row. row.id) s.price_imports)

-- `none` is the answer 404.
unfoldable pub get_price_endpoint : (sku : Text) → Store → Option Price
get_price_endpoint sku s = Table.find price_key sku s.prices

some_suffix_here :
    (matches : Text → Bool) (text : Text) → matches text ≡ true → some_suffix matches text ≡ true
some_suffix_here matches [] h = h
some_suffix_here matches (c ∷ text) h = rw h refl

some_suffix_later :
    (matches : Text → Bool) (before rest : Text)
    → matches rest ≡ true
    → some_suffix matches (before ++ rest) ≡ true
some_suffix_later matches [] rest h = some_suffix_here matches rest h
some_suffix_later matches (c ∷ before) rest h =
    ground (arith, some_suffix_later matches before rest h)

like-after :
    (pattern text rest : Text)
    → like pattern rest ≡ true
    → like (text ++ pattern) (text ++ rest) ≡ true
unfolding like
like-after pattern [] rest h = h
like-after pattern (c ∷ text) rest h = ground (
  arith,
  like-after pattern text rest h,
  some_suffix_here (like (text ++ pattern)) (text ++ rest) (like-after pattern text rest h),
)

-- A price is in the listing of a search, before its limit, if its SKU contains the text that is looked
-- for, whatever wildcards that text has.
is_searched_inside :
    (before wanted after : Text) (price : Price)
    → price.sku ≡ before ++ (wanted ++ after)
    → is_searched (some wanted) price ≡ true
unfolding is_searched like
is_searched_inside before [] after price h = refl
is_searched_inside before (c ∷ wanted) after price h = rw h (
    some_suffix_later (like ((c ∷ wanted) ++ b'%' ∷ [])) before ((c ∷ wanted) ++ after)
      (like-after (b'%' ∷ []) (c ∷ wanted) after (any_end after)))
  where
    any_end : (text : Text) → like (b'%' ∷ []) text ≡ true
    any_end [] = refl
    any_end (c ∷ text) = any_end text
