-- ===== src/Checkout/Prices.antt =====
-- The price scan of `start_checkout` in `pos_service/services/checkout.py`: which SKUs it misses, and
-- which price each line gets.
use hightower_pos.Prelude.{
  ◌≡◌, refl, Bool, true, false, ◌&&◌, ◌||◌, not, none, some, List, [], ◌∷◌, ◌++◌, arith, is_some,
  if◌then◌else◌, Option-cases, Bool-cases, inl, inr, subst, ◌∙◌,
}
use hightower_pos.Prelude.Int.{ℤ}
use hightower_pos.Prelude.Text.{Text, text_eq, text_eq→eq}
use hightower_pos.Model.{Price}
use hightower_pos.Checkout.Pricing.{
  LineIn, Prices, get_price_cents, price_in, listed, scan_line, scan_prices,
}

-- Some line asks for the SKU.
unfoldable pub asked : Text → List LineIn → Bool
asked k [] = false
asked k (line ∷ lines) = text_eq line.sku k || asked k lines

listed-snoc :
    (k sku : Text) (ks : List Text) → listed k (ks ++ sku ∷ []) ≡ (listed k ks || text_eq sku k)
unfolding listed
listed-snoc k sku [] = ground arith
listed-snoc k sku (x ∷ ks) = ground (arith, listed-snoc k sku ks)

price_in-snoc :
    (k sku : Text) (p : ℤ) (ps : Prices)
    → price_in (ps ++ (sku, p) ∷ []) k
      ≡ elim (price_in ps k) [ some q ↦ some q | none ↦ if text_eq sku k then some p else none ]
unfolding price_in
price_in-snoc k sku p [] = refl
price_in-snoc k sku p ((x, q) ∷ ps) = elim (Bool-cases (text_eq x k)) [
  | inl here ↦ rw here refl
  | inr other ↦ rw other (price_in-snoc k sku p ps)
]

module _ (table : List Price) where
  abbrev pub has_price : Text → Bool
  has_price k = is_some (get_price_cents table k)

  -- What the loop has noted down is what the table says.
  IsSound : Prices → Type 0
  IsSound ps = (k : Text) (p : ℤ) → price_in ps k ≡ some p → get_price_cents table k ≡ some p

  -- One turn for the line's own SKU and for the others.
  record Turn (line : LineIn) (m : List Text) (ps : Prices) (out : List Text × Prices)
      : Type 0 where
    sound : IsSound out.1
    missing :
        (k : Text) → listed k out.0 ≡ (listed k m || (text_eq line.sku k && not (has_price k)))
    noted :
        (k : Text)
        → is_some (price_in out.1 k)
          ≡ (is_some (price_in ps k) || (text_eq line.sku k && has_price k))

  known :
      (line : LineIn) (m : List Text) (ps : Prices) (p : ℤ)
      → IsSound ps
      → price_in ps line.sku ≡ some p
      → Turn line m ps (m, ps)
  unfolding IsSound
  known line m ps p s e = record {
    sound = s;
    missing = λ k. elim (Bool-cases (text_eq line.sku k)) [
      | inl same ↦
          let at_k : price_in ps k ≡ some p =
            subst (λ x. price_in ps x ≡ some p) (text_eq→eq line.sku k same) e in
          rw (same, s k p at_k) (ground arith)
      | inr other ↦ rw other (ground arith)
    ];
    noted = λ k. elim (Bool-cases (text_eq line.sku k)) [
      | inl same ↦
          let at_k : price_in ps k ≡ some p =
            subst (λ x. price_in ps x ≡ some p) (text_eq→eq line.sku k same) e in
          rw (same, at_k) refl
      | inr other ↦ rw other (ground arith)
    ];
  }

  found :
      (line : LineIn) (m : List Text) (ps : Prices) (p : ℤ)
      → IsSound ps
      → price_in ps line.sku ≡ none
      → get_price_cents table line.sku ≡ some p
      → Turn line m ps (m, ps ++ (line.sku, p) ∷ [])
  unfolding IsSound
  found line m ps p s e t = record {
    sound = λ k q h. elim (Option-cases (price_in ps k)) [
      | inr (r, at_k) ↦ s k q (at_k ∙ (rw (price_in-snoc k line.sku p ps, at_k) at h))
      | inl none_at ↦ elim (Bool-cases (text_eq line.sku k)) [
        | inl same ↦
            subst (λ x. get_price_cents table x ≡ some q) (text_eq→eq line.sku k same)
              (t ∙ (rw (price_in-snoc k line.sku p ps, none_at, same) at h))
        | inr other ↦ absurd (none≢some (rw (price_in-snoc k line.sku p ps, none_at, other) at h))
      ]
    ];
    missing = λ k. elim (Bool-cases (text_eq line.sku k)) [
      | inl same ↦
          let at_k : get_price_cents table k ≡ some p =
            subst (λ x. get_price_cents table x ≡ some p) (text_eq→eq line.sku k same) t in
          rw (same, at_k) (ground arith)
      | inr other ↦ rw other (ground arith)
    ];
    noted = λ k. elim (Bool-cases (text_eq line.sku k)) [
      | inl same ↦
          let at_k : get_price_cents table k ≡ some p =
            subst (λ x. get_price_cents table x ≡ some p) (text_eq→eq line.sku k same) t in
          let no_k : price_in ps k ≡ none =
            subst (λ x. price_in ps x ≡ none) (text_eq→eq line.sku k same) e in
          rw (price_in-snoc k line.sku p ps, no_k, same, at_k) refl
      | inr other ↦ elim (Option-cases (price_in ps k)) [
        | inl n ↦ rw (price_in-snoc k line.sku p ps, n, other) refl
        | inr (r, y) ↦ rw (price_in-snoc k line.sku p ps, y) refl
      ]
    ];
  }
    where
      none≢some : {q : ℤ} → none ≡ some q → ⊥
      none≢some h = cc

  unknown :
      (line : LineIn) (m : List Text) (ps : Prices)
      → IsSound ps
      → get_price_cents table line.sku ≡ none
      → Turn line m ps (if listed line.sku m then m else m ++ line.sku ∷ [], ps)
  unknown line m ps s t = record {
    sound = s;
    missing = λ k. elim (Bool-cases (text_eq line.sku k)) [
      | inl same ↦
          let at_k : get_price_cents table k ≡ none =
            subst (λ x. get_price_cents table x ≡ none) (text_eq→eq line.sku k same) t in
          elim (Bool-cases (listed line.sku m)) [
            | inl there ↦
                let there_k : listed k m ≡ true =
                  subst (λ x. listed x m ≡ true) (text_eq→eq line.sku k same) there in
                rw (there, same, at_k, there_k) refl
            | inr new ↦ rw (new, listed-snoc k line.sku m, same, at_k) refl
          ]
      | inr other ↦ elim (Bool-cases (listed line.sku m)) [
        | inl there ↦ rw (there, other) (ground arith)
        | inr new ↦ rw (new, listed-snoc k line.sku m, other) refl
      ]
    ];
    noted = λ k. elim (Bool-cases (text_eq line.sku k)) [
      | inl same ↦
          let at_k : get_price_cents table k ≡ none =
            subst (λ x. get_price_cents table x ≡ none) (text_eq→eq line.sku k same) t in
          rw (same, at_k) (ground arith)
      | inr other ↦ rw other (ground arith)
    ];
  }

  turn :
      (line : LineIn) (m : List Text) (ps : Prices)
      → IsSound ps
      → Turn line m ps (scan_line table line (m, ps))
  unfolding scan_line
  turn line m ps s = elim (Option-cases (price_in ps line.sku)) [
    | inr (p, e) ↦ rw (scan_line, e) (known line m ps p s e)
    | inl e ↦ elim (Option-cases (get_price_cents table line.sku)) [
      | inr (p, t) ↦ rw (scan_line, e, t) (found line m ps p s e t)
      | inl t ↦ rw (scan_line, e, t) (unknown line m ps s t)
    ]
  ]

  scan :
      (lines : List LineIn) (m : List Text) (ps : Prices) (k : Text)
      → IsSound ps
      → let out = scan_prices table lines (m, ps) in
        (listed k out.0 ≡ (listed k m || (asked k lines && not (has_price k))))
        × (is_some (price_in out.1 k) ≡ (is_some (price_in ps k) || (asked k lines && has_price k)))
        × IsSound out.1
  unfolding scan_prices asked
  scan [] m ps k s = (ground arith, ground arith, s)
  scan (line ∷ lines) m ps k s =
      let (m', ps') = scan_line table line (m, ps) in
      let t = turn line m ps s in
      let (rest, noted, sound) = scan lines m' ps' k t.sound in
      (ground (arith, rest, t.missing k), ground (arith, noted, t.noted k), sound)

-- The scan of `start_checkout` misses exactly the SKUs that some line asks for and that have no price,
-- and it notes down a price for exactly those that some line asks for and that have one: the price of
-- the table.
pub scan_prices_lem :
    (table : List Price) (lines : List LineIn) (k : Text)
    → let out = scan_prices table lines ([], []) in
      (listed k out.0 ≡ (asked k lines && not (has_price table k)))
      × (is_some (price_in out.1 k) ≡ (asked k lines && has_price table k))
      × ((p : ℤ) → price_in out.1 k ≡ some p → get_price_cents table k ≡ some p)
unfolding IsSound listed price_in
scan_prices_lem table lines k =
    let (missing, noted, sound) = scan table lines [] [] k (λ x p h. absurd (none≢some h)) in
    (missing, noted, sound k)
  where
    none≢some : {q : ℤ} → none ≡ some q → ⊥
    none≢some h = cc
