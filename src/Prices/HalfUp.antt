-- ===== src/Prices/HalfUp.antt =====
-- The cents that `import_csv` of `pos_service/services/pricing.py` makes of a price.
use hightower_pos.Prelude.{
  ℕ, ◌+◌, ◌*◌, ◌/◌, ◌%◌, ◌^◌, ◌≤◌, ◌<◌, ◌≡◌, refl, false, Option, none, some, arith, ltb, if-cases,
}
use native.Mathlib.Nat.{div-add-mod, mod-lt, mul_assoc, one-le-pow}
use hightower_pos.Prelude.Int.{ℤ, pos, negsuc}
use hightower_pos.Prices.Decimal.{
  to_cents, rounded, whole_number, round_half_up, digit_count, precision,
}

-- `q` is the whole number nearest to `n / d`, and the larger one at a half.
pub record IsNearestUp (n d q : ℕ) : Type 0 where
  pub not_above : 2 * (d * q) ≤ 2 * n + d
  pub not_below : 2 * n < 2 * (d * q) + d

pub round_half_up-IsNearestUp : (n d : ℕ) → 1 ≤ d → IsNearestUp n d (round_half_up n d)
unfolding round_half_up
round_half_up-IsNearestUp n d positive =
    let e : 2 * d * ((2 * n + d) / (2 * d)) + (2 * n + d) % (2 * d) ≡ 2 * n + d =
      div-add-mod (2 * n + d) (2 * d) in
    let m : (2 * n + d) % (2 * d) < 2 * d = mod-lt (2 * n + d) (omega arith) in
    let a : 2 * d * ((2 * n + d) / (2 * d)) ≡ 2 * (d * ((2 * n + d) / (2 * d))) =
      mul_assoc 2 d ((2 * n + d) / (2 * d)) in
    record { not_above = omega (arith, e, a); not_below = omega (arith, e, m, a) }

-- The cents for the number `n * 10 ^ exponent`, which is in hundredths; there are none only for a whole
-- number of more than 28 digits.
abbrev pub IsCents : (n : ℕ) → ℤ → Option ℕ → Type 0
IsCents n (pos e) (some cents) = cents ≡ n * 10 ^ e
IsCents n (pos e) none = precision < digit_count (n * 10 ^ e)
IsCents n (negsuc e) (some cents) = IsNearestUp n (10 ^ (e + 1)) cents
IsCents n (negsuc e) none = ⊥

whole_number-IsCents : (n : ℕ) (e : ℤ) → IsCents n e (whole_number (n, e))
unfolding whole_number
whole_number-IsCents n (pos e) =
    if-cases (IsCents n (pos e)) (ltb precision (digit_count (n * 10 ^ e))) _ _
      (λ long. ground (arith, long)) (λ fits. refl)
whole_number-IsCents n (negsuc e) =
    round_half_up-IsNearestUp n (10 ^ (e + 1)) (one-le-pow (e + 1) 10 (omega arith))

-- A price of at most 28 digits, counted with the two that stand for the cents, is rounded once: to the
-- nearest whole cent, and up at half a cent. It has no cents only if it is a whole number of cents of
-- more than 28 digits.
pub to_cents-IsCents :
    (coefficient : ℕ) (exponent : ℤ)
    → digit_count (coefficient * 100) ≤ 28
    → IsCents (coefficient * 100) exponent (to_cents coefficient exponent)
unfolding to_cents rounded
to_cents-IsCents coefficient exponent short =
    let fits : ltb precision (digit_count (coefficient * 100)) ≡ false = ground (arith, short) in
    rw (to_cents, rounded, fits) (whole_number-IsCents (coefficient * 100) exponent)
