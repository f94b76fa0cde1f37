-- ===== src/Checkout/Rounding.antt =====
-- The rounding of `compute_line_tax` in `pos_service/services/checkout.py`.
use hightower_pos.Prelude.{
  ℕ, ◌+◌, ◌*◌, ◌/◌, ◌%◌, ◌≤◌, ◌<◌, ◌≡◌, inl, inr, arith, Bool-cases, ltb, ◌==◌,
}
use hightower_pos.Checkout.Pricing.{round_half_even}
use native.Mathlib.Nat.{div-add-mod, mod-lt, mul-add}

-- `r` is the whole number nearest to `n / d`, the even one of two that are equally near.
pub record IsNearest (n d r : ℕ) : Type 0 where
  pub not_above : 2 * (d * r) ≤ 2 * n + d
  pub not_below : 2 * n ≤ 2 * (d * r) + d
  pub even_above : 2 * (d * r) ≡ 2 * n + d → r % 2 ≡ 0
  pub even_below : 2 * n ≡ 2 * (d * r) + d → r % 2 ≡ 0

rounds_down :
    (n d q m : ℕ) → d * q + m ≡ n → 2 * m ≤ d → (2 * m ≡ d → q % 2 ≡ 0) → 1 ≤ d → IsNearest n d q
rounds_down n d q m e small half positive = record {
  not_above = omega arith;
  not_below = omega arith;
  even_above = λ h. absurd (omega (arith, h, e, positive));
  even_below = λ h. half (omega (arith, h, e));
}

rounds_up :
    (n d q m : ℕ)
    → d * q + m ≡ n
    → m < d
    → d ≤ 2 * m
    → (2 * m ≡ d → (q + 1) % 2 ≡ 0)
    → IsNearest n d (q + 1)
rounds_up n d q m e below large half =
    let up : d * (q + 1) ≡ d * q + d = omega (arith, mul-add d q 1) in
    record {
      not_above = omega (arith, up, e, large);
      not_below = omega (arith, up, e, below);
      even_above = λ h. half (omega (arith, up, h, e));
      even_below = λ h. absurd (omega (arith, up, h, e, below, large));
    }

-- With a positive divisor, the rounding gives the nearest whole number, and the even one at a half.
pub round_half_even_lem : (n d : ℕ) → 1 ≤ d → IsNearest n d (round_half_even n d)
unfolding round_half_even
round_half_even_lem n d positive =
    let e : d * (n / d) + n % d ≡ n = div-add-mod n d in
    let m : n % d < d = mod-lt n positive in
    elim (Bool-cases (ltb (2 * (n % d)) d)) [
      | inl under ↦
          rw (round_half_even, under)
            (rounds_down n d (n / d) (n % d) e (ground (arith, under))
              (λ h. absurd (ground (arith, under, h))) positive)
      | inr not_under ↦ elim (Bool-cases (ltb d (2 * (n % d)))) [
        | inl over ↦
            rw (round_half_even, not_under, over)
              (rounds_up n d (n / d) (n % d) e m (ground (arith, over))
                (λ h. absurd (ground (arith, over, h))))
        | inr not_over ↦ elim (Bool-cases ((n / d) % 2 == 0)) [
          | inl even ↦
              rw (round_half_even, not_under, not_over, even)
                (rounds_down n d (n / d) (n % d) e (ground (arith, not_over))
                  (λ h. ground (arith, even)) positive)
          | inr odd ↦
              rw (round_half_even, not_under, not_over, odd)
                (rounds_up n d (n / d) (n % d) e m (ground (arith, not_under))
                  (λ h. ground (arith, odd)))
        ]
      ]
    ]
