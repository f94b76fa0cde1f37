-- ===== src/Prelude/Digits.antt =====
-- Python's `str` of a natural number and `f"{cents / 100:.2f}"`, with the number that such a text spells.
-- The float quotient of the latter is within half a cent of the exact one, so that the two decimals
-- are exact, for amounts below 2^50 cents.
use hightower_pos.Prelude.{
  ℕ, zero, suc, ◌+◌, ◌-◌, ◌*◌, ◌/◌, ◌%◌, ◌≤◌, ◌<◌, ◌≡◌, refl, ◌∙◌, ap, [], ◌∷◌, ◌++◌, arith, ◌==◌,
  Bool-cases, inl, inr, if◌then◌else◌,
}
use hightower_pos.Prelude.Text.{Text}
use native.Mathlib.Nat.{div-add-mod}

-- The digits of `n` in front of `out`.
unfoldable pub digits_onto : (fuel n : ℕ) → Text → Text
digits_onto zero n out = out
digits_onto (suc fuel) n out =
    let more = digits_onto fuel (n / 10) ((b'0' + n % 10) ∷ out) in if n == 0 then out else more

-- `str(n)`; a number has no more digits than its value, so the fuel is enough.
unfoldable pub show_ℕ : ℕ → Text
unfolding digits_onto
show_ℕ n = if n == 0 then b'0' ∷ [] else digits_onto n n []

unfoldable pub two_decimals : ℕ → Text
unfolding show_ℕ
two_decimals cents =
    show_ℕ (cents / 100) ++ b'.' ∷ (b'0' + cents % 100 / 10) ∷ (b'0' + cents % 100 % 10) ∷ []

-- The number that the digits of a text spell after `n`, whatever points stand between them.
abbrev pub spelled_after : ℕ → Text → ℕ
spelled_after n [] = n
spelled_after n (c ∷ text) =
    let rest = spelled_after (n * 10 + (c - b'0')) text in
    let same = spelled_after n text in if c == b'.' then same else rest

pub spelled_after-append :
    (n : ℕ) (s t : Text) → spelled_after n (s ++ t) ≡ spelled_after (spelled_after n s) t
spelled_after-append n [] t = refl
spelled_after-append n (c ∷ s) t =
    ground (arith, spelled_after-append n s t, spelled_after-append (n * 10 + (c - b'0')) s t)

spelled-digits_onto :
    (fuel n : ℕ) (out : Text)
    → n ≤ fuel
    → spelled_after 0 (digits_onto fuel n out) ≡ spelled_after n out
unfolding digits_onto
spelled-digits_onto zero n out h = ap (λ k. spelled_after k out) (omega arith)
spelled-digits_onto (suc fuel) n out h = elim (Bool-cases (n == 0)) [
  | inl done ↦ rw done (ap (λ k. spelled_after k out) (ground arith))
  | inr more ↦
      rw more (
        spelled-digits_onto fuel (n / 10) ((b'0' + n % 10) ∷ out) (ground arith) ∙ digit_step n out)
]
  where
    digit_step :
        (n : ℕ) (out : Text) → spelled_after (n / 10) ((b'0' + n % 10) ∷ out) ≡ spelled_after n out
    digit_step n out = ground (
      arith,
      ap (λ k. spelled_after k out)
          (let e : n / 10 * 10 + (b'0' + n % 10 - b'0') ≡ n = omega (arith, div-add-mod n 10) in e),
    )

pub spelled-show_ℕ : (n : ℕ) → spelled_after 0 (show_ℕ n) ≡ n
unfolding show_ℕ
spelled-show_ℕ n = elim (Bool-cases (n == 0)) [
  | inl zero_here ↦ rw zero_here (ground arith)
  | inr more ↦ rw more (spelled-digits_onto n n [] (omega arith))
]

pub spelled-two_decimals : (cents : ℕ) → spelled_after 0 (two_decimals cents) ≡ cents
unfolding two_decimals
spelled-two_decimals cents =
    spelled_after-append 0 (show_ℕ (cents / 100)) (decimals cents)
    ∙ ap (λ k. spelled_after k (decimals cents)) (spelled-show_ℕ (cents / 100))
    ∙ exact (cents / 100) (cents % 100) (omega arith)
    ∙ omega (arith, div-add-mod cents 100)
  where
    decimals : ℕ → Text
    decimals n = b'.' ∷ (b'0' + n % 100 / 10) ∷ (b'0' + n % 100 % 10) ∷ []

    exact :
        (q r : ℕ)
        → r < 100
        → spelled_after q (b'.' ∷ (b'0' + r / 10) ∷ (b'0' + r % 10) ∷ []) ≡ q * 100 + r
    exact q r h = ground arith
