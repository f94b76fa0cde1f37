-- ===== src/Receipt/Layout.antt =====
-- The widths of the lines that `pos_service/services/receipt.py` lays out.
use hightower_pos.Prelude.{
  ℕ, zero, suc, ◌+◌, ◌-◌, ◌*◌, ◌/◌, ◌%◌, ◌≤◌, ◌<◌, ◌≡◌, refl, [], ◌∷◌, ◌++◌, arith, ltb, leb, ◌==◌,
  take, drop, length, length-append, length-replicate, length-take, Bool-cases, inl, inr, if-cases,
}
use hightower_pos.Prelude.Int.{ℤ, pos, negsuc, magnitude}
use hightower_pos.Prelude.Text.{Text, strip}
use hightower_pos.Prelude.Digits.{digits_onto, show_ℕ, two_decimals}
use hightower_pos.Receipt.{center, centered, pad_pair, spaces, decimal_text, money, signed_money}

length-spaces : (n : ℕ) → length (spaces n) ≡ n
length-spaces n = length-replicate {A = ℕ} n b' '

times_bit : (a b : ℕ) → b < 2 → a * b ≤ a
times_bit a zero h = omega arith
times_bit a (suc zero) h = omega arith
times_bit a (suc (suc b)) h = absurd (omega arith)

-- A centered text fits the width, whatever the text.
pub length-center : (text : Text) (width : ℕ) → length (center text width) ≤ width
unfolding center centered
length-center text width =
    if-cases (λ (t : Text). length t ≤ width) (leb width (length (strip text))) _ _
      (λ _. omega (arith, length-take width (strip text)))
      (λ short. fits (strip text) (ground (arith, short)))
  where
    fits : (t : Text) → length t < width → length (centered t width) ≤ width
    fits t h =
        let pad = width - length t in
        let left = pad / 2 + pad % 2 * (width % 2) in
        omega (
          arith,
          length-append (spaces left ++ t) (spaces (pad - left)),
          length-append (spaces left) t,
          length-spaces left,
          length-spaces (pad - left),
          times_bit (pad % 2) (width % 2) (omega arith),
          h,
        )

drop-append : (s t : Text) (n : ℕ) → length s ≡ n → drop n (s ++ t) ≡ t
drop-append [] t zero h = refl
drop-append [] t (suc n) h = absurd (omega (arith, h))
drop-append (c ∷ s) t zero h = absurd (omega (arith, h))
drop-append (c ∷ s) t (suc n) h = drop-append s t n (omega (arith, h))

-- Where the right text leaves room for one character, the line has the width and ends with the whole
-- right text.
pub pad_pair-fits :
    (left right : Text) (width : ℕ)
    → length right < width
    → (length (pad_pair left right width) ≡ width)
      × (drop (width - length right) (pad_pair left right width) ≡ right)
unfolding pad_pair
pad_pair-fits left right width h =
    if-cases (λ (t : Text). (length t ≡ width) × (drop (width - length right) t ≡ right))
      (ltb width (length left + length right + 1)) _ _ (λ long. truncated (ground (arith, long)))
      (λ short. padded (ground (arith, short)))
  where
    truncated :
        width < length left + length right + 1
        → (length (take (width - length right - 1) left ++ b' ' ∷ right) ≡ width)
          × (drop (width - length right) (take (width - length right - 1) left ++ b' ' ∷ right)
              ≡ right)
    truncated long =
        let cut = take (width - length right - 1) left in
        let size : length cut ≡ width - length right - 1 =
          omega (arith, length-take (width - length right - 1) left, long, h) in
        (
          omega (arith, length-append cut (b' ' ∷ right), size, h),
          drop-after cut right (width - length right) (omega (arith, size, h)),
        )
      where
        drop-after : (s t : Text) (n : ℕ) → length s + 1 ≡ n → drop n (s ++ b' ' ∷ t) ≡ t
        drop-after [] t zero e = absurd (omega (arith, e))
        drop-after [] t (suc zero) e = refl
        drop-after [] t (suc (suc n)) e = absurd (omega (arith, e))
        drop-after (c ∷ s) t zero e = absurd (omega (arith, e))
        drop-after (c ∷ s) t (suc n) e = drop-after s t n (omega (arith, e))

    padded :
        length left + length right + 1 ≤ width
        → (length (left ++ spaces (width - length left - length right) ++ right) ≡ width)
          × (drop
                (width - length right)
                (left ++ spaces (width - length left - length right) ++ right)
              ≡ right)
    padded short =
        let gap = width - length left - length right in
        (
          omega (
            arith,
            length-append (left ++ spaces gap) right,
            length-append left (spaces gap),
            length-spaces gap,
            short,
          ),
          drop-append (left ++ spaces gap) right (width - length right)
              (omega (arith, length-append left (spaces gap), length-spaces gap, short)),
        )

-- `n` has at most `k` digits.
abbrev pub HasDigits : (k n : ℕ) → Type 0
HasDigits zero n = n ≡ 0
HasDigits (suc k) n = HasDigits k (n / 10)

length-digits_onto :
    (fuel k n : ℕ) (out : Text) → HasDigits k n → length (digits_onto fuel n out) ≤ k + length out
unfolding digits_onto
length-digits_onto zero k n out h = omega arith
length-digits_onto (suc fuel) zero n out h = ground (arith, h)
length-digits_onto (suc fuel) (suc k) n out h = elim (Bool-cases (n == 0)) [
  | inl done ↦ rw done (omega arith)
  | inr more ↦ rw more (omega (arith, length-digits_onto fuel k (n / 10) ((b'0' + n % 10) ∷ out) h))
]

length-show_ℕ : (k n : ℕ) → HasDigits (suc k) n → length (show_ℕ n) ≤ suc k
unfolding show_ℕ
length-show_ℕ k n h = elim (Bool-cases (n == 0)) [
  | inl none_left ↦ rw none_left (omega arith)
  | inr more ↦ rw more (omega (arith, length-digits_onto n (suc k) n [] h))
]

-- An amount of less than ten billion.
abbrev pub IsSmall : ℤ → Type 0
IsSmall cents = magnitude cents < 1000000000000

length-two_decimals : (n : ℕ) → n < 1000000000000 → length (two_decimals n) ≤ 13
unfolding two_decimals
length-two_decimals n h = omega (
  arith,
  length-append (show_ℕ (n / 100)) (b'.' ∷ (b'0' + n % 100 / 10) ∷ (b'0' + n % 100 % 10) ∷ []),
  length-show_ℕ 9 (n / 100) (omega arith),
)

length-decimal_text : (cents : ℤ) → IsSmall cents → length (decimal_text cents) ≤ 14
unfolding decimal_text
length-decimal_text (pos n) h = omega (arith, length-two_decimals n (omega (arith, h)))
length-decimal_text (negsuc n) h = omega (arith, length-two_decimals (n + 1) (omega arith))

pub length-money : (cents : ℤ) → IsSmall cents → length (money cents) ≤ 15
unfolding money
length-money cents h = omega (arith, length-decimal_text cents h)

pub length-signed_money : (cents : ℤ) → IsSmall cents → length (signed_money cents) ≤ 15
unfolding signed_money
length-signed_money (pos n) h = length-money (pos n) h
length-signed_money (negsuc n) h = omega (arith, length-two_decimals (n + 1) (omega arith))
