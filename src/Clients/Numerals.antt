-- ===== src/Clients/Numerals.antt =====
-- The numbers that `pos_service/clients/windcave.py` reads: an amount in digits reads back as itself.
use hightower_pos.Prelude.{
  ℕ, zero, suc, ◌+◌, ◌-◌, ◌*◌, ◌/◌, ◌%◌, ◌≡◌, ◌≢◌, refl, sym, ◌∙◌, ap, true, Bool-cases, inl, inr,
  some, [], ◌∷◌, ◌==◌, arith,
}
use hightower_pos.Prelude.Text.{Text, strip, lstrip, rstrip}
use hightower_pos.Prelude.Digits.{digits_onto, show_ℕ, spelled_after, spelled-show_ℕ}
use hightower_pos.Clients.Terminal.{all_digits, int_after, int_if_digits}

lstrip_digits : (t : Text) → all_digits t ≡ true → lstrip t ≡ t
lstrip_digits [] h = refl
lstrip_digits (c ∷ t) h = ground arith

rstrip_digits : (t : Text) → all_digits t ≡ true → rstrip t ≡ t
rstrip_digits [] h = refl
rstrip_digits (c ∷ []) h = ground arith
rstrip_digits (c ∷ d ∷ t) h = rw (rstrip_digits (d ∷ t) (ground arith)) refl

strip_digits : (t : Text) → all_digits t ≡ true → strip t ≡ t
strip_digits t h = ap rstrip (lstrip_digits t h) ∙ rstrip_digits t h

digits_onto-all_digits :
    (fuel n : ℕ) (out : Text) → all_digits out ≡ true → all_digits (digits_onto fuel n out) ≡ true
unfolding digits_onto
digits_onto-all_digits zero n out h = h
digits_onto-all_digits (suc fuel) n out h = elim (Bool-cases (n == 0)) [
  | inl done ↦ rw done h
  | inr more ↦ rw more (digits_onto-all_digits fuel (n / 10) ((b'0' + n % 10) ∷ out) (ground arith))
]

pub show_ℕ-all_digits : (n : ℕ) → all_digits (show_ℕ n) ≡ true
unfolding show_ℕ
show_ℕ-all_digits n = elim (Bool-cases (n == 0)) [
  | inl none_left ↦ rw none_left refl
  | inr more ↦ rw more (digits_onto-all_digits n n [] refl)
]

int_after-spelled : (n : ℕ) (t : Text) → all_digits t ≡ true → int_after n t ≡ spelled_after n t
int_after-spelled n [] h = refl
int_after-spelled n (c ∷ t) h = ground (arith, int_after-spelled (n * 10 + (c - b'0')) t)

int_if-digits : (t : Text) → all_digits t ≡ true → t ≢ [] → int_if_digits t ≡ some (int_after 0 t)
unfolding int_if_digits
int_if-digits [] h filled = absurd (filled refl)
int_if-digits (c ∷ t) h filled = rw h refl

pub show_ℕ-filled : (n : ℕ) → show_ℕ n ≢ []
unfolding show_ℕ
show_ℕ-filled zero e = cc
show_ℕ-filled (suc n) e = omega (arith, sym (spelled-show_ℕ (suc n)) ∙ ap (spelled_after 0) e)

pub int_after-show_ℕ : (n : ℕ) → int_after 0 (show_ℕ n) ≡ n
int_after-show_ℕ n = int_after-spelled 0 (show_ℕ n) (show_ℕ-all_digits n) ∙ spelled-show_ℕ n

pub int_if-show_ℕ : (n : ℕ) → int_if_digits (strip (show_ℕ n)) ≡ some n
int_if-show_ℕ n =
    ap int_if_digits (strip_digits (show_ℕ n) (show_ℕ-all_digits n))
    ∙ int_if-digits (show_ℕ n) (show_ℕ-all_digits n) (show_ℕ-filled n)
    ∙ ap some (int_after-show_ℕ n)
