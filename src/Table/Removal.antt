-- ===== src/Table/Removal.antt =====
-- What deleting a row does to the lookups.
use hightower_pos.Prelude.{
  ◌≡◌, ◌≢◌, refl, none, List, [], ◌∷◌, arith, Bool-cases, inl, inr, All, ap,
}
use hightower_pos.Prelude.Text.{Text, text_eq, text_eq→eq}
use hightower_pos.Table.Ops.{find, remove}
use hightower_pos.Table.Keyed.{IsKeyed}

module _ {A : Type 0} (key : A → Text) where
  pub find-remove_ne :
      (k j : Text) (rows : List A) → k ≢ j → find key k (remove key j rows) ≡ find key k rows
  unfolding find remove
  find-remove_ne k j [] h = refl
  find-remove_ne k j (r ∷ rows) h =
      ground (arith, text_eq→eq (key r) j, text_eq→eq (key r) k, find-remove_ne k j rows h)

  pub find-remove_self :
      (k : Text) (rows : List A) → IsKeyed key rows → find key k (remove key k rows) ≡ none
  unfolding find remove
  find-remove_self k [] h = refl
  find-remove_self k (r ∷ rows) h = elim (Bool-cases (text_eq (key r) k)) [
    | inl here ↦ rw here (
        let same : key r ≡ k = text_eq→eq (key r) k here in
        ground (arith, ap (λ (x : Text). find key x rows) same, h.0))
    | inr other ↦ rw (other, find, other) (find-remove_self k rows h.1)
  ]

  pub find-remove-none :
      (k j : Text) (rows : List A) → find key k rows ≡ none → find key k (remove key j rows) ≡ none
  unfolding find remove
  find-remove-none k j [] h = refl
  find-remove-none k j (r ∷ rows) h = ground (arith, find-remove-none k j rows)

  pub remove-IsKeyed :
      (k : Text) (rows : List A) → IsKeyed key rows → IsKeyed key (remove key k rows)
  unfolding remove
  remove-IsKeyed k [] h = tt
  remove-IsKeyed k (r ∷ rows) h = elim (Bool-cases (text_eq (key r) k)) [
    | inl here ↦ rw here h.1
    | inr other ↦ rw other (find-remove-none (key r) k rows h.0, remove-IsKeyed k rows h.1)
  ]

module _ {A : Type 0} (P : A → Type 0) (key : A → Text) where
  pub All-remove : (k : Text) (rows : List A) → All P rows → All P (remove key k rows)
  unfolding remove
  All-remove k [] h = tt
  All-remove k (r ∷ rows) h = elim (Bool-cases (text_eq (key r) k)) [
    | inl here ↦ rw here h.1
    | inr other ↦ rw other (h.0, All-remove k rows h.1)
  ]
