-- ===== src/Table/Lookup.antt =====
-- What a lookup gives after a write, and facts about all rows.
use hightower_pos.Prelude.{
  ◌≡◌, none, some, List, [], ◌∷◌, arith, if◌then◌else◌, Bool-cases, inl, inr, subst, sym, All,
  All-map, Bool-cases, inl, inr, subst, sym,
}
use hightower_pos.Prelude.Text.{Text, text_eq, text_eq→eq, text_eq_refl, ne_of_text_eq}
use hightower_pos.Table.Ops.{
  find, put, insert, find-key, find-put_self, find-put_ne, find-insert_self, find-insert_ne,
}
use hightower_pos.Table.Keyed.{IsKeyed, some_inj}

module _ {A : Type 0} (P : A → Type 0) (key : A → Text) where
  pub All-put : (a : A) (rows : List A) → P a → All P rows → All P (put key a rows)
  unfolding put
  All-put a [] pa h = tt
  All-put a (r ∷ rows) pa h = elim (Bool-cases (text_eq (key r) (key a))) [
    | inl same ↦ rw same (pa, h.1)
    | inr other ↦ rw other (h.0, All-put a rows pa h.1)
  ]

  pub All-insert : (a : A) (rows : List A) → P a → All P rows → All P (insert key a rows)
  unfolding insert
  All-insert a [] pa h = (pa, tt)
  All-insert a (r ∷ rows) pa h = (h.0, All-insert a rows pa h.1)

  pub All-find : (k : Text) (rows : List A) (a : A) → All P rows → find key k rows ≡ some a → P a
  unfolding find
  All-find k [] a h e = cc
  All-find k (r ∷ rows) a h e = elim (Bool-cases (text_eq (key r) k)) [
    | inl here ↦ subst P (some_inj key (rw (here, find) at e)) h.0
    | inr further ↦ All-find k rows a h.1 (rw (further, find) at e)
  ]

-- In a keyed table every row is the one that its key finds.
module _ {A : Type 0} (key : A → Text) where
  pub found-cons :
      (r a : A) (rows : List A)
      → find key (key r) rows ≡ none
      → find key (key a) rows ≡ some a
      → find key (key a) (r ∷ rows) ≡ some a
  unfolding find
  found-cons r a rows fresh found = elim (Bool-cases (text_eq (key r) (key a))) [
    | inl same ↦
        let e : find key (key r) rows ≡ some a =
          subst (λ k. find key k rows ≡ some a) (sym (text_eq→eq (key r) (key a) same)) found in
        ground (arith, e)
    | inr other ↦ rw (other, find) found
  ]

  pub keyed-found :
      (rows : List A) → IsKeyed key rows → All (λ a. find key (key a) rows ≡ some a) rows
  unfolding find
  keyed-found [] h = tt
  keyed-found (r ∷ rows) h = (
    ground (arith, text_eq_refl (key r)),
    All-map (λ a. find key (key a) rows ≡ some a) (λ a. find key (key a) (r ∷ rows) ≡ some a)
        (λ a found. found-cons r a rows h.0 found) rows (keyed-found rows h.1),
  )

-- Every read after a write, in one equation.
module _ {A : Type 0} (key : A → Text) where
  pub find-put :
      (k : Text) (a : A) (rows : List A) (old : A)
      → find key (key a) rows ≡ some old
      → find key k (put key a rows) ≡ (if text_eq (key a) k then some a else find key k rows)
  find-put k a rows old h = elim (Bool-cases (text_eq (key a) k)) [
    | inl same ↦
        let e : key a ≡ k = text_eq→eq (key a) k same in
        rw same
          (subst (λ j. find key j (put key a rows) ≡ some a) e (find-put_self key a rows old h))
    | inr other ↦ rw other (find-put_ne key k a rows (ne_of_text_eq (key a) k other))
  ]

  pub find-insert :
      (k : Text) (a : A) (rows : List A)
      → find key (key a) rows ≡ none
      → find key k (insert key a rows) ≡ (if text_eq (key a) k then some a else find key k rows)
  find-insert k a rows h = elim (Bool-cases (text_eq (key a) k)) [
    | inl same ↦
        let e : key a ≡ k = text_eq→eq (key a) k same in
        rw same
          (subst (λ j. find key j (insert key a rows) ≡ some a) e (find-insert_self key a rows h))
    | inr other ↦ rw other (find-insert_ne key k a rows (ne_of_text_eq (key a) k other))
  ]

-- The row that a key finds is found by its own key.
pub self_found :
    {A : Type 0} (key : A → Text) (k : Text) (rows : List A) (a : A)
    → find key k rows ≡ some a
    → find key (key a) rows ≡ some a
self_found key k rows a h = subst (λ j. find key j rows ≡ some a) (sym (find-key key k rows a h)) h

-- A changed row is found by the key that it keeps.
pub find-put_at :
    {A : Type 0} (key : A → Text) (k : Text) (a : A) (rows : List A) (old : A)
    → key a ≡ k
    → find key k rows ≡ some old
    → find key k (put key a rows) ≡ some a
find-put_at key k a rows old same h =
    subst (λ j. find key j (put key a rows) ≡ some a) same
      (find-put_self key a rows old (subst (λ j. find key j rows ≡ some old) (sym same) h))
