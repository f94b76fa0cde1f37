-- ===== src/Table/Ops.antt =====
-- A database table: reads, writes and counts over its rows.
use hightower_pos.Prelude.{
  ℕ, ◌+◌, ◌≡◌, ◌≢◌, refl, Bool, true, false, Option, none, some, List, [], ◌∷◌, ◌++◌, arith,
  if◌then◌else◌,
}
use hightower_pos.Prelude.Text.{Text, text_eq, text_eq→eq, text_eq_refl, text_eq-sym}

module _ {A : Type 0} (key : A → Text) where
  unfoldable pub find : Text → List A → Option A
  find k [] = none
  find k (r ∷ rows) = if text_eq (key r) k then some r else find k rows

  unfoldable pub put : A → List A → List A
  put a [] = []
  put a (r ∷ rows) = if text_eq (key r) (key a) then a ∷ rows else r ∷ put a rows

  unfoldable pub insert : A → List A → List A
  insert a rows = rows ++ a ∷ []

  -- `db.delete` of the row that a key finds.
  unfoldable pub remove : Text → List A → List A
  remove k [] = []
  remove k (r ∷ rows) = let rest = remove k rows in if text_eq (key r) k then rows else r ∷ rest

  pub find-key : (k : Text) (rows : List A) (found : A) → find k rows ≡ some found → key found ≡ k
  unfolding find
  find-key k [] found h = cc
  find-key k (r ∷ rows) found h = ground (arith, text_eq→eq (key r) k, find-key k rows found)

  pub find-put_self :
      (a : A) (rows : List A) (old : A)
      → find (key a) rows ≡ some old
      → find (key a) (put a rows) ≡ some a
  unfolding find put
  find-put_self a [] old h = cc
  find-put_self a (r ∷ rows) old h = ground (arith, text_eq_refl (key a), find-put_self a rows old)

  pub find-put_ne :
      (k : Text) (a : A) (rows : List A) → k ≢ key a → find k (put a rows) ≡ find k rows
  unfolding find put
  find-put_ne k a [] h = refl
  find-put_ne k a (r ∷ rows) h = ground (
    arith,
    text_eq→eq (key r) (key a),
    text_eq→eq (key r) k,
    text_eq→eq (key a) k,
    text_eq-sym (key a) k,
    find-put_ne k a rows h,
  )

  pub find-insert_self :
      (a : A) (rows : List A) → find (key a) rows ≡ none → find (key a) (insert a rows) ≡ some a
  unfolding find insert
  find-insert_self a [] h = ground (arith, text_eq_refl (key a))
  find-insert_self a (r ∷ rows) h = ground (arith, find-insert_self a rows)

  pub find-insert_ne :
      (k : Text) (a : A) (rows : List A) → k ≢ key a → find k (insert a rows) ≡ find k rows
  unfolding find insert
  find-insert_ne k a [] h = ground (arith, text_eq→eq (key a) k)
  find-insert_ne k a (r ∷ rows) h = ground (arith, find-insert_ne k a rows h)

abbrev pub bit : Bool → ℕ
bit true = 1
bit false = 0

-- `SELECT count(*) WHERE p`.
module _ {A : Type 0} (p : A → Bool) where
  unfoldable pub count : List A → ℕ
  count [] = 0
  count (r ∷ rows) = bit (p r) + count rows

  -- The first row that satisfies `p`: `SELECT ... WHERE p LIMIT 1`.
  unfoldable pub first : List A → Option A
  first [] = none
  first (r ∷ rows) = if p r then some r else first rows

  pub first-holds : (rows : List A) (found : A) → first rows ≡ some found → p found ≡ true
  unfolding first
  first-holds [] found h = cc
  first-holds (r ∷ rows) found h = ground (arith, first-holds rows found)

  pub count-first-none : (rows : List A) → first rows ≡ none → count rows ≡ 0
  unfolding first count
  count-first-none [] h = refl
  count-first-none (r ∷ rows) h = ground (arith, count-first-none rows)

  pub first-count_zero : (rows : List A) → count rows ≡ 0 → first rows ≡ none
  unfolding first count
  first-count_zero [] h = refl
  first-count_zero (r ∷ rows) h = ground (arith, first-count_zero rows)

  module _ (key : A → Text) where
    pub count-put :
        (a : A) (rows : List A) (old : A)
        → find key (key a) rows ≡ some old
        → count (put key a rows) + bit (p old) ≡ count rows + bit (p a)
    unfolding count find put
    count-put a [] old h = cc
    count-put a (r ∷ rows) old h = ground (arith, count-put a rows old)

    pub count-insert : (a : A) (rows : List A) → count (insert key a rows) ≡ count rows + bit (p a)
    unfolding count insert
    count-insert a [] = omega arith
    count-insert a (r ∷ rows) = ground (arith, count-insert a rows)

-- The primary keys of the rows are distinct.
