-- ===== src/Table/Keyed.antt =====
-- Tables whose rows have distinct keys.
use hightower_pos.Prelude.{
  ◌≡◌, refl, Bool, true, false, none, some, List, [], ◌∷◌, arith, Bool-cases, inl, inr, subst, ap,
  sym, ◌∙◌, Bool-cases, inl, inr, subst, ap, sym, ◌∙◌,
}
use hightower_pos.Prelude.Text.{Text, text_eq, text_eq→eq, text_eq_refl, text_eq-sym}
use hightower_pos.Table.Ops.{find, put, insert, first}

module _ {A : Type 0} (key : A → Text) where
  abbrev pub IsKeyed : List A → Type 0
  IsKeyed [] = Unit
  IsKeyed (r ∷ rows) = (find key (key r) rows ≡ none) × IsKeyed rows

  pub find-put-none :
      (k : Text) (a : A) (rows : List A)
      → find key k rows ≡ none
      → find key k (put key a rows) ≡ none
  unfolding find put
  find-put-none k a [] h = refl
  find-put-none k a (r ∷ rows) h = elim (Bool-cases (text_eq (key r) (key a))) [
    | inl same ↦
        let e : key r ≡ key a = text_eq→eq (key r) (key a) same in
        ground (arith, same, ap (λ (x : Text). text_eq x k) e)
    | inr other ↦ ground (arith, other, find-put-none k a rows)
  ]

  pub put-IsKeyed : (a : A) (rows : List A) → IsKeyed rows → IsKeyed (put key a rows)
  unfolding put
  put-IsKeyed a [] h = tt
  put-IsKeyed a (r ∷ rows) h = elim (Bool-cases (text_eq (key r) (key a))) [
    | inl same ↦
        let e : key r ≡ key a = text_eq→eq (key r) (key a) same in
        rw same (subst (λ k. find key k rows ≡ none) e h.0, h.1)
    | inr other ↦ rw other (find-put-none (key r) a rows h.0, put-IsKeyed a rows h.1)
  ]

  pub find-insert-none :
      (k : Text) (a : A) (rows : List A)
      → find key k rows ≡ none
      → text_eq (key a) k ≡ false
      → find key k (insert key a rows) ≡ none
  unfolding find insert
  find-insert-none k a [] h e = ground arith
  find-insert-none k a (r ∷ rows) h e = ground (arith, find-insert-none k a rows)

  pub insert-IsKeyed :
      (a : A) (rows : List A)
      → find key (key a) rows ≡ none
      → IsKeyed rows
      → IsKeyed (insert key a rows)
  unfolding insert find
  insert-IsKeyed a [] f h = (refl, tt)
  insert-IsKeyed a (r ∷ rows) f h = (
    find-insert-none (key r) a rows h.0 (ground (arith, text_eq-sym (key a) (key r))),
    insert-IsKeyed a rows (ground arith) h.1,
  )

  pub first-find :
      (p : A → Bool) (rows : List A) (found : A)
      → IsKeyed rows
      → first p rows ≡ some found
      → find key (key found) rows ≡ some found
  unfolding first find
  first-find p [] found h e = cc
  first-find p (r ∷ rows) found h e = elim (Bool-cases (p r)) [
    | inl yes_here ↦ ground (arith, text_eq_refl (key r))
    | inr further ↦
        let ih : find key (key found) rows ≡ some found =
          first-find p rows found h.1 (ground arith) in
        ground (arith, text_eq→eq (key r) (key found))
  ]

  pub some_inj : {a b : A} → some a ≡ some b → a ≡ b
  some_inj h = cc

  pub first-put :
      (p : A → Bool) (a : A) (rows : List A) (old : A)
      → IsKeyed rows
      → first p rows ≡ some old
      → key a ≡ key old
      → p a ≡ true
      → first p (put key a rows) ≡ some a
  unfolding first put
  first-put p a [] old h e k pa = cc
  first-put p a (r ∷ rows) old h e k pa = elim (Bool-cases (p r)) [
    | inl here ↦
        let same : key r ≡ key a = ap key (some_inj (ground arith)) ∙ sym k in
        ground (arith, ap (λ (x : Text). text_eq x (key a)) same, text_eq_refl (key a))
    | inr further ↦
        let later : find key (key old) rows ≡ some old = first-find p rows old h.1 (ground arith) in
        ground (
          arith,
          first-put p a rows old h.1,
          text_eq→eq (key r) (key a),
          k,
          later,
          ap (λ (x : Text). find key x rows) k,
        )
  ]

module _ {A : Type 0} (p : A → Bool) (key : A → Text) where
  pub first-insert :
      (a : A) (rows : List A)
      → first p rows ≡ none
      → p a ≡ true
      → first p (insert key a rows) ≡ some a
  unfolding first insert
  first-insert a [] h pa = ground arith
  first-insert a (r ∷ rows) h pa = ground (arith, first-insert a rows)

-- A property of every row.
