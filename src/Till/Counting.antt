-- ===== src/Till/Counting.antt =====
-- `denominations_to_cents` against the plain worth of a dict of counts.
use hightower_pos.Prelude.{
  ℕ, ◌≡◌, refl, ap, inl, inr, true, false, none, List, [], ◌∷◌, arith, if◌then◌else◌, All,
  Bool-cases, Option-cases, subst, sym,
}
use hightower_pos.Prelude.Int.{ℤ, pos, ◌+ℤ◌, ◌*ℤ◌, ◌≤ℤ◌, ltb_ℤ, int_laws}
use hightower_pos.Prelude.Text.{Text, text_eq, text_eq→eq, text_eq_refl, text_eq-sym}
use hightower_pos.Till.{
  Counts, denominations, is_denomination, unknown_key, count_of, sum_counts, denominations_to_cents,
  TillError, accepted, refused,
}

-- The cents that one piece of this name is worth.
pub value_of : List (Text × ℕ) → Text → ℕ
value_of [] k = 0
value_of ((name, value) ∷ table) k = if text_eq name k then value else value_of table k

-- Entry by entry, each count times the value of its piece.
pub worth : List (Text × ℕ) → Counts → ℤ
unfolding value_of
worth table [] = pos 0
worth table ((k, n) ∷ counts) = n *ℤ pos (value_of table k) +ℤ worth table counts

-- The keys of a dict are distinct.
abbrev pub IsAbsent : {A : Type 0} → Text → List (Text × A) → Type 0
IsAbsent k = All (λ e. text_eq e.0 k ≡ false)

abbrev pub IsDistinct : {A : Type 0} → List (Text × A) → Type 0
IsDistinct [] = Unit
IsDistinct ((k, n) ∷ m) = IsAbsent k m × IsDistinct m

-- The denominations' sum, as a plain recursion.
sum_table : List (Text × ℕ) → Counts → ℤ
sum_table [] counts = pos 0
sum_table ((name, value) ∷ table) counts =
    count_of name counts *ℤ pos value +ℤ sum_table table counts

mul_zero : (n : ℤ) → n *ℤ pos 0 ≡ pos 0
unfolding ◌*ℤ◌
mul_zero n = ground arith

zero_mul : (v : ℕ) → pos 0 *ℤ pos v ≡ pos 0
unfolding ◌*ℤ◌
zero_mul v = ground arith

count_of-absent : (k : Text) (counts : Counts) → IsAbsent k counts → count_of k counts ≡ pos 0
unfolding count_of
count_of-absent k [] h = refl
count_of-absent k ((j, n) ∷ counts) h = ground (arith, count_of-absent k counts h.1)

sum_table-nil : (table : List (Text × ℕ)) → sum_table table [] ≡ pos 0
unfolding sum_table count_of
sum_table-nil [] = refl
sum_table-nil ((name, value) ∷ table) = grind (int_laws, zero_mul value, sum_table-nil table)

sum_table-skip :
    (k : Text) (n : ℤ) (counts : Counts) (table : List (Text × ℕ))
    → IsAbsent k table
    → sum_table table ((k, n) ∷ counts) ≡ sum_table table counts
unfolding sum_table count_of
sum_table-skip k n counts [] h = refl
sum_table-skip k n counts ((name, value) ∷ table) h =
    ground (arith, sum_table-skip k n counts table h.1, text_eq-sym name k)

count_of-head : (k : Text) (n : ℤ) (counts : Counts) → count_of k ((k, n) ∷ counts) ≡ n
unfolding count_of
count_of-head k n counts = rw (text_eq_refl k)

count_of-skip :
    (name k : Text) (n : ℤ) (counts : Counts)
    → text_eq name k ≡ false
    → count_of name ((k, n) ∷ counts) ≡ count_of name counts
unfolding count_of
count_of-skip name k n counts h = ground (arith, text_eq-sym name k)

pub refused≢accepted : {A : Type 0} {e : TillError} {a : A} → refused e ≡ accepted a → ⊥
refused≢accepted h = cc

sum_table-cons :
    (k : Text) (n : ℤ) (counts : Counts) (table : List (Text × ℕ))
    → IsDistinct table
    → IsAbsent k counts
    → sum_table table ((k, n) ∷ counts) ≡ n *ℤ pos (value_of table k) +ℤ sum_table table counts
unfolding sum_table value_of
sum_table-cons k n counts [] d h = grind (int_laws, mul_zero n)
sum_table-cons k n counts ((name, value) ∷ table) d h = elim (Bool-cases (text_eq name k)) [
  | inl same ↦
      let e : name ≡ k = text_eq→eq name k same in
      let absent : IsAbsent k table = subst (λ x. IsAbsent x table) e d.0 in
      let none_here : count_of name counts ≡ pos 0 =
        subst (λ x. count_of x counts ≡ pos 0) (sym e) (count_of-absent k counts h) in
      let taken : count_of name ((k, n) ∷ counts) ≡ n =
        subst (λ x. count_of x ((k, n) ∷ counts) ≡ n) (sym e) (count_of-head k n counts) in
      rw (same, taken, none_here, zero_mul value, sum_table-skip k n counts table absent)
        (omega int_laws)
  | inr other ↦
      let passed : count_of name ((k, n) ∷ counts) ≡ count_of name counts =
        count_of-skip name k n counts other in
      rw (other, passed, sum_table-cons k n counts table d.1 h) (omega int_laws)
]

sum_table-eq-worth :
    (table : List (Text × ℕ)) (counts : Counts)
    → IsDistinct table
    → IsDistinct counts
    → sum_table table counts ≡ worth table counts
unfolding worth
sum_table-eq-worth table [] d h = sum_table-nil table
sum_table-eq-worth table ((k, n) ∷ counts) d h =
    rw (sum_table-cons k n counts table d h.0, sum_table-eq-worth table counts d h.1)

count_of-nonneg :
    (name : Text) (counts : Counts)
    → All (λ e. pos 0 ≤ℤ e.1) counts
    → ltb_ℤ (count_of name counts) (pos 0) ≡ false
unfolding count_of
count_of-nonneg name [] h = refl
count_of-nonneg name ((k, n) ∷ counts) h = ground (arith, count_of-nonneg name counts h.1)

sum_counts-accepts :
    (table : List (Text × ℕ)) (counts : Counts) (total : ℤ)
    → All (λ e. pos 0 ≤ℤ e.1) counts
    → sum_counts table counts total ≡ accepted (total +ℤ sum_table table counts)
unfolding sum_counts sum_table
sum_counts-accepts [] counts total h = ap accepted (omega int_laws)
sum_counts-accepts ((name, value) ∷ table) counts total h =
    rw
      (
        count_of-nonneg name counts h,
        sum_counts-accepts table counts (total +ℤ count_of name counts *ℤ pos value) h,
      )
      (ap accepted (omega int_laws))

unknown_key-none :
    (table : List (Text × ℕ)) (counts : Counts)
    → All (λ e. is_denomination table e.0 ≡ true) counts
    → unknown_key table counts ≡ none
unfolding unknown_key
unknown_key-none table [] h = refl
unknown_key-none table (e ∷ counts) h = rw (h.0) (unknown_key-none table counts h.1)

denominations-IsDistinct : IsDistinct denominations
denominations-IsDistinct = ground arith

-- A dict of distinct known denominations with no negative count is accepted, and the total is the
-- sum, over the entries of the dict, of the count times the cents of one piece.
pub denominations_to_cents-worth :
    (counts : Counts)
    → IsDistinct counts
    → All (λ e. is_denomination denominations e.0 ≡ true) counts
    → All (λ e. pos 0 ≤ℤ e.1) counts
    → denominations_to_cents counts ≡ accepted (worth denominations counts)
unfolding denominations_to_cents
denominations_to_cents-worth counts d known nonneg =
    rw
      (
        unknown_key-none denominations counts known,
        denominations_to_cents,
        sum_counts-accepts denominations counts (pos 0) nonneg,
        sum_table-eq-worth denominations counts denominations-IsDistinct d,
      )
      (ap accepted (omega int_laws))

-- An accepted dict has only known keys.
unknown_key_sound :
    (table : List (Text × ℕ)) (counts : Counts)
    → unknown_key table counts ≡ none
    → All (λ e. is_denomination table e.0 ≡ true) counts
unfolding unknown_key
unknown_key_sound table [] h = tt
unknown_key_sound table (e ∷ counts) h = ground (arith, unknown_key_sound table counts)

-- Each denomination's count, in an accepted sum.
sum_counts_nonneg :
    (table : List (Text × ℕ)) (counts : Counts) (total out : ℤ)
    → sum_counts table counts total ≡ accepted out
    → All (λ d. pos 0 ≤ℤ count_of d.0 counts) table
unfolding sum_counts
sum_counts_nonneg [] counts total out h = tt
sum_counts_nonneg ((name, value) ∷ table) counts total out h =
    ground (arith, sum_counts_nonneg table counts (total +ℤ count_of name counts *ℤ pos value) out)

-- An accepted dict names only denominations and gives none of them a negative count.
pub denominations_to_cents_sound :
    (counts : Counts) (out : ℤ)
    → denominations_to_cents counts ≡ accepted out
    → All (λ e. is_denomination denominations e.0 ≡ true) counts
      × All (λ d. pos 0 ≤ℤ count_of d.0 counts) denominations
unfolding denominations_to_cents
denominations_to_cents_sound counts out h = elim (Option-cases (unknown_key denominations counts)) [
  | inl e ↦ (
    unknown_key_sound denominations counts e,
    sum_counts_nonneg denominations counts (pos 0) out (rw (e, denominations_to_cents) at h),
  )
  | inr (k, e) ↦ absurd (refused≢accepted (rw (e, denominations_to_cents) at h))
]
