-- ===== src/Reports/Listed.antt =====
-- What a page of a listing of `pos_service/routes/till.py` and `pos_service/routes/admin.py` holds.
use hightower_pos.Prelude.{
  ℕ, zero, suc, ◌+◌, ◌≤◌, ◌≡◌, refl, ap, ◌∙◌, Bool, true, ◌&&◌, List, [], ◌∷◌, arith, leb, map,
  keep, take, drop, length, length-take, All, All-map, All-take, Bool-cases, inl, inr,
}
use hightower_pos.Table
use hightower_pos.Model.{TillSession, Store}
use hightower_pos.Reports.{newest_first, place_newest, page}
use hightower_pos.Reports.Tills.{
  SessionQuery, is_listed, session_summary, list_sessions, matches_text, matches_status, not_before,
  not_after, status_text,
}
use hightower_pos.Prelude.Text.{Text, text_eq_iff}
use hightower_pos.Prelude.{◌↔◌, Option, none, some}

module _ {A : Type 0} (time : A → ℕ) where
  abbrev pub IsNewestFirst : List A → Type 0
  IsNewestFirst [] = Unit
  IsNewestFirst (r ∷ rows) = All (λ x. time x ≤ time r) rows × IsNewestFirst rows

  module _ (P : A → Type 0) where
    place_newest-All : (r : A) (rows : List A) → P r → All P rows → All P (place_newest time r rows)
    unfolding place_newest
    place_newest-All r [] h hs = (h, tt)
    place_newest-All r (x ∷ rows) h hs = elim (Bool-cases (leb (time x) (time r))) [
      | inl here ↦ rw (here, place_newest) (h, hs)
      | inr later ↦ rw (later, place_newest) (hs.0, place_newest-All r rows h hs.1)
    ]

    newest_first-All : (rows : List A) → All P rows → All P (newest_first time rows)
    unfolding newest_first
    newest_first-All [] h = tt
    newest_first-All (r ∷ rows) h =
        place_newest-All r (newest_first time rows) h.0 (newest_first-All rows h.1)

    drop-All : (n : ℕ) (rows : List A) → All P rows → All P (drop n rows)
    drop-All zero rows h = h
    drop-All (suc n) [] h = tt
    drop-All (suc n) (r ∷ rows) h = drop-All n rows h.1

  at_most :
      (a b : A) (rows : List A)
      → time a ≤ time b
      → All (λ x. time x ≤ time a) rows
      → All (λ x. time x ≤ time b) rows
  at_most a b rows le h =
      All-map (λ x. time x ≤ time a) (λ x. time x ≤ time b) (λ x hx. omega (arith, hx, le)) rows h

  place_newest-IsNewestFirst :
      (r : A) (rows : List A) → IsNewestFirst rows → IsNewestFirst (place_newest time r rows)
  unfolding place_newest
  place_newest-IsNewestFirst r [] h = (tt, tt)
  place_newest-IsNewestFirst r (x ∷ rows) h = elim (Bool-cases (leb (time x) (time r))) [
    | inl here ↦
        let le : time x ≤ time r = ground (arith, here) in
        rw (here, place_newest) ((le, at_most x r rows le h.0), h)
    | inr later ↦
        rw (later, place_newest)
          (
            place_newest-All (λ y. time y ≤ time x) r rows (ground (arith, later)) h.0,
            place_newest-IsNewestFirst r rows h.1,
          )
  ]

  newest_first-IsNewestFirst : (rows : List A) → IsNewestFirst (newest_first time rows)
  unfolding newest_first
  newest_first-IsNewestFirst [] = tt
  newest_first-IsNewestFirst (r ∷ rows) =
      place_newest-IsNewestFirst r (newest_first time rows) (newest_first-IsNewestFirst rows)

  take-IsNewestFirst : (n : ℕ) (rows : List A) → IsNewestFirst rows → IsNewestFirst (take n rows)
  take-IsNewestFirst zero rows h = tt
  take-IsNewestFirst (suc n) [] h = tt
  take-IsNewestFirst (suc n) (r ∷ rows) h =
      (All-take (λ x. time x ≤ time r) n rows h.0, take-IsNewestFirst n rows h.1)

  drop-IsNewestFirst : (n : ℕ) (rows : List A) → IsNewestFirst rows → IsNewestFirst (drop n rows)
  drop-IsNewestFirst zero rows h = h
  drop-IsNewestFirst (suc n) [] h = tt
  drop-IsNewestFirst (suc n) (r ∷ rows) h = drop-IsNewestFirst n rows h.1

  count-place_newest :
      (p : A → Bool) (r : A) (rows : List A)
      → Table.count p (place_newest time r rows) ≡ Table.bit (p r) + Table.count p rows
  unfolding place_newest Table.count
  count-place_newest p r [] = refl
  count-place_newest p r (x ∷ rows) = elim (Bool-cases (leb (time x) (time r))) [
    | inl here ↦ rw (here, place_newest) refl
    | inr later ↦ rw (later, place_newest) (omega (arith, count-place_newest p r rows))
  ]

  count-newest_first :
      (p : A → Bool) (rows : List A) → Table.count p (newest_first time rows) ≡ Table.count p rows
  unfolding newest_first Table.count
  count-newest_first p [] = refl
  count-newest_first p (r ∷ rows) =
      count-place_newest p r (newest_first time rows)
      ∙ ap (λ n. Table.bit (p r) + n) (count-newest_first p rows)

  -- A page of the rows that are wanted: at most `limit` of them, all wanted, the newest first, cut at
  -- `offset` from the one listing in which each wanted row of the table counts as often as there.
  pub record IsPage (wanted : A → Bool) (limit offset : ℕ) (table rows : List A) : Type 0 where
    pub bounded : length rows ≤ limit
    pub all_wanted : All (λ r. wanted r ≡ true) rows
    pub newest : IsNewestFirst rows
    pub listing : List A
    pub cut : rows ≡ take limit (drop offset listing)
    pub listing_newest : IsNewestFirst listing
    pub listing_complete :
        (p : A → Bool) → Table.count p listing ≡ Table.count (λ r. wanted r && p r) table

  count-keep :
      (wanted p : A → Bool) (table : List A)
      → Table.count p (keep wanted table) ≡ Table.count (λ r. wanted r && p r) table
  unfolding Table.count
  count-keep wanted p [] = refl
  count-keep wanted p (r ∷ table) = elim (Bool-cases (wanted r)) [
    | inl kept ↦ rw (kept, Table.count) (ap (λ n. Table.bit (p r) + n) (count-keep wanted p table))
    | inr left_out ↦ rw (left_out, Table.count) (omega (arith, count-keep wanted p table))
  ]

  keep-wanted :
      (wanted : A → Bool) (table : List A) → All (λ r. wanted r ≡ true) (keep wanted table)
  keep-wanted wanted [] = tt
  keep-wanted wanted (r ∷ table) = elim (Bool-cases (wanted r)) [
    | inl kept ↦ rw (kept, All) (kept, keep-wanted wanted table)
    | inr left_out ↦ rw (left_out, All) (keep-wanted wanted table)
  ]

  pub page-IsPage :
      (wanted : A → Bool) (limit offset : ℕ) (table : List A)
      → IsPage wanted limit offset table (page time wanted limit offset table)
  unfolding page
  page-IsPage wanted limit offset table =
      let listing = newest_first time (keep wanted table) in
      record {
        bounded = omega (arith, length-take limit (drop offset listing));
        all_wanted =
            All-take (λ r. wanted r ≡ true) limit (drop offset listing)
              (drop-All (λ r. wanted r ≡ true) offset listing
                (newest_first-All (λ r. wanted r ≡ true) (keep wanted table)
                  (keep-wanted wanted table)));
        newest =
            take-IsNewestFirst limit (drop offset listing)
              (drop-IsNewestFirst offset listing (newest_first-IsNewestFirst (keep wanted table)));
        listing = listing;
        cut = refl;
        listing_newest = newest_first-IsNewestFirst (keep wanted table);
        listing_complete =
            λ p. count-newest_first p (keep wanted table) ∙ count-keep wanted p table;
      }

-- What each filter asks of a session, where the query has it. An empty status asks for nothing.
abbrev pub AsksCashier : Option Text → Text → Type 0
AsksCashier none cashier_id = Unit
AsksCashier (some wanted) cashier_id = cashier_id ≡ wanted

abbrev pub AsksStatus : Option Text → Text → Type 0
AsksStatus none status = Unit
AsksStatus (some []) status = Unit
AsksStatus (some (c ∷ wanted)) status = status ≡ c ∷ wanted

abbrev pub AsksFrom : Option ℕ → ℕ → Type 0
AsksFrom none opened_at = Unit
AsksFrom (some from) opened_at = from ≤ opened_at

abbrev pub AsksTo : Option ℕ → ℕ → Type 0
AsksTo none opened_at = Unit
AsksTo (some to) opened_at = opened_at ≤ to

abbrev pub Asks : SessionQuery → TillSession → Type 0
Asks q row =
    ((AsksCashier q.cashier_id row.cashier_id × AsksStatus q.status (status_text row.status))
      × AsksFrom q.from row.opened_at)
    × AsksTo q.to row.opened_at

cashier_filter : (o : Option Text) (t : Text) → (matches_text o t ≡ true) ↔ AsksCashier o t
cashier_filter none t = ((λ h. tt), (λ h. refl))
cashier_filter (some wanted) t = text_eq_iff t wanted

status_filter : (o : Option Text) (t : Text) → (matches_status o t ≡ true) ↔ AsksStatus o t
status_filter none t = ((λ h. tt), (λ h. refl))
status_filter (some []) t = ((λ h. tt), (λ h. refl))
status_filter (some (c ∷ wanted)) t = text_eq_iff t (c ∷ wanted)

from_filter : (o : Option ℕ) (t : ℕ) → (not_before o t ≡ true) ↔ AsksFrom o t
from_filter none t = ((λ h. tt), (λ h. refl))
from_filter (some from) t = ((λ h. ground (arith, h)), (λ h. ground (arith, h)))

to_filter : (o : Option ℕ) (t : ℕ) → (not_after o t ≡ true) ↔ AsksTo o t
to_filter none t = ((λ h. tt), (λ h. refl))
to_filter (some to) t = ((λ h. ground (arith, h)), (λ h. ground (arith, h)))

both_filters :
    {P Q : Type 0} (a b : Bool) → (a ≡ true) ↔ P → (b ≡ true) ↔ Q → ((a && b) ≡ true) ↔ (P × Q)
both_filters a b p q =
    (λ h. (p.0 (ground (arith, h)), q.0 (ground (arith, h))), λ h. joined (p.1 h.0) (q.1 h.1))
  where
    joined : a ≡ true → b ≡ true → (a && b) ≡ true
    joined here there = rw (here, there) refl

is_listed-Asks : (q : SessionQuery) (row : TillSession) → (is_listed q row ≡ true) ↔ Asks q row
unfolding is_listed
is_listed-Asks q row =
    both_filters _ _
      (both_filters _ _
        (both_filters _ _ (cashier_filter q.cashier_id row.cashier_id)
          (status_filter q.status (status_text row.status)))
        (from_filter q.from row.opened_at))
      (to_filter q.to row.opened_at)

-- The listing of till sessions shows a page of the sessions that the query asks for, the newest first,
-- from the offset on and no more than the limit; it asks for exactly the sessions of its cashier, with
-- its status, opened no earlier than `from` and no later than `to`, where it has these filters.
pub list_sessions-IsPage :
    (q : SessionQuery) (s : Store)
    → ((rows : List TillSession) × (list_sessions q s ≡ map session_summary rows)
        × IsPage (λ r. r.opened_at) (is_listed q) q.limit q.offset s.till_sessions rows)
      × ((row : TillSession) → (is_listed q row ≡ true) ↔ Asks q row)
unfolding list_sessions
list_sessions-IsPage q s = (
  (
    page (λ r. r.opened_at) (is_listed q) q.limit q.offset s.till_sessions,
    refl,
    page-IsPage (λ r. r.opened_at) (is_listed q) q.limit q.offset s.till_sessions,
  ),
  is_listed-Asks q,
)
