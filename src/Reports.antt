-- ===== src/Reports.antt =====
-- The reads behind the reports: the listings of `pos_service/routes/till.py` and
-- `pos_service/routes/admin.py`. This module sorts and cuts rows as the queries do.
pub mod Tills
pub mod Pdf
pub mod Served
pub mod Shifts
pub mod Transactions
pub mod Listed
mod Tests
use hightower_pos.Prelude.{ℕ, Bool, List, [], ◌∷◌, if◌then◌else◌, leb, take, drop, keep}

-- `ORDER BY time DESC`; rows of the same time keep their order in the table, which the database may
-- choose otherwise.
module _ {A : Type 0} (time : A → ℕ) where
  unfoldable pub place_newest : A → List A → List A
  place_newest r [] = r ∷ []
  place_newest r (x ∷ rows) =
      let rest = place_newest r rows in if leb (time x) (time r) then r ∷ x ∷ rows else x ∷ rest

  unfoldable pub newest_first : List A → List A
  unfolding place_newest
  newest_first [] = []
  newest_first (r ∷ rows) = place_newest r (newest_first rows)

  -- `ORDER BY time ASC`
  unfoldable pub place_oldest : A → List A → List A
  place_oldest r [] = r ∷ []
  place_oldest r (x ∷ rows) =
      let rest = place_oldest r rows in if leb (time r) (time x) then r ∷ x ∷ rows else x ∷ rest

  unfoldable pub oldest_first : List A → List A
  unfolding place_oldest
  oldest_first [] = []
  oldest_first (r ∷ rows) = place_oldest r (oldest_first rows)

  -- `WHERE wanted ORDER BY time DESC LIMIT limit OFFSET offset`
  unfoldable pub page : (wanted : A → Bool) (limit offset : ℕ) → List A → List A
  unfolding newest_first
  page wanted limit offset rows = take limit (drop offset (newest_first (keep wanted rows)))
