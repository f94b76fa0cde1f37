-- ===== src/Till/Tests.antt =====
-- Examples for the results on till sessions: ann opens with a hundred, sells, and closes.
use hightower_pos.Prelude.{◌≡◌, refl, false, none, some, [], ◌∷◌, arith, Bool-cases, inl, inr}
use hightower_pos.Prelude.Int.{pos, ◌+ℤ◌, ◌*ℤ◌}
use hightower_pos.Prelude.Text.{text_eq, codes}
use hightower_pos.Table
use hightower_pos.Model.{TillSession}
use hightower_pos.Samples.{sold, shop, till_session}
use hightower_pos.Till.{
  Counts, denominations, denominations_to_cents, accepted, is_denomination, get_open_session,
  close_session,
}
use hightower_pos.Till.Counting.{denominations_to_cents-worth, worth}
use hightower_pos.Till.OneOpen.{TillsOk}
use hightower_pos.Till.Closing.{Closes, close_session-Closes}
use hightower_pos.Till.Tallies.{attribute_all, IsTallied, attribute_all-IsTallied}

abbrev coins : Counts
coins = (codes "twenty", pos 3) ∷ (codes "dime", pos 4) ∷ []

denominations_to_cents-worth_example :
    denominations_to_cents coins ≡ accepted (worth denominations coins)
unfolding is_denomination
denominations_to_cents-worth_example =
    denominations_to_cents-worth coins ((refl, tt), (tt, tt)) (refl, (refl, tt))
      (omega arith, (omega arith, tt))

one_till : TillsOk shop.till_sessions
unfolding Table.find Table.count
one_till = record {
  keyed = (refl, tt);
  one_open = λ c. elim (Bool-cases (text_eq (codes "ann") c)) [
    | inl here ↦ rw here (omega arith)
    | inr other ↦ rw other (omega arith)
  ];
}

close_session-Closes_example :
    Closes 20
      (codes "ann")
      coins
      (pos 6040)
      till_session
      (close_session 20 (codes "ann") coins none shop)
unfolding denominations_to_cents get_open_session Table.first ◌+ℤ◌ ◌*ℤ◌
close_session-Closes_example =
    close_session-Closes 20 (codes "ann") coins none shop till_session (pos 6040) one_till refl refl

attribute_all-IsTallied_example :
    (u : TillSession) × (get_open_session
        (codes "ann")
        (attribute_all ((false, sold) ∷ (false, sold) ∷ []) shop)
      ≡ some u)
    × IsTallied ((false, sold) ∷ (false, sold) ∷ []) till_session u
unfolding get_open_session Table.first
attribute_all-IsTallied_example =
    attribute_all-IsTallied ((false, sold) ∷ (false, sold) ∷ []) (codes "ann") shop till_session
      one_till (refl, (refl, tt)) refl
