-- ===== src/Checkout/Tests.antt =====
-- Examples for the results on sales.
use hightower_pos.Checkout.Prices.{asked, scan_prices_lem}
use hightower_pos.Checkout.Outcomes.{IsReady, start_checkout-IsReady}
use hightower_pos.Checkout.Cash.{AfterCash, charge_cash_lem}
use hightower_pos.Checkout.Payment.{charge_cash, build_checkout_request, paid_cash}
use hightower_pos.Table
use hightower_pos.Checkout.Rounding.{IsNearest, round_half_even_lem}
use hightower_pos.Prelude.{
  none, some, List, is_some, true, false, ℕ, ◌≡◌, refl, suc, none, [], ◌∷◌, arith,
}
use hightower_pos.Prelude.Int.{ltb_ℤ, ℤ, ◌*ℤ◌, pos, ◌+ℤ◌}
use hightower_pos.Prelude.Text.{codes}
use hightower_pos.Model.{
  Txn, Store, Price, err, cash, awaiting_payment, insufficient_tender, Reply, failed,
  WindcaveStatus,
}
use hightower_pos.Samples.{services, shop, settings, env_at, sold, line_in}
use hightower_pos.Checkout.Pricing.{
  LineIn, scan_prices, listed, price_in, get_price_cents, start_checkout, Prices, new_sale,
  no_customer, price_lines, round_half_even,
}
use hightower_pos.Checkout.Poll.{poll_loop, deadline_ms, timed_out}
use hightower_pos.Checkout.Deadline.{IsEnd, poll_loop_ends}
use hightower_pos.Checkout.Totals.{IsBalanced, column, new_sale-IsBalanced}

-- Three thousand milliseconds at one poll a second, with a terminal that never answers.
abbrev silent : ℕ → Reply WindcaveStatus
silent n = failed (record { message = codes "down"; error_code = none })

poll_loop_ends_example :
    IsEnd (poll_loop silent 1000 (deadline_ms settings) (suc (deadline_ms settings)) 0 0)
poll_loop_ends_example = poll_loop_ends silent settings (omega arith)

silent_terminal :
    poll_loop silent 1000 (deadline_ms settings) (suc (deadline_ms settings)) 0 0 ≡ timed_out
unfolding poll_loop
silent_terminal = refl

-- Half a cent goes to the even neighbour.
half_to_even :
    (round_half_even 5 10 ≡ 0) × (round_half_even 15 10 ≡ 2) × (round_half_even 26 10 ≡ 3)
unfolding round_half_even
half_to_even = (refl, refl, refl)

abbrev tea : Prices
tea = (codes "A", pos 500) ∷ []

new_sale-IsBalanced_example : IsBalanced (
    new_sale settings
      (env_at 5 (codes "1"))
      (price_lines settings tea (line_in ∷ []) ([], pos 0, pos 0))
      (codes "ann")
      no_customer)
new_sale-IsBalanced_example =
    new_sale-IsBalanced settings (env_at 5 (codes "1")) tea (line_in ∷ []) (codes "ann") no_customer

sold-IsBalanced : IsBalanced sold
unfolding column ◌+ℤ◌
sold-IsBalanced = record { total = refl; taxes = refl; lines = refl }

abbrev teas : List Price
teas = record { sku = codes "A"; unit_price_cents = pos 500; updated_at = 0 } ∷ []

abbrev coffee : LineIn
coffee = record line_in { sku = codes "C" }

scan_prices_lem_example :
    let out = scan_prices teas (line_in ∷ coffee ∷ []) ([], []) in
    (listed (codes "C") out.0 ≡ true)
    × (is_some (price_in out.1 (codes "C")) ≡ false)
    × ((p : ℤ) → price_in out.1 (codes "C") ≡ some p → get_price_cents teas (codes "C") ≡ some p)
unfolding Table.find asked
scan_prices_lem_example = scan_prices_lem teas (line_in ∷ coffee ∷ []) (codes "C")

abbrev waiting : Txn
waiting = record sold {
  id = codes "1";
  status = awaiting_payment;
  payment_method = none;
  sentry_so_id = none;
  created_at = 5;
}

abbrev shop_waiting : Store
shop_waiting = record shop { transactions = waiting ∷ [] }

start_checkout-IsReady_example :
    IsReady waiting
      (start_checkout settings services
        (env_at 5 (codes "1"))
        (line_in ∷ [])
        (codes "ann")
        none
        shop).1
unfolding start_checkout Table.find Table.put Table.insert ◌+ℤ◌ ◌*ℤ◌
start_checkout-IsReady_example =
    start_checkout-IsReady settings services (env_at 5 (codes "1")) (line_in ∷ []) (codes "ann")
      none shop
      (start_checkout settings services (env_at 5 (codes "1")) (line_in ∷ []) (codes "ann") none
        shop).1
      waiting refl refl

charge_cash_lem_example :
    let out =
      charge_cash settings services (env_at 6 (codes "2")) (codes "1") (pos 2000) shop_waiting in
    let reply =
      services.create_pos_so_reply (build_checkout_request 6 (paid_cash (pos 2000) waiting) cash) in
    (ltb_ℤ (pos 2000) (pos 1080) ≡ true
      → out ≡ (err (insufficient_tender (pos 1080)) 400, shop_waiting))
    × (ltb_ℤ (pos 2000) (pos 1080) ≡ false → AfterCash (pos 2000) waiting shop_waiting reply out)
unfolding Table.find
charge_cash_lem_example =
    charge_cash_lem settings services (env_at 6 (codes "2")) (pos 2000) waiting shop_waiting refl
      refl refl

-- Four and a half cents round to four.
round_half_even_lem_example : IsNearest 45 10 (round_half_even 45 10)
round_half_even_lem_example = round_half_even_lem 45 10 (omega arith)
