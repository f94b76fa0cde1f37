-- ===== src/Receipt/Tests.antt =====
-- Examples for the results on receipts, and single lines checked against Python's output.
use hightower_pos.Prelude.{◌≡◌, refl, true, false, none, some, [], ◌∷◌, arith}
use hightower_pos.Prelude.Int.{pos, negsuc}
use hightower_pos.Prelude.Text.{codes}
use hightower_pos.Model.{Txn, Tender, cash}
use hightower_pos.Samples.{settings, sold}
use hightower_pos.Clients.Windcave.{XmlParser}
use hightower_pos.Receipt.{pad_pair, center, money, signed_money}
use hightower_pos.Receipt.Dates.{date_text, timestamp_text}
use hightower_pos.Receipt.Format.{StoreInfo, receipt_lines, cart_line_pair, rate_label}
use hightower_pos.Receipt.Width.{AllFit, IsCashTender, receipt_lines-AllFit}

epoch : date_text 0 ≡ codes "1970-01-01"
unfolding date_text
epoch = refl

leap_day : timestamp_text 1709251199 ≡ codes "2024-02-29 23:59:59"
unfolding timestamp_text
leap_day = refl

end_of_century : date_text 951868800 ≡ codes "2000-03-01"
unfolding date_text
end_of_century = refl

end_of_year : date_text 1798761599 ≡ codes "2026-12-31"
unfolding date_text
end_of_year = refl

odd_space : center (codes " abc ") 8 ≡ codes "  abc   "
unfolding center
odd_space = refl

odd_width : center (codes "ab") 5 ≡ codes "  ab "
unfolding center
odd_width = refl

negative : signed_money (negsuc 1204) ≡ codes "-$12.05"
unfolding signed_money
negative = refl

rate : rate_label settings ≡ codes "(8.00%)"
unfolding rate_label
rate = refl

abbrev no_xml : XmlParser
no_xml text = none

abbrev hightower : StoreInfo
hightower = record {
  store_name = codes "Hightower";
  store_address_line_1 = codes "1 Main Street";
  store_address_line_2 = [];
  store_phone = [];
}

abbrev paid_tender : Tender
paid_tender = record {
  method = cash;
  amount_cents = pos 1080;
  card_brand = none;
  card_last4 = none;
  auth_code = none;
  external_ref = none;
  amount_tendered_cents = some (pos 2000);
  change_cents = some (pos 920);
}

abbrev sold_for_cash : Txn
sold_for_cash = record sold { tenders = some (paid_tender ∷ []) }

paid_tender-IsCashTender : IsCashTender paid_tender
paid_tender-IsCashTender = record {
  method_cash = refl;
  small = omega arith;
  tendered_small = λ a h. ground (arith, h);
  change_small = λ a h. ground (arith, h);
}

receipt_lines-AllFit_example : AllFit (receipt_lines no_xml settings hightower none sold_for_cash)
receipt_lines-AllFit_example =
    receipt_lines-AllFit no_xml settings hightower none sold_for_cash refl (omega arith, tt)
      (omega arith) (omega arith) (omega arith) (paid_tender-IsCashTender, tt)

total_line :
    cart_line_pair false (record {
      sku = codes "A";
      name = codes "tea";
      warehouse_id = [];
      bin_id = [];
      quantity = pos 2;
      is_taxable = true;
      unit_price_cents = pos 500;
      tax_cents = pos 80;
      line_total_cents = pos 1080;
    })
    ≡ codes "  Qty 2 @ $5.00         $10.80"
unfolding cart_line_pair pad_pair money
total_line = refl
