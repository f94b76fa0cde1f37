-- ===== src/Samples.antt =====
-- Concrete rows, settings and answers that the tests and the examples run on. No code is modelled here.
use hightower_pos.Prelude.{ℕ, true, none, some, [], ◌∷◌}
use hightower_pos.Prelude.Int.{pos}
use hightower_pos.Prelude.Text.{Text, codes}
use hightower_pos.Model.{
  Txn, TillSession, OutboxEntry, Store, Settings, Env, Services, returned, RichLine, WindcaveStatus,
  sale, cash, complete, opened,
}
use hightower_pos.Checkout.Pricing.{LineIn}
use hightower_pos.Outbox.{new_entry}

abbrev pub settings : Settings
settings = record {
  tax_rate_digits = 8;
  tax_rate_scale = 100;
  windcave_station = codes "T1";
  windcave_device_id = codes "D1";
  windcave_currency = codes "USD";
  windcave_poll_interval_ms = 1000;
  windcave_max_poll_duration_s = 3;
  refund_window_days = 30;
}

abbrev pub env_at : ℕ → Text → Env
env_at now id = record { now = now; txn_id = id; entry_id = id }

abbrev pub approved_status : WindcaveStatus
approved_status = record {
  txn_ref = codes "r";
  complete = true;
  txn_status_id = none;
  result = some (record {
    approved = true;
    auth_code = none;
    card_brand = none;
    card_masked = none;
    card_last4 = none;
    dps_txn_ref = some (codes "d");
    txn_datetime = none;
    response_code = none;
    response_text = none;
    amount_cents = none;
  });
  raw_xml = codes "x";
}

-- Everything succeeds.
abbrev pub services : Services
services = record {
  validate_cart_reply = λ lines. returned (record { valid = true; conflicts = [] });
  create_pos_so_reply = λ request. returned (codes "so");
  create_pos_refund_reply = λ request. returned (codes "rso");
  windcave_charge_reply = λ amount ref. returned approved_status;
  windcave_refund_reply = λ amount dps ref. returned approved_status;
  windcave_cancel_reply = λ ref. returned true;
  windcave_status_reply = λ n ref. returned approved_status;
}

abbrev pub till_session : TillSession
till_session = record {
  id = codes "t";
  cashier_id = codes "ann";
  terminal_id = codes "T1";
  status = opened;
  opening_float_cents = pos 10000;
  opening_denominations = (codes "hundred", pos 1) ∷ [];
  closing_count_cents = none;
  closing_denominations = none;
  expected_closing_cents = none;
  variance_cents = none;
  cash_sales_cents = pos 0;
  cash_refunds_cents = pos 0;
  transaction_count = 0;
  cash_transaction_count = 0;
  opened_at = 0;
  closed_at = none;
  pdf_path = none;
}

abbrev pub sold_line : RichLine
sold_line = record {
  sku = codes "A";
  name = codes "tea";
  warehouse_id = codes "w";
  bin_id = codes "b";
  quantity = pos 2;
  is_taxable = true;
  unit_price_cents = pos 500;
  tax_cents = pos 80;
  line_total_cents = pos 1080;
}

-- A complete cash sale of 10.80.
abbrev pub sold : Txn
sold = record {
  id = codes "s";
  status = complete;
  txn_type = sale;
  parent_transaction_id = none;
  refund_transaction_id = none;
  cart = sold_line ∷ [];
  subtotal_cents = pos 1000;
  tax_cents = pos 80;
  total_cents = pos 1080;
  payment_method = some cash;
  tenders = none;
  windcave_txn_ref = none;
  windcave_response_xml = none;
  sentry_so_id = some (codes "so");
  cashier_id = codes "ann";
  terminal_id = codes "T1";
  customer_id = none;
  customer_name = none;
  customer_email = none;
  customer_phone = none;
  last_error = none;
  retry_count = 0;
  till_session_id = none;
  created_at = 0;
}

abbrev pub line_in : LineIn
line_in = record {
  sku = codes "A";
  name = codes "tea";
  warehouse_id = codes "w";
  bin_id = codes "b";
  quantity = pos 2;
  is_taxable = true;
}

-- An open till and a price, and no transaction.
abbrev pub shop : Store
shop = record {
  transactions = [];
  till_sessions = till_session ∷ [];
  users = [];
  sessions = [];
  prices = record { sku = codes "A"; unit_price_cents = pos 500; updated_at = 0 } ∷ [];
  price_imports = [];
  outbox = [];
  calls = [];
}

abbrev pub sold_entry : OutboxEntry
sold_entry = new_entry settings (env_at 0 (codes "e")) sold

abbrev pub shop_after_sale : Store
shop_after_sale = record shop { transactions = sold ∷ []; outbox = sold_entry ∷ [] }
