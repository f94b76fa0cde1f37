-- ===== src/Model/Config.antt =====
-- The part of `Settings` of `pos_service/config.py` that the services read, and what a request brings
-- with it: the time and the fresh uuids. The tax rate is the decimal that `str(tax_rate)` spells.
use hightower_pos.Prelude.{ℕ}
use hightower_pos.Prelude.Text.{Text}

pub record Settings : Type 0 where
  -- The rate is `tax_rate_digits / tax_rate_scale`, the scale being a power of ten.
  pub tax_rate_digits : ℕ
  pub tax_rate_scale : ℕ
  pub windcave_station : Text
  pub windcave_device_id : Text
  pub windcave_currency : Text
  pub windcave_poll_interval_ms : ℕ
  pub windcave_max_poll_duration_s : ℕ
  pub refund_window_days : ℕ

-- The clock and the uuids of one request.
pub record Env : Type 0 where
  pub now : ℕ
  pub txn_id : Text
  pub entry_id : Text
