-- ===== src/Checkout.antt =====
-- The sale flow: `pos_service/services/checkout.py`. A handler runs whole; the answers of Sentry and
-- Windcave come from `Services`, and each request to them is logged in the store.
pub mod Pricing
pub mod Payment
pub mod Poll
pub mod Totals
pub mod Rounding
pub mod Prices
pub mod Outcomes
pub mod Cash
pub mod Deadline
pub mod Moves
pub mod Handlers
pub mod Started
mod Tests
pub use Pricing.{compute_line_tax, LineIn, Customer, start_checkout}
pub use Payment.{charge_cash, charge_card, cancel_checkout, finalize_card_charge, send_to_sentry}
pub use Poll.{poll_card_until_complete}
