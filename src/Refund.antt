-- ===== src/Refund.antt =====
-- The refund flow: `pos_service/services/refund.py`. Handlers run whole, as in `Checkout`.
pub mod Start
pub mod Payment
pub mod Poll
pub mod Moves
pub mod Handlers
pub mod Card
pub mod Blocking
pub mod Freed
pub mod Drift
mod Tests
pub use Start.{lookup_refund, start_refund, is_blocking, blocks}
pub use Payment.{charge_card_refund, charge_cash_refund}
pub use Poll.{cancel_refund, poll_refund_until_complete}
