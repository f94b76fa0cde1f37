-- ===== src/Model/Kinds.antt =====
-- Tests on the columns of a row that hold one of a fixed set of strings.
use hightower_pos.Prelude.{Bool, true, false, Option, some}
use hightower_pos.Model.Rows.{
  Status, TxnType, Method, TillStatus, OutboxStatus, awaiting_payment, card, cash, closed, complete,
  in_flight, opened, payment_in_flight, pending, refund, refund_payment_in_flight, refund_pending,
  sale,
}

-- Equality of the enumerated columns with a value.
abbrev pub is_cash : Option Method → Bool
is_cash (some cash) = true
is_cash _ = false

abbrev pub is_card : Option Method → Bool
is_card (some card) = true
is_card _ = false

abbrev pub is_sale : TxnType → Bool
is_sale sale = true
is_sale refund = false

abbrev pub is_opened : TillStatus → Bool
is_opened opened = true
is_opened closed = false

abbrev pub is_pending : OutboxStatus → Bool
is_pending pending = true
is_pending _ = false

abbrev pub is_in_flight : OutboxStatus → Bool
is_in_flight in_flight = true
is_in_flight _ = false

abbrev pub is_refund_type : TxnType → Bool
is_refund_type sale = false
is_refund_type refund = true

abbrev pub is_awaiting_payment : Status → Bool
is_awaiting_payment awaiting_payment = true
is_awaiting_payment _ = false

abbrev pub is_payment_in_flight : Status → Bool
is_payment_in_flight payment_in_flight = true
is_payment_in_flight _ = false

abbrev pub is_refund_pending : Status → Bool
is_refund_pending refund_pending = true
is_refund_pending _ = false

abbrev pub is_refund_in_flight : Status → Bool
is_refund_in_flight refund_payment_in_flight = true
is_refund_in_flight _ = false

abbrev pub is_complete : Status → Bool
is_complete complete = true
is_complete _ = false
