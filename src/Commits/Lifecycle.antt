-- ===== src/Commits/Lifecycle.antt =====
-- The tables behind the status machine: what a step keeps.
use hightower_pos.Prelude.{
  ◌≤◌, ◌≡◌, ◌⊎◌, inl, inr, Bool, true, false, ◌&&◌, Option, none, some, arith, sym,
}
use hightower_pos.Prelude.Text.{Text}
use hightower_pos.Table.{bit}
use hightower_pos.Model
use hightower_pos.Model.{Status, TxnType, sale, refund, Txn}
use hightower_pos.Refund.Start.{is_blocking, has_parent, blocks}
use hightower_pos.Commits.{may_follow, Changes}

abbrev pub sale_status : Status → Bool
sale_status Model.pending_validation = true
sale_status Model.validation_failed = true
sale_status Model.awaiting_payment = true
sale_status Model.payment_in_flight = true
sale_status Model.payment_success = true
sale_status Model.payment_failed = true
sale_status Model.inventory_update_failed = true
sale_status Model.complete = true
sale_status Model.cancelled = true
sale_status _ = false

abbrev pub refund_status : Status → Bool
refund_status Model.complete = true
refund_status Model.cancelled = true
refund_status Model.refund_pending = true
refund_status Model.refund_payment_in_flight = true
refund_status Model.refund_payment_success = true
refund_status Model.refund_payment_failed = true
refund_status Model.refund_inventory_update_failed = true
refund_status _ = false

-- A sale has no parent and a sale's status; a refund has a parent and a refund's status.
abbrev pub fits : TxnType → Option Text → Status → Bool
fits sale none st = sale_status st
fits sale (some p) st = false
fits refund none st = false
fits refund (some p) st = refund_status st

abbrev pub TxnOk : Txn → Type 0
TxnOk t = fits t.txn_type t.parent_transaction_id t.status ≡ true

follow-fits :
    (ty : TxnType) (p : Option Text) (a b : Status)
    → fits ty p a ≡ true
    → may_follow ty a b ≡ true
    → fits ty p b ≡ true
follow-fits sale none a b h f = ground arith
follow-fits sale (some p) a b h f = cc
follow-fits refund none a b h f = cc
follow-fits refund (some p) a b h f = ground arith

-- A refund's step never turns a row that blocks nothing into one that blocks.
follow-blocking :
    (a b : Status) → may_follow refund a b ≡ true → is_blocking b ≡ true → is_blocking a ≡ true
follow-blocking a b f h = ground arith

-- A new version of a fitting row fits, and blocks no refund that the old one did not block.
pub Changes-TxnOk : (old t : Txn) → Changes old t → TxnOk old → TxnOk t
Changes-TxnOk old t c ok = elim c.follows [
  | inl same ↦ subst₃_fits old t (sym c.same_type) (sym c.same_parent) (sym same) ok
  | inr step ↦
      subst₃_fits' old t (sym c.same_type) (sym c.same_parent)
        (follow-fits old.txn_type old.parent_transaction_id old.status t.status ok step)
]
  where
    subst₃_fits :
        (a b : Txn)
        → a.txn_type ≡ b.txn_type
        → a.parent_transaction_id ≡ b.parent_transaction_id
        → a.status ≡ b.status
        → TxnOk a
        → TxnOk b
    subst₃_fits a b p q r h = rw (← p, ← q, ← r) h

    subst₃_fits' :
        (a b : Txn)
        → a.txn_type ≡ b.txn_type
        → a.parent_transaction_id ≡ b.parent_transaction_id
        → fits a.txn_type a.parent_transaction_id b.status ≡ true
        → TxnOk b
    subst₃_fits' a b p q h = rw (← p, ← q) h

blocks-le_of :
    (k : Text) (ty : TxnType) (par : Option Text) (a b : Status)
    → fits ty par a ≡ true
    → (b ≡ a) ⊎ (may_follow ty a b ≡ true)
    → bit (has_parent k par && is_blocking b) ≤ bit (has_parent k par && is_blocking a)
blocks-le_of k ty none a b ok f = omega arith
blocks-le_of k sale (some p) a b ok f = cc
blocks-le_of k refund (some p) a b ok (inl same) = rw same (omega arith)
blocks-le_of k refund (some p) a b ok (inr step) = ground (arith, follow-blocking a b step)

pub Changes-blocks :
    (old t : Txn) (k : Text) → Changes old t → TxnOk old → bit (blocks k t) ≤ bit (blocks k old)
Changes-blocks old t k c ok =
    rw (c.same_parent)
      (blocks-le_of k old.txn_type old.parent_transaction_id old.status t.status ok c.follows)
