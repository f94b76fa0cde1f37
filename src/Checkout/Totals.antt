-- ===== src/Checkout/Totals.antt =====
-- The sums over the lines of a sale, from `pos_service/services/checkout.py`, and of its refund, from
-- `pos_service/services/refund.py`.
use hightower_pos.Prelude.{◌≡◌, refl, List, [], ◌∷◌, ◌++◌, map, ap, sym, ◌∙◌}
use hightower_pos.Prelude.Int.{ℤ, pos, neg, ◌+ℤ◌, ◌*ℤ◌, int_laws, +ℤ_assoc}
use hightower_pos.Prelude.Text.{Text}
use hightower_pos.Model.{RichLine, Txn, Settings, Env}
use hightower_pos.Checkout.Pricing.{LineIn, Customer, Prices, rich_line, price_lines, new_sale}
use hightower_pos.Refund.Start.{refund_line, new_refund}

-- The sum of a column over the lines of a cart.
unfoldable pub column : (RichLine → ℤ) → List RichLine → ℤ
column f [] = pos 0
column f (line ∷ cart) = f line +ℤ column f cart

-- The amounts of a transaction are the sums of its lines' amounts.
pub record IsBalanced (t : Txn) : Type 0 where
  pub total : t.total_cents ≡ t.subtotal_cents +ℤ t.tax_cents
  pub taxes : t.tax_cents ≡ column (λ l. l.tax_cents) t.cart
  pub lines : t.total_cents ≡ column (λ l. l.line_total_cents) t.cart

column-snoc :
    (f : RichLine → ℤ) (cart : List RichLine) (l : RichLine)
    → column f (cart ++ l ∷ []) ≡ column f cart +ℤ f l
unfolding column
column-snoc f [] l = grind int_laws
column-snoc f (x ∷ cart) l =
    ap (λ y. f x +ℤ y) (column-snoc f cart l) ∙ sym (+ℤ_assoc (f x) (column f cart) (f l))

-- The sums so far add up to the lines so far.
pub record SumsOk (sums : List RichLine × ℤ × ℤ) : Type 0 where
  pub so_far_tax : sums.2 ≡ column (λ l. l.tax_cents) sums.0
  pub so_far_total : sums.1 +ℤ sums.2 ≡ column (λ l. l.line_total_cents) sums.0

swap_sums : (a b c d : ℤ) → (a +ℤ b) +ℤ (c +ℤ d) ≡ (a +ℤ c) +ℤ (b +ℤ d)
swap_sums a b c d = grind int_laws

module _ (settings : Settings) (prices : Prices) where
  price_lines-SumsOk :
      (lines : List LineIn) (sums : List RichLine × ℤ × ℤ)
      → SumsOk sums
      → SumsOk (price_lines settings prices lines sums)
  unfolding price_lines rich_line
  price_lines-SumsOk [] sums h = h
  price_lines-SumsOk (line ∷ lines) (rich, subtotal, tax) h =
      let r : RichLine = rich_line settings prices line in
      price_lines-SumsOk lines _ (record {
        so_far_tax =
            ap (λ x. x +ℤ r.tax_cents) h.so_far_tax ∙ sym (column-snoc (λ l. l.tax_cents) rich r);
        so_far_total =
            swap_sums subtotal (r.unit_price_cents *ℤ line.quantity) tax r.tax_cents
            ∙ ap (λ x. x +ℤ r.line_total_cents) h.so_far_total
            ∙ sym (column-snoc (λ l. l.line_total_cents) rich r);
      })

-- A new sale is balanced: its total is the subtotal plus the tax, and the tax and the total are the
-- sums over the lines of the cart that it stores.
pub new_sale-IsBalanced :
    (settings : Settings) (env : Env) (prices : Prices) (lines : List LineIn) (cashier_id : Text)
    (customer : Customer)
    → IsBalanced (
        new_sale settings env
          (price_lines settings prices lines ([], pos 0, pos 0))
          cashier_id
          customer)
unfolding new_sale column ◌+ℤ◌
new_sale-IsBalanced settings env prices lines cashier_id customer =
    let h =
      price_lines-SumsOk settings prices lines ([], pos 0, pos 0)
        (record { so_far_tax = refl; so_far_total = refl }) in
    record { total = refl; taxes = h.so_far_tax; lines = h.so_far_total }

neg-column :
    (f : RichLine → ℤ) (cart : List RichLine)
    → ((l : RichLine) → f (refund_line l) ≡ neg (f l))
    → column f (map refund_line cart) ≡ neg (column f cart)
unfolding column neg
neg-column f [] h = refl
neg-column f (l ∷ cart) h =
    ap (λ x. x +ℤ column f (map refund_line cart)) (h l)
    ∙ ap (λ x. neg (f l) +ℤ x) (neg-column f cart h)
    ∙ neg_sum (f l) (column f cart)
  where
    neg_sum : (a b : ℤ) → neg a +ℤ neg b ≡ neg (a +ℤ b)
    neg_sum a b = grind int_laws

-- The refund of a balanced sale is balanced too: the lines and the amounts are negated together.
pub new_refund-IsBalanced :
    (env : Env) (cashier_id : Text) (original : Txn)
    → IsBalanced original
    → IsBalanced (new_refund env cashier_id original)
unfolding new_refund
new_refund-IsBalanced env cashier_id original b = record {
  total = ap neg b.total ∙ neg_sum original.subtotal_cents original.tax_cents;
  taxes = ap neg b.taxes ∙ sym (neg-column (λ l. l.tax_cents) original.cart (λ l. refl));
  lines = ap neg b.lines ∙ sym (neg-column (λ l. l.line_total_cents) original.cart (λ l. refl));
}
  where
    neg_sum : (a b : ℤ) → neg (a +ℤ b) ≡ neg a +ℤ neg b
    neg_sum a b = grind int_laws
