-- ===== src/Application/Refund/Split.antt =====
-- internal/application/payment_refund.go: how a refund is split between the channel and the ledger.
use order_hub.Prelude.{ℕ, ◌+◌, ◌-◌, ◌*◌, ◌/◌, ◌^◌, ◌≤◌, ◌<◌, ◌≡◌, refl, ap, arith}
use order_hub.Prelude.Int.{pos, *ℤ-pos, quot_ℤ, ◌-ℤ◌}
use order_hub.Domain.Int64.{wrap64-eq_of_InRange}
use order_hub.Domain.Order.{Order}
use order_hub.Application.Refund.{split_refund}

div-le_of_le : (l a p : ℕ) → l ≤ p → 0 < p → l * a / p ≤ a
div-le_of_le l a p h k = grind arith

div-le_ledger : (l a p : ℕ) → a ≤ p → 0 < p → l * a / p ≤ l
div-le_ledger l a p h k = grind arith

mul_div_self : (l p : ℕ) → 0 < p → l * p / p ≡ l
mul_div_self l p h = grind arith

sub-pos : (a b : ℕ) → b ≤ a → pos a -ℤ pos b ≡ pos (a - b)
unfolding ◌-ℤ◌
sub-pos a b h = ground arith

split_refund-pos :
    (o : Order) (l a p : ℕ)
    → o.amounts.payable ≡ pos p
    → o.amounts.ledger_pay ≡ pos l
    → 0 < p
    → l ≤ p
    → a < 2 ^ 63
    → l * a < 2 ^ 63
    → split_refund o (pos a) ≡ (pos (l * a / p), pos (a - l * a / p))
unfolding split_refund quot_ℤ
split_refund-pos o l a p ep el hp hl ha hm = ground (
  arith,
  *ℤ-pos l a,
  sub-pos a (l * a / p),
  div-le_of_le l a p,
  wrap64-eq_of_InRange (pos (l * a)),
  wrap64-eq_of_InRange (pos (l * a / p)),
  wrap64-eq_of_InRange (pos (a - l * a / p)),
)

-- For an order with payable `p` > 0 and ledger part `l` ≤ `p`, and an amount `a` ≤ `p`, where `a` is
-- an int64 and so is `l` times `a`: the two parts of the refund add up to the amount, the ledger's
-- is `l * a / p` and at most `l`, and the full amount is split the way it was paid.
pub split_refund_exact :
    (o : Order) (l a p : ℕ)
    → o.amounts.payable ≡ pos p
    → o.amounts.ledger_pay ≡ pos l
    → 0 < p
    → l ≤ p
    → a ≤ p
    → a < 2 ^ 63
    → l * a < 2 ^ 63
    → (ledger channel : ℕ) × (split_refund o (pos a) ≡ (pos ledger, pos channel))
      × (ledger + channel ≡ a)
      × (ledger ≡ l * a / p)
      × (ledger ≤ l)
      × (a ≡ p → (ledger ≡ l) × (channel ≡ p - l))
split_refund_exact o l a p ep el hp hl ha h63 hm = (
  l * a / p,
  a - l * a / p,
  split_refund-pos o l a p ep el hp hl h63 hm,
  ground (arith, div-le_of_le l a p),
  refl,
  div-le_ledger l a p ha hp,
  λ e. ground (arith, mul_div_self l p, ap (λ x. l * x / p) e),
)
