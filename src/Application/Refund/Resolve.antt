-- ===== src/Application/Refund/Resolve.antt =====
-- internal/application/payment_refund.go: `resolveRefundLines`.
use order_hub.Prelude.{
  ◌≡◌, refl, arith, inl, inr, true, false, some, Option-cases, Bool-cases, ◌∙◌, sym, List, [], ◌∷◌,
  is_empty, All,
}
use order_hub.Prelude.Int.{ℤ, pos, ◌<ℤ◌, ◌≤ℤ◌}
use order_hub.Domain.Int64.{add64}
use order_hub.Domain.Error.{ok, >>=-ok_inv, Result-cases}
use order_hub.Domain.Order.{Order, OrderLine, LineRefund, refundable_amount}
use order_hub.Application.Refund.{
  RefundCmd, check_line, line_by_id, sum_lines, resolve_refund_lines,
}

-- A requested line of the order, with an amount that the line can give back.
abbrev pub FitsLine : List OrderLine → LineRefund → Type 0
FitsLine lines lr =
    (line : OrderLine) × (line_by_id lr.line_id lines ≡ some line)
    × (pos 0 <ℤ lr.amount)
    × (lr.amount ≤ℤ line.payable_amount)

check_line-bounds :
    (lines : List OrderLine) (lr : LineRefund) (line : OrderLine) {u : Unit {0}}
    → line_by_id lr.line_id lines ≡ some line
    → check_line lines lr ≡ ok u
    → (pos 0 <ℤ lr.amount) × (lr.amount ≤ℤ line.payable_amount)
unfolding check_line
check_line-bounds lines lr line known h = ground arith

check_line-Fits :
    (lines : List OrderLine) (lr : LineRefund) {u : Unit {0}}
    → check_line lines lr ≡ ok u
    → FitsLine lines lr
unfolding check_line
check_line-Fits lines lr h = elim (Option-cases (line_by_id lr.line_id lines)) [
  | inl unknown ↦ ground arith
  | inr (line, known) ↦
      (let (a, b) = check_line-bounds lines lr line known h in (line, known, a, b))
]

sum_lines-Fits :
    (lines : List OrderLine) (sum : ℤ) (rs : List LineRefund) {total : ℤ}
    → sum_lines lines sum rs ≡ ok total
    → All (FitsLine lines) rs
unfolding sum_lines
sum_lines-Fits lines sum [] h = tt
sum_lines-Fits lines sum (lr ∷ rs) h =
    let (u, first, rest) =
      >>=-ok_inv (check_line lines lr) (λ _. sum_lines lines (add64 sum lr.amount) rs) h in
    (check_line-Fits lines lr first, sum_lines-Fits lines (add64 sum lr.amount) rs rest)

empty_lines : (xs : List LineRefund) → is_empty xs ≡ true → xs ≡ []
empty_lines [] h = refl
empty_lines (x ∷ xs) h = cc

resolve-lines :
    (o : Order) (cmd : RefundCmd) {lines : List LineRefund} {amount : ℤ}
    → is_empty cmd.lines ≡ false
    → resolve_refund_lines o cmd ≡ ok (lines, amount)
    → (sum_lines o.lines (pos 0) cmd.lines ≡ ok amount)
      × (lines ≡ cmd.lines)
      × (pos 0 <ℤ amount)
      × (amount ≤ℤ refundable_amount o)
unfolding resolve_refund_lines
resolve-lines o cmd e h = elim (Result-cases (sum_lines o.lines (pos 0) cmd.lines)) [
  | inl (sum, summed) ↦ ground arith
  | inr (er, failed) ↦ ground arith
]

resolve-amount :
    (o : Order) (cmd : RefundCmd) {lines : List LineRefund} {amount : ℤ}
    → is_empty cmd.lines ≡ true
    → resolve_refund_lines o cmd ≡ ok (lines, amount)
    → (lines ≡ []) × (pos 0 <ℤ amount) × (amount ≤ℤ refundable_amount o)
unfolding resolve_refund_lines
resolve-amount o cmd e h = ground arith

-- If `resolveRefundLines` accepts a request with an amount, the amount is positive and at most what the order has left
-- to refund; with lines, each line is one of the order, with a positive amount that is at most the
-- payable amount of the line, and without lines none comes back.
pub resolve_refund_lines_bounds :
    (o : Order) (cmd : RefundCmd) {lines : List LineRefund} {amount : ℤ}
    → resolve_refund_lines o cmd ≡ ok (lines, amount)
    → (pos 0 <ℤ amount)
      × (amount ≤ℤ refundable_amount o)
      × All (FitsLine o.lines) lines
      × (lines ≡ cmd.lines)
resolve_refund_lines_bounds o cmd h = elim (Bool-cases (is_empty cmd.lines)) [
  | inl none_given ↦
      let (empty, positive, bound) = resolve-amount o cmd none_given h in
      (positive, bound, rw empty tt, empty ∙ sym (empty_lines cmd.lines none_given))
  | inr some_given ↦
      let (summed, same, positive, bound) = resolve-lines o cmd some_given h in
      (positive, bound, rw same (sum_lines-Fits o.lines (pos 0) cmd.lines summed), same)
]
