-- ===== src/Domain/Amount.antt =====
-- internal/domain/amount.go: checked arithmetic on amounts, and how an order's amounts are built.
pub mod Arith
pub mod Build
pub mod Allocate
pub mod LastLine
use order_hub.Prelude.{
  Bool, String, Bool, true, false, ◌&&◌, ◌||◌, not, List, [], ◌∷◌, map, ◌<>◌, ◌==◌, if◌then◌else◌,
  is_empty,
}
use order_hub.Prelude.Int.{ℤ, pos, ltb_ℤ, leb_ℤ, int_eq}
use order_hub.Domain.Int64.{add64, sub64, neg64, mul64, div64}
use order_hub.Domain.Error.{
  Result, ok, err, bare, wrapped, invalid_argument, overflow, amount_invariant, ◌>>=◌, ◌>>◌,
  fail_if,
}
use order_hub.Domain.Order.{Amounts, OrderLine}

unfoldable pub mul : ℤ → ℤ → Result ℤ
mul a b =
    if int_eq a (pos 0) || int_eq b (pos 0)
    then ok (pos 0)
    else let r = mul64 a b in if int_eq (div64 r a) b then ok r else err (bare overflow)

unfoldable pub add : ℤ → ℤ → Result ℤ
add a b =
    let r = add64 a b in
    if (ltb_ℤ (pos 0) b && ltb_ℤ r a) || (ltb_ℤ b (pos 0) && ltb_ℤ a r)
    then err (bare overflow)
    else ok r

unfoldable pub sub : ℤ → ℤ → Result ℤ
sub a b = add a (neg64 b)

unfoldable pub line_original : ℤ → ℤ → Result ℤ
line_original unit_price quantity =
    if ltb_ℤ unit_price (pos 0) || leb_ℤ quantity (pos 0)
    then err (wrapped invalid_argument "unit_price/quantity")
    else mul unit_price quantity

-- What one round of the loop of `SumOriginal` makes of its line and of the sum.
unfoldable pub sum_step : OrderLine → ℤ → Result (OrderLine × ℤ)
sum_step l sum = do
  orig ← line_original l.unit_price l.quantity
  fail_if (not (int_eq l.original_amount (pos 0)) && not (int_eq l.original_amount orig))
      (wrapped amount_invariant ("line " <> l.line_id <> " original mismatch"))
  sum' ← add sum orig
  ok (record l { original_amount = orig }, sum')

-- The loop: the lines with their amounts filled in, and the sum.
unfoldable pub sum_from : ℤ → List OrderLine → Result (List OrderLine × ℤ)
sum_from sum [] = ok ([], sum)
sum_from sum (l ∷ ls) = do
  step ← sum_step l sum
  rest ← sum_from step.1 ls
  ok (step.0 ∷ rest.0, rest.1)

unfoldable pub sum_original : List OrderLine → Result (List OrderLine × ℤ)
sum_original lines = sum_from (pos 0) lines

-- The first test of `Validate`.
unfoldable pub has_negative : Amounts → Bool
has_negative a =
    ltb_ℤ a.original (pos 0)
    || ltb_ℤ a.discount (pos 0)
    || ltb_ℤ a.payable (pos 0)
    || ltb_ℤ a.ledger_pay (pos 0)
    || ltb_ℤ a.channel_pay (pos 0)
    || ltb_ℤ a.paid (pos 0)
    || ltb_ℤ a.refunded (pos 0)

-- `Amounts.Validate`.
unfoldable pub validate : Amounts → Result (Unit {0})
validate a = do
  fail_if (has_negative a) (wrapped amount_invariant "negative")
  fail_if (ltb_ℤ a.original a.discount) (wrapped amount_invariant "discount > original")
  fail_if (not (int_eq (sub64 a.original a.discount) a.payable))
      (wrapped amount_invariant "payable != original - discount")
  fail_if (not (int_eq (add64 a.ledger_pay a.channel_pay) a.payable))
      (wrapped amount_invariant "payable != ledger + channel")
  fail_if (ltb_ℤ a.payable a.paid) (wrapped amount_invariant "paid > payable")
  fail_if (ltb_ℤ a.paid a.refunded) (wrapped amount_invariant "refunded > paid")

unfoldable pub build_amounts : String → ℤ → ℤ → ℤ → Result Amounts
build_amounts currency original discount ledger_pay = do
  fail_if (currency == "") (wrapped invalid_argument "currency required")
  fail_if (ltb_ℤ original (pos 0) || ltb_ℤ discount (pos 0) || ltb_ℤ ledger_pay (pos 0))
      (wrapped invalid_argument "negative amount")
  fail_if (ltb_ℤ original discount) (wrapped amount_invariant "discount > original")
  payable ← sub original discount
  fail_if (ltb_ℤ payable ledger_pay) (wrapped amount_invariant "ledger_pay > payable")
  channel_pay ← sub payable ledger_pay
  let a : Amounts = record {
    currency = currency;
    original = original;
    discount = discount;
    payable = payable;
    ledger_pay = ledger_pay;
    channel_pay = channel_pay;
    paid = pos 0;
    refunded = pos 0;
  }
  validate a
  ok a

-- The amount of a line, computed where it is missing.
unfoldable pub fill_amount : OrderLine → Result ℤ
fill_amount l =
    if int_eq l.original_amount (pos 0)
    then line_original l.unit_price l.quantity
    else ok l.original_amount

-- The first loop of `AllocateDiscount`: fill in missing amounts and sum them.
unfoldable pub fill_originals : ℤ → List OrderLine → Result (List OrderLine × ℤ)
fill_originals original [] = ok ([], original)
fill_originals original (l ∷ ls) = do
  orig ← fill_amount l
  original' ← add original orig
  rest ← fill_originals original' ls
  ok (record l { original_amount = orig } ∷ rest.0, rest.1)

unfoldable pub clear_line : OrderLine → OrderLine
clear_line l = record l { discount_amount = pos 0; payable_amount = pos 0 }

-- A line that bears the discount `d`.
unfoldable pub charge_line : ℤ → OrderLine → OrderLine
charge_line d l = record l { discount_amount = d; payable_amount = sub64 l.original_amount d }

-- The last loop: a line takes its share rounded down, and the last line what is left.
unfoldable pub allocate_from : ℤ → ℤ → ℤ → List OrderLine → List OrderLine
allocate_from total original allocated [] = []
allocate_from total original allocated (l ∷ ls) =
    let d =
      if is_empty ls
      then sub64 total allocated
      else div64 (mul64 l.original_amount total) original in
    charge_line d l ∷ allocate_from total original (add64 allocated d) ls

unfoldable pub allocate_discount : List OrderLine → ℤ → Result (List OrderLine)
allocate_discount lines total = do
  fail_if (ltb_ℤ total (pos 0)) (bare invalid_argument)
  filled ← fill_originals (pos 0) lines
  fail_if (ltb_ℤ filled.1 total) (wrapped amount_invariant "discount > original")
  ok (
      if int_eq filled.1 (pos 0)
      then map clear_line filled.0
      else allocate_from total filled.1 (pos 0) filled.0)
