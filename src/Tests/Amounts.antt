-- ===== src/Tests/Amounts.antt =====
-- internal/domain/amount.go at concrete amounts.
use order_hub.Prelude.{◌≡◌, ◌≢◌, refl, arith, ◌↔◌, List, [], ◌∷◌, ◌++◌, map, All, String}
use order_hub.Prelude.Int.{ℤ, pos, negsuc, ◌+ℤ◌, ◌-ℤ◌, ◌*ℤ◌, ◌≤ℤ◌, ◌<ℤ◌, quot_ℤ}
use order_hub.Domain.Int64.{InRange, wrap64}
use order_hub.Domain.Error.{ok, err, bare, overflow}
use order_hub.Domain.Json.{end}
use order_hub.Domain.Order.{OrderLine, Amounts}
use order_hub.Domain.Amount.{
  add, mul, line_original, validate, build_amounts, fill_amount, fill_originals, charge_line,
  allocate_discount, allocate_from, clear_line,
}
use order_hub.Domain.Amount.Arith.{mul_exact}
use order_hub.Domain.Amount.Build.{IsConsistent, built, validate_iff, build_amounts_iff}
use order_hub.Domain.Amount.Allocate.{total_of, originals, IsCharged, allocate_discount_spreads}
use order_hub.Domain.Amount.LastLine.{last_line_negative}

abbrev line : String → ℤ → OrderLine
line id price = record {
  line_id = id;
  object_type = "sku";
  object_id = id;
  quantity = pos 1;
  unit_price = price;
  original_amount = price;
  discount_amount = pos 0;
  payable_amount = pos 0;
  attributes = [];
  snapshot = end;
}

abbrev basket : List OrderLine
basket = line "a" (pos 1000) ∷ line "b" (pos 500) ∷ []

abbrev spread : List OrderLine
spread =
    charge_line (pos 200) (line "a" (pos 1000)) ∷ charge_line (pos 100) (line "b" (pos 500)) ∷ []

mul_exact_example :
    (InRange (pos 3 *ℤ negsuc 4) → mul (pos 3) (negsuc 4) ≡ ok (pos 3 *ℤ negsuc 4))
    × (¬ InRange (pos 3 *ℤ negsuc 4) → mul (pos 3) (negsuc 4) ≡ err (bare overflow))
mul_exact_example = mul_exact (pos 3) (negsuc 4) (omega arith) (omega arith) (ground arith)

abbrev cny : String
cny = "CNY"

abbrev paid_mixed : Amounts
paid_mixed = built cny (pos 1500) (pos 300) (pos 200)

validate_iff_example : (validate paid_mixed ≡ ok tt) ↔ IsConsistent paid_mixed
unfolding ◌-ℤ◌
validate_iff_example = validate_iff paid_mixed (record {
  original_ranged = omega arith;
  discount_ranged = omega arith;
  payable_ranged = omega arith;
  ledger_ranged = omega arith;
  channel_ranged = omega arith;
  paid_ranged = omega arith;
  refunded_ranged = omega arith;
})

build_amounts_iff_example : (build_amounts cny (pos 1500) (pos 300) (pos 200) ≡ ok paid_mixed) ↔ (
    (cny ≢ "")
    × (pos 0 ≤ℤ pos 300)
    × (pos 0 ≤ℤ pos 200)
    × (pos 300 +ℤ pos 200 ≤ℤ pos 1500)
    × (paid_mixed ≡ built cny (pos 1500) (pos 300) (pos 200)))
build_amounts_iff_example =
    build_amounts_iff cny (pos 1500) (pos 300) (pos 200) paid_mixed (omega arith) (omega arith)
      (omega arith)

allocate_discount_spreads_example :
    (total_of (λ l. l.discount_amount) spread ≡ pos 300)
    × All IsCharged spread
    × (originals spread ≡ originals basket)
unfolding fill_originals fill_amount allocate_discount allocate_from add mul wrap64 ◌+ℤ◌ ◌-ℤ◌ ◌*ℤ◌
    quot_ℤ charge_line clear_line
allocate_discount_spreads_example =
    allocate_discount_spreads basket (pos 300) {r = (basket, pos 1500)} {out = spread}
      (ground arith) refl (ground arith) refl

abbrev rounding : List OrderLine
rounding = line "a" (pos 100) ∷ line "b" (pos 100) ∷ []

last_line_negative_example :
    (allocate_discount (rounding ++ line "c" (pos 0) ∷ []) (pos 1)
      ≡ ok (map (charge_line (pos 0)) rounding ++ charge_line (pos 1) (line "c" (pos 0)) ∷ []))
    × ((charge_line (pos 1) (line "c" (pos 0))).payable_amount <ℤ pos 0)
unfolding fill_originals fill_amount line_original add mul wrap64 ◌+ℤ◌ ◌*ℤ◌ quot_ℤ
last_line_negative_example =
    last_line_negative 1 200 (omega arith) (omega arith) (omega arith) rounding (line "c" (pos 0))
      (ground arith) (ground arith) refl (omega arith) (omega arith)
