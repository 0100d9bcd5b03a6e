-- ===== src/Domain/Order.antt =====
-- internal/domain/order.go and statemachine.go (`Transition`). A nil pointer to a time is `none`;
-- times are nanoseconds since Go's zero time.
use order_hub.Prelude.{
  ℕ, String, Bool, ◌&&◌, ◌||◌, not, Option, none, some, List, ◌==◌, if◌then◌else◌,
}
use order_hub.Prelude.Int.{ℤ, pos, ltb_ℤ}
use order_hub.Domain.Int64.{add64, sub64}
use order_hub.Domain.Error.{
  Result, ok, err, bare, order_not_found, already_paid, status_not_allowed,
}
use order_hub.Domain.Json.{Fields}
use order_hub.Domain.Status.{Status, cancelled, status_eq, can_transition}

pub data PayMethod : Type 0 where
  channel ledger mix : PayMethod

pub record OrderLine : Type 0 where
  pub line_id : String
  pub object_type : String
  pub object_id : String
  pub quantity : ℤ
  pub unit_price : ℤ
  pub original_amount : ℤ
  pub discount_amount : ℤ
  pub payable_amount : ℤ
  pub attributes : List (String × String)
  pub snapshot : Fields

pub record Amounts : Type 0 where
  pub currency : String
  pub original : ℤ
  pub discount : ℤ
  pub payable : ℤ
  pub ledger_pay : ℤ
  pub channel_pay : ℤ
  pub paid : ℤ
  pub refunded : ℤ

pub record PromotionRef : Type 0 where
  pub quote_id : String
  pub reservation_id : String
  pub redemption_id : String

pub record LedgerRef : Type 0 where
  pub freeze_id : String
  pub asset_code : String
  pub biz_no : String

pub record PaymentRef : Type 0 where
  pub payment_intent_id : String
  pub channel : String

pub record Allocation : Type 0 where
  pub line_id : String
  pub discount_amount : ℤ

pub record PromotionDetail : Type 0 where
  pub source_type : String
  pub source_id : String
  pub discount_amount : ℤ
  pub allocations : List Allocation
  pub rule_snapshot_version : String

pub record LedgerLeg : Type 0 where
  pub command : String
  pub biz_no : String
  pub freeze_id : String
  pub asset_code : String
  pub amount : ℤ
  pub status : String

pub record LineRefund : Type 0 where
  pub line_id : String
  pub amount : ℤ

pub record Refund : Type 0 where
  pub refund_id : String
  pub order_id : String
  pub tenant_id : String
  pub amount : ℤ
  pub currency : String
  pub status : String
  pub reason : String
  pub channel_refund : Bool
  pub ledger_credit : Bool
  pub ledger_amount : ℤ
  pub channel_amount : ℤ
  pub lines : List LineRefund
  pub created_at : ℕ

pub record Order : Type 0 where
  pub order_id : String
  pub tenant_id : String
  pub scene : String
  pub channel : String
  pub buyer_user_id : String
  pub client_order_id : String
  pub status : Status
  pub version : ℤ
  pub amounts : Amounts
  pub promotion : PromotionRef
  pub ledger : LedgerRef
  pub payment : PaymentRef
  pub pay_method : PayMethod
  pub expire_at : ℕ
  pub renew_count : ℕ
  pub context : Option Fields
  pub lines : List OrderLine
  pub promotions : List PromotionDetail
  pub ledger_legs : List LedgerLeg
  pub created_at : ℕ
  pub updated_at : ℕ
  pub paid_at : Option ℕ
  pub cancelled_at : Option ℕ
  pub completed_at : Option ℕ

unfoldable pub refundable_amount : Order → ℤ
refundable_amount o = sub64 o.amounts.paid o.amounts.refunded

unfoldable pub has_ledger_freeze : Order → Bool
has_ledger_freeze o = not (o.ledger.freeze_id == "") || ltb_ℤ (pos 0) o.amounts.ledger_pay

unfoldable pub has_offer_reservation : Order → Bool
has_offer_reservation o = not (o.promotion.reservation_id == "")

unfoldable pub needs_channel_pay : Order → Bool
needs_channel_pay o = ltb_ℤ (pos 0) o.amounts.channel_pay

unfoldable pub resolve_pay_method : ℤ → ℤ → PayMethod
resolve_pay_method ledger_pay channel_pay =
    if ltb_ℤ (pos 0) ledger_pay && ltb_ℤ (pos 0) channel_pay
    then PayMethod.mix
    else if ltb_ℤ (pos 0) ledger_pay
    then PayMethod.ledger
    else PayMethod.channel

-- `Transition` on a pointer: `none` is nil, and the result is the order as it is left.
unfoldable pub transition : Option Order → Status → Result Order
transition none to = err (bare order_not_found)
transition (some o) to =
    if can_transition o.status to
    then ok (record o { status = to; version = add64 o.version (pos 1) })
    else if status_eq o.status Status.paid && status_eq to cancelled
    then err (bare already_paid)
    else err (bare status_not_allowed)
