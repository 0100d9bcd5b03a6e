-- ===== src/Iface/Dto.antt =====
-- internal/iface/http/dto.go: the bodies of the requests and the view of an order.
use order_hub.Prelude.{ℕ, String, Bool, Option, none, some, List, map, nat_eq, if◌then◌else◌}
use order_hub.Prelude.Int.{ℤ, pos}
use order_hub.Domain.Json.{Fields}
use order_hub.Domain.Status.{to_string}
use order_hub.Domain.Order.{Order, OrderLine, PayMethod, LineRefund}
use order_hub.Application.Preview.{LedgerPay, PreviewCmd}
use order_hub.Application.Checkout.Price.{CheckoutCmd}
use order_hub.Application.Payment.{PaymentCallback}
use order_hub.Application.Refund.{RefundCmd}

pub record LineDto : Type 0 where
  pub line_id : String
  pub object_type : String
  pub object_id : String
  pub quantity : ℤ
  pub unit_price : ℤ
  pub attributes : List (String × String)
  pub snapshot : Fields

pub record LedgerPayDto : Type 0 where
  pub asset_code : String
  pub amount : ℤ

pub record PreviewReq : Type 0 where
  pub scene : String
  pub channel : String
  pub coupon_ids : List String
  pub auto_best : Bool
  pub items : List LineDto
  pub ledger_pay : Option LedgerPayDto
  pub ext : Option Fields

-- `pay_method` is one of the texts of `PayMethod`, or `none` for the empty text.
pub record CheckoutReq : Type 0 where
  pub client_order_id : String
  pub scene : String
  pub channel : String
  pub quote_id : String
  pub coupon_ids : List String
  pub items : List LineDto
  pub pay_method : Option PayMethod
  pub ledger_pay : Option LedgerPayDto
  pub ext : Option Fields

pub record RefundLineReq : Type 0 where
  pub line_id : String
  pub amount : ℤ

pub record RefundReq : Type 0 where
  pub amount : ℤ
  pub reason : String
  pub lines : List RefundLineReq

pub record PaymentCallbackReq : Type 0 where
  pub order_id : String
  pub tenant_id : String
  pub payment_intent_id : String
  pub success : Bool
  pub paid_amount : ℤ
  pub channel : String

abbrev pub to_line : LineDto → OrderLine
to_line l = record {
  line_id = l.line_id;
  object_type = l.object_type;
  object_id = l.object_id;
  quantity = l.quantity;
  unit_price = l.unit_price;
  original_amount = pos 0;
  discount_amount = pos 0;
  payable_amount = pos 0;
  attributes = l.attributes;
  snapshot = l.snapshot;
}

unfoldable pub to_lines : List LineDto → List OrderLine
to_lines = map to_line

unfoldable pub to_ledger : Option LedgerPayDto → Option LedgerPay
to_ledger none = none
to_ledger (some p) = some (record { asset_code = p.asset_code; amount = p.amount })

-- `toLineRefunds`, of handler.go.
unfoldable pub to_line_refunds : RefundReq → List LineRefund
to_line_refunds req = map (λ l. record { line_id = l.line_id; amount = l.amount }) req.lines

-- The commands that the handlers build from the bodies.
unfoldable pub preview_cmd : PreviewReq → PreviewCmd
preview_cmd req = record {
  scene = req.scene;
  channel = req.channel;
  coupon_ids = req.coupon_ids;
  auto_best = req.auto_best;
  items = to_lines req.items;
  ledger_pay = to_ledger req.ledger_pay;
  ext = req.ext;
}

unfoldable pub checkout_cmd : String → String → CheckoutReq → CheckoutCmd
checkout_cmd idempotency_key trace_id req = record {
  client_order_id = req.client_order_id;
  scene = req.scene;
  channel = req.channel;
  quote_id = req.quote_id;
  coupon_ids = req.coupon_ids;
  items = to_lines req.items;
  pay_method = req.pay_method;
  ledger_pay = to_ledger req.ledger_pay;
  ext = req.ext;
  idempotency_key = idempotency_key;
  trace_id = trace_id;
}

unfoldable pub refund_cmd : RefundReq → RefundCmd
refund_cmd req = record { amount = req.amount; reason = req.reason; lines = to_line_refunds req }

unfoldable pub payment_callback_cmd : String → PaymentCallbackReq → PaymentCallback
payment_callback_cmd trace_id req = record {
  order_id = req.order_id;
  tenant_id = req.tenant_id;
  payment_intent_id = req.payment_intent_id;
  success = req.success;
  paid_amount = req.paid_amount;
  channel = req.channel;
  trace_id = trace_id;
}

pub record OrderView : Type 0 where
  pub order_id : String
  pub client_order_id : String
  pub tenant_id : String
  pub buyer_user_id : String
  pub scene : String
  pub channel : String
  pub status : String
  pub version : ℤ
  pub currency : String
  pub original_amount : ℤ
  pub discount_amount : ℤ
  pub payable_amount : ℤ
  pub ledger_pay_amount : ℤ
  pub channel_pay_amount : ℤ
  pub paid_amount : ℤ
  pub refunded_amount : ℤ
  pub quote_id : String
  pub reservation_id : String
  pub redemption_id : String
  pub freeze_id : String
  pub asset_code : String
  pub pay_method : PayMethod
  pub payment_intent_id : String
  pub expire_at : Option ℕ
  pub renew_count : ℕ
  pub lines : List LineDto
  pub ext : Option Fields
  pub created_at : ℕ
  pub paid_at : Option ℕ
  pub cancelled_at : Option ℕ
  pub completed_at : Option ℕ

abbrev pub view_line : OrderLine → LineDto
view_line l = record {
  line_id = l.line_id;
  object_type = l.object_type;
  object_id = l.object_id;
  quantity = l.quantity;
  unit_price = l.unit_price;
  attributes = l.attributes;
  snapshot = l.snapshot;
}

unfoldable pub view_order : Order → OrderView
view_order o = record {
  order_id = o.order_id;
  client_order_id = o.client_order_id;
  tenant_id = o.tenant_id;
  buyer_user_id = o.buyer_user_id;
  scene = o.scene;
  channel = o.channel;
  status = to_string o.status;
  version = o.version;
  currency = o.amounts.currency;
  original_amount = o.amounts.original;
  discount_amount = o.amounts.discount;
  payable_amount = o.amounts.payable;
  ledger_pay_amount = o.amounts.ledger_pay;
  channel_pay_amount = o.amounts.channel_pay;
  paid_amount = o.amounts.paid;
  refunded_amount = o.amounts.refunded;
  quote_id = o.promotion.quote_id;
  reservation_id = o.promotion.reservation_id;
  redemption_id = o.promotion.redemption_id;
  freeze_id = o.ledger.freeze_id;
  asset_code = o.ledger.asset_code;
  pay_method = o.pay_method;
  payment_intent_id = o.payment.payment_intent_id;
  expire_at = if nat_eq o.expire_at 0 then none else some o.expire_at;
  renew_count = o.renew_count;
  lines = map view_line o.lines;
  ext = o.context;
  created_at = o.created_at;
  paid_at = o.paid_at;
  cancelled_at = o.cancelled_at;
  completed_at = o.completed_at;
}
