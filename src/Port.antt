-- ===== src/Port.antt =====
-- internal/application/port/port.go: what the services exchange with their ports.
use order_hub.Prelude.{ℕ, String, Bool, Option, none, List}
use order_hub.Prelude.Int.{ℤ, pos}
use order_hub.Domain.Json.{Fields}
use order_hub.Domain.Status.{Status}
use order_hub.Domain.Order.{Order, OrderLine, Allocation, PromotionDetail}
use order_hub.Domain.Event.{Event}

pub record Identity : Type 0 where
  pub user_id : String
  pub tenant_id : String
  pub attributes : Fields
  pub trace_id : String

pub record QuoteRequest : Type 0 where
  pub tenant_id : String
  pub user_id : String
  pub order_id : String
  pub scene : String
  pub channel : String
  pub currency : String
  pub coupon_ids : List String
  pub auto_best : Bool
  pub items : List OrderLine
  pub attributes : Fields
  pub context : Option Fields

pub record QuoteResult : Type 0 where
  pub quote_id : String
  pub currency : String
  pub original_amount : ℤ
  pub discount_amount : ℤ
  pub payable_amount : ℤ
  pub allocations : List Allocation
  pub promotions : List PromotionDetail
  pub expires_at : ℕ
  pub context_hash : String

pub record ReservationResult : Type 0 where
  pub reservation_id : String
  pub quote_id : String
  pub expires_at : ℕ
  pub status : String

pub record FreezeRequest : Type 0 where
  pub tenant_id : String
  pub user_id : String
  pub order_id : String
  pub asset_code : String
  pub amount : ℤ
  pub biz_no : String

pub record PaymentIntent : Type 0 where
  pub intent_id : String
  pub channel : String
  pub amount : ℤ
  pub currency : String
  pub pay_url : String
  pub expires_at : ℕ

pub record PreviewSnapshot : Type 0 where
  pub quote_id : String
  pub context_hash : String
  pub scene : String
  pub channel : String
  pub currency : String
  pub coupon_ids : List String
  pub items : List OrderLine
  pub allocations : List Allocation
  pub promotions : List PromotionDetail
  pub original_amount : ℤ
  pub discount_amount : ℤ
  pub payable_amount : ℤ
  pub ledger_pay : ℤ
  pub asset_code : String
  pub channel_pay : ℤ
  pub ext : Option Fields
  pub expires_at : ℕ
  pub subject_attrs : Fields

-- application.CheckoutResult, which an idempotency record keeps as JSON.
pub record CheckoutResult : Type 0 where
  pub order_id : String
  pub status : Status
  pub reservation_id : String
  pub freeze_id : String
  pub payment_intent : Option PaymentIntent
  pub payable_amount : ℤ
  pub currency : String
  pub expire_at : ℕ

-- `Response` is the JSON text of a result; the model keeps the result that it encodes.
pub record IdempotencyRecord : Type 0 where
  pub tenant_id : String
  pub actor : String
  pub key : String
  pub request_hash : String
  pub response : CheckoutResult
  pub order_id : String
  pub created_at : ℕ

pub record CheckoutPersist : Type 0 where
  pub order : Order
  pub idempotency : Option IdempotencyRecord
  pub event : Event

pub record TransitionCmd : Type 0 where
  pub tenant_id : String
  pub order_id : String
  pub from : List Status
  pub to : Status
  pub version : ℤ
  pub paid_amount : Option ℤ
  pub refunded_add : ℤ
  pub redemption_id : String
  pub payment_intent_id : String
  pub event : Option Event
  pub paid_at : Option ℕ
  pub cancelled_at : Option ℕ
  pub completed_at : Option ℕ

-- A command on an order at the version that was read; the fields that a literal leaves out are
-- Go's zero values.
abbrev pub command : Order → List Status → Status → TransitionCmd
command o from to = record {
  tenant_id = o.tenant_id;
  order_id = o.order_id;
  from = from;
  to = to;
  version = o.version;
  paid_amount = none;
  refunded_add = pos 0;
  redemption_id = "";
  payment_intent_id = "";
  event = none;
  paid_at = none;
  cancelled_at = none;
  completed_at = none;
}

pub record CompensationTicket : Type 0 where
  pub id : ℕ
  pub kind : String
  pub tenant_id : String
  pub ref : String
  pub payload : String
  pub status : String
  pub attempts : ℕ
  pub last_error : String
  pub next_retry : Option ℕ
  pub created_at : ℕ

-- A ticket as the services make it.
abbrev pub new_ticket : String → String → String → String → CompensationTicket
new_ticket kind tenant_id ref payload = record {
  id = 0;
  kind = kind;
  tenant_id = tenant_id;
  ref = ref;
  payload = payload;
  status = "";
  attempts = 0;
  last_error = "";
  next_retry = none;
  created_at = 0;
}

-- `Payload` is the JSON text of an event; the model keeps the event.
pub record OutboxRow : Type 0 where
  pub event_id : String
  pub payload : Event
  pub attempts : ℕ

pub record AdminListFilter : Type 0 where
  pub tenant_id : String
  pub status : String
  pub scene : String
  pub query : String
  pub cursor : String
  pub limit : ℤ
