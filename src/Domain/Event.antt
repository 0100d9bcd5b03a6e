-- ===== src/Domain/Event.antt =====
-- internal/domain/event.go: the events of the outbox.
use order_hub.Prelude.{ℕ, String}
use order_hub.Prelude.Int.{ℤ, pos}
use order_hub.Domain.Json.{num, str, Fields, end, field}
use order_hub.Domain.Status.{to_string}
use order_hub.Domain.Order.{Order}

pub data EventType : Type 0 where
  created paid fulfilled completed cancelled closed refunded : EventType

-- The name of an event type on the wire.
unfoldable pub event_name : EventType → String
event_name created = "order.created.v1"
event_name paid = "order.paid.v1"
event_name fulfilled = "order.fulfilled.v1"
event_name completed = "order.completed.v1"
event_name cancelled = "order.cancelled.v1"
event_name closed = "order.closed.v1"
event_name refunded = "order.refunded.v1"

-- `OccurredAt` is an instant, so `UTC()` does not change it.
pub record Event : Type 0 where
  pub event_id : String
  pub event_type : EventType
  pub event_version : ℤ
  pub tenant_id : String
  pub occurred_at : ℕ
  pub source : String
  pub trace_id : String
  pub payload : Fields

unfoldable pub new_event : String → EventType → String → String → ℕ → Fields → Event
new_event event_id event_type tenant_id trace_id now payload = record {
  event_id = event_id;
  event_type = event_type;
  event_version = pos 1;
  tenant_id = tenant_id;
  occurred_at = now;
  source = "order-hub";
  trace_id = trace_id;
  payload = payload;
}

unfoldable pub order_event_data : Order → Fields
order_event_data o = field "order_id" (str o.order_id) (
    field "user_id" (str o.buyer_user_id) (
      field "scene" (str o.scene) (
        field "status" (str (to_string o.status)) (
          field "payable_amount" (num o.amounts.payable) (
            field "currency" (str o.amounts.currency) (
              field "redemption_id" (str o.promotion.redemption_id)
                (field "freeze_id" (str o.ledger.freeze_id) end)))))))
