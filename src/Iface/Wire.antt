-- ===== src/Iface/Wire.antt =====
-- internal/iface/http/response.go and `writeAppError` of middleware.go: what a request holds and how
-- it is answered.
pub mod Codes
use order_hub.Prelude.{ℕ, String, ◌==◌, Bool, Option, none, some, List, [], if◌then◌else◌}
use order_hub.Prelude.Dict.{Dict, lookup}
use order_hub.Domain.Error.{
  ErrKind, Err, Result, ok, err, invalid_argument, overflow, amount_invariant, quote_stale,
  scene_not_found, order_not_found, idempotency_conflict, client_order_conflict, status_not_allowed,
  already_paid, version_conflict, unauthorized, offer_reserve, ledger_freeze, inventory_reserve,
  refund_exceeds_paid, not_implemented, other,
}
use order_hub.Domain.Json.{Json}
use order_hub.Domain.Order.{Refund}
use order_hub.Domain.Event.{EventType}
use order_hub.Port.{PaymentIntent, CheckoutResult, CompensationTicket}
use order_hub.Application.Action.{World, Action}
use order_hub.Application.Preview.{PreviewResult}
use order_hub.Application.Query.{AdminStats}
use order_hub.Application.Recon.{ReconResult}
use order_hub.Application.Seed.{SeedResult}
use order_hub.Iface.Dto.{OrderView}

-- `none` for a body that cannot be read.
pub record Request : Type 0 where
  pub method : String
  pub params : Dict String
  pub query : Dict String
  pub headers : Dict String
  pub body : Option String

-- `c.GetHeader`, `c.Query` and `c.Param`: the empty text for a missing name.
abbrev pub value_of : Dict String → String → String
value_of values name = elim (lookup name values) [ none ↦ "" | some v ↦ v ]

-- An element of the list of `AdminOutbox`.
pub record OutboxItem : Type 0 where
  pub event_id : String
  pub attempts : ℕ
  pub event_type : EventType
  pub tenant_id : String
  pub occurred_at : ℕ
  pub order_id : Json

-- The values that the handlers answer with.
pub data Payload : Type 0 where
  preview : PreviewResult → Payload
  checkout : CheckoutResult → Payload
  order : OrderView → Payload
  orders : List OrderView → String → Payload
  intent : PaymentIntent → Payload
  refunded : Refund → Payload
  tickets : List CompensationTicket → Payload
  retried : ℕ → Payload
  stats : AdminStats → Payload
  reconciled : ReconResult → Payload
  outbox : List OutboxItem → Payload
  seeded : SeedResult → Payload

pub record Envelope : Type 0 where
  pub code : ℕ
  pub message : String
  pub request_id : String
  pub payload : Option Payload

pub data Body : Type 0 where
  envelope : Envelope → Body
  alive : String → Body
  not_ready : String → Body
  page : Body

pub record Response : Type 0 where
  pub status : ℕ
  pub body : Body
  pub headers : Dict String

-- A handler: it answers, and changes what the services change.
abbrev pub Reply : Type 0
Reply = World → Response × World

-- `OK`.
abbrev pub succeed : String → Payload → Response
succeed request_id payload = record {
  status = 200;
  body =
      envelope
        (record { code = 0; message = "ok"; request_id = request_id; payload = some payload });
  headers = [];
}

-- `Fail`.
abbrev pub fail : String → ℕ → ℕ → String → Response
fail request_id status code message = record {
  status = status;
  body =
      envelope (record { code = code; message = message; request_id = request_id; payload = none });
  headers = [];
}

-- The `switch` of `writeAppError`, on what the error wraps.
unfoldable pub kind_error : String → ErrKind → String → Response
kind_error id unauthorized text = fail id 401 40100 "unauthorized"
kind_error id invalid_argument text = fail id 400 40001 text
kind_error id amount_invariant text = fail id 400 40001 text
kind_error id overflow text = fail id 400 40001 text
kind_error id idempotency_conflict text = fail id 409 40910 "idempotency key conflict"
kind_error id client_order_conflict text = fail id 409 40920 "client_order_id conflict"
kind_error id quote_stale text = fail id 422 42210 "QUOTE_STALE"
kind_error id offer_reserve text = fail id 422 42211 text
kind_error id ledger_freeze text = fail id 422 42212 text
kind_error id inventory_reserve text = fail id 422 42213 text
kind_error id already_paid text = fail id 409 40930 text
kind_error id status_not_allowed text = fail id 409 40930 text
kind_error id version_conflict text = fail id 409 40930 text
kind_error id order_not_found text = fail id 404 40401 text
kind_error id scene_not_found text = fail id 404 40401 text
kind_error id refund_exceeds_paid text = fail id 400 40001 text
kind_error id not_implemented text = fail id 500 50000 text
kind_error id other text = fail id 500 50000 text

-- `writeAppError`.
unfoldable pub app_error : String → Err → Response
app_error id e = kind_error id e.kind e.text

-- `if err != nil { writeAppError(c, err); return }; OK(c, …)` after a call of a service.
abbrev pub outcome : {A : Type 0} → String → (A → Payload) → Result A → Response
outcome id view (ok a) = succeed id (view a)
outcome id view (err e) = app_error id e

unfoldable pub answer : {A : Type 0} → String → (A → Payload) → Action A → Reply
answer id view m w = let (r, w') = m w in (outcome id view r, w')

-- An answer that calls no service.
abbrev pub refuse : Response → Reply
refuse response w = (response, w)

-- `requestID`: the value of the context, or the header.
abbrev pub request_id : String → Request → String
request_id stored req = if stored == "" then value_of req.headers "X-Request-Id" else stored
