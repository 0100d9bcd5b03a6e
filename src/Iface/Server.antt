-- ===== src/Iface/Server.antt =====
-- internal/iface/http/handler.go: `Handlers`, with what gin and the services' surroundings add. A
-- service that may be nil is a Boolean.
use order_hub.Prelude.{ℕ, String, Bool, Option, none, some}
use order_hub.Prelude.Dict.{Dict}
use order_hub.Domain.Error.{Result}
use order_hub.Domain.Scene.{SceneConfig}
use order_hub.Domain.Hash.{ContextDoc, CheckoutDoc}
use order_hub.Port.{Identity}
use order_hub.Application.Action.{Outside}
use order_hub.Iface.Dto.{PreviewReq, CheckoutReq, RefundReq, PaymentCallbackReq}

-- gin's `ShouldBindJSON`: `none` for an error. The body of a refund is used whatever the error.
pub record Binder : Type 0 where
  pub preview_req : String → Option PreviewReq
  pub checkout_req : String → Option CheckoutReq
  pub callback_req : String → Option PaymentCallbackReq
  pub refund_req : Option String → RefundReq

pub record Server : Type 0 where
  pub out : Outside
  pub context_digest : ContextDoc → String
  pub checkout_digest : CheckoutDoc → String
  pub scenes : Dict SceneConfig
  pub binder : Binder
  pub introspect : String → Result Identity
  pub mac : String → String → String
  pub pay_secret : String
  pub allow_unsigned_pay : Bool
  pub admin_token : String
  pub ready : Option (Result (Unit {0}))
  pub stamp : ℕ
  pub has_renew : Bool
  pub has_close : Bool
  pub has_compensate : Bool
  pub has_recon : Bool
  pub has_seed : Bool

-- A body that has to be read and bound.
abbrev pub bound : {A : Type 0} → (String → Option A) → Option String → Option A
bound bind none = none
bound bind (some body) = bind body
