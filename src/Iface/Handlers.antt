-- ===== src/Iface/Handlers.antt =====
-- internal/iface/http/handler.go: the handlers of the orders' routes, of the payment callback and of
-- the tickets. `id` is the request's identifier.
use order_hub.Prelude.{ℕ, String, ◌==◌, ◌&&◌, not, Option, none, some, [], map, if◌then◌else◌}
use order_hub.Prelude.Int.{ℤ, pos, negsuc}
use order_hub.Prelude.GoText.{parse_int, atoi}
use order_hub.Domain.Error.{ok, err, bare, invalid_argument, not_implemented, order_not_found}
use order_hub.Port.{Identity}
use order_hub.Application.Action.{Action, pure, raise, ◌>>◌}
use order_hub.Application.Preview
use order_hub.Application.Checkout.Entry
use order_hub.Application.Query
use order_hub.Application.Cancel
use order_hub.Application.Payment
use order_hub.Application.Refund
use order_hub.Application.Close
use order_hub.Application.Renew
use order_hub.Application.Compensate
use order_hub.Iface.Dto.{
  preview_cmd, checkout_cmd, refund_cmd, payment_callback_cmd, view_order, PaymentCallbackReq,
}
use order_hub.Iface.Wire.{
  Request, Response, Reply, Payload, alive, not_ready, value_of, succeed, fail, app_error, answer,
  refuse,
}
use order_hub.Iface.Access.{verify_payment_sig}
use order_hub.Iface.Server.{Server, bound}

-- `c.Param("order_id")`.
abbrev pub order_param : Request → String
order_param req = value_of req.params "order_id"

module _ (srv : Server) (id : String) (req : Request) where
  module _ (ident : Identity) where
    unfoldable pub preview : Reply
    preview = elim (bound srv.binder.preview_req req.body) [
      | none ↦ refuse (app_error id (bare invalid_argument))
      | some body ↦
          answer id Payload.preview
            (Preview.preview srv.out srv.context_digest srv.scenes ident (preview_cmd body))
    ]

    unfoldable pub create : Reply
    create = elim (bound srv.binder.checkout_req req.body) [
      | none ↦ refuse (app_error id (bare invalid_argument))
      | some body ↦ answer id Payload.checkout (
          Entry.checkout srv.out srv.context_digest srv.checkout_digest srv.scenes ident
            (checkout_cmd (value_of req.headers "Idempotency-Key") id body))
    ]

    unfoldable pub get : Reply
    get = answer id (λ o. Payload.order (view_order o)) (Cancel.get ident (order_param req))

    unfoldable pub list : Reply
    list =
        answer id (λ found. Payload.orders (map view_order found.0) found.1)
          (Query.list ident (value_of req.query "status") (value_of req.query "scene")
            (value_of req.query "cursor") (atoi (value_of req.query "limit")))

    unfoldable pub cancel : Reply
    cancel =
        answer id (λ o. Payload.order (view_order o))
          (Cancel.cancel srv.out ident (order_param req))

    unfoldable pub pay_intent : Reply
    pay_intent = answer id Payload.intent (Payment.recreate_intent srv.out ident (order_param req))

    unfoldable pub confirm_ledger : Reply
    confirm_ledger =
        answer id (λ o. Payload.order (view_order o))
          (Payment.confirm_ledger srv.out srv.scenes ident (order_param req))

    unfoldable pub complete : Reply
    complete =
        answer id (λ o. Payload.order (view_order o))
          (Payment.complete srv.out ident.tenant_id (order_param req))

    unfoldable pub refund : Reply
    refund = answer id Payload.refunded (
        Refund.refund srv.out ident (order_param req) (refund_cmd (srv.binder.refund_req req.body)))

    unfoldable pub close : Reply
    close =
        if not srv.has_close
        then refuse (app_error id (bare not_implemented))
        else answer id (λ o. Payload.order (view_order o))
            (Close.close srv.out srv.scenes ident (order_param req))

    unfoldable pub renew : Reply
    renew =
        if not srv.has_renew
        then refuse (app_error id (bare not_implemented))
        else answer id (λ o. Payload.order (view_order o))
            (Renew.renew srv.out ident (order_param req))

  -- `PaymentCallback` once the signature is accepted.
  unfoldable pub accept_callback : Option PaymentCallbackReq → Reply
  accept_callback none = refuse (app_error id (bare invalid_argument))
  accept_callback (some body) =
      answer id (λ o. Payload.order (view_order o))
        (Payment.on_payment_callback srv.out srv.scenes (payment_callback_cmd id body))

  -- `PaymentCallback` with the body that was read.
  unfoldable pub read_callback : String → Reply
  read_callback body =
      if srv.pay_secret == "" && not srv.allow_unsigned_pay
      then refuse (fail id 401 40100 "payment secret not configured")
      else if not (srv.pay_secret == "")
          && not (
              verify_payment_sig srv.mac srv.pay_secret body
                (value_of req.headers "X-Payment-Signature"))
      then refuse (fail id 401 40100 "invalid payment signature")
      else accept_callback (srv.binder.callback_req body)

  unfoldable pub payment_callback : Reply
  payment_callback = elim req.body [
    | none ↦ refuse (app_error id (bare invalid_argument))
    | some body ↦ read_callback body
  ]

  unfoldable pub list_compensations : Reply
  list_compensations =
      if not srv.has_compensate
      then refuse (succeed id (Payload.tickets []))
      else answer id Payload.tickets
          (Query.list_tickets (value_of req.query "status") (atoi (value_of req.query "limit")))

  -- `Compensate.Retry` with a number that is read; the store numbers the tickets from one on.
  unfoldable pub retry_ticket : ℤ → Action ℕ
  retry_ticket (negsuc n) = raise (bare order_not_found)
  retry_ticket (pos n) = do Compensate.retry srv.out srv.scenes n; pure n

  unfoldable pub retry_compensation : Reply
  retry_compensation =
      if not srv.has_compensate
      then refuse (app_error id (bare not_implemented))
      else if not (parse_int (value_of req.params "id")).1
      then refuse (app_error id (bare invalid_argument))
      else answer id Payload.retried (retry_ticket (parse_int (value_of req.params "id")).0)

  -- `Health`, and `Ready` of a server that is ready.
  abbrev pub healthy : Response
  healthy = record { status = 200; body = alive "ok"; headers = [] }

  unfoldable pub ready : Reply
  ready = elim srv.ready [
    | none ↦ refuse healthy
    | some (ok _) ↦ refuse healthy
    | some (err e) ↦ refuse (record { status = 503; body = not_ready e.text; headers = [] })
  ]
