-- ===== src/Iface/Router/Coherent.antt =====
-- internal/iface/http: every answer of the server fits its status.
use order_hub.Prelude.{
  refl, arith, String, ◌==◌, Bool, ◌&&◌, not, true, false, Option, none, some, [], if◌then◌else◌,
}
use order_hub.Prelude.GoText.{parse_int}
use order_hub.Domain.Error.{Result, ok, err, bare, invalid_argument, not_implemented}
use order_hub.Domain.Status.{Status, parse_status, to_string}
use order_hub.Port.{Identity}
use order_hub.Application.Action.{World}
use order_hub.Iface.Wire.{Request, Reply, Payload, not_ready, value_of, app_error, refuse}
use order_hub.Iface.Wire.Codes.{
  IsCoherent, Answers, succeed-IsCoherent, fail-IsCoherent, app_error-IsCoherent, answer-Answers,
  if-Answers,
}
use order_hub.Iface.Access.{verify_payment_sig, new_request_id, authenticate, is_admin}
use order_hub.Iface.Dto.{PaymentCallbackReq}
use order_hub.Iface.Server.{Server, bound}
use order_hub.Iface.Handlers
use order_hub.Iface.Admin
use order_hub.Iface.Router.{
  OpenRoute, UserRoute, AdminRoute, Handler, Endpoint, open_to_all, signed_in, admin_only, run_open,
  run_user, run_admin, signed, guarded, serve,
}

module _ (id : String) where
  -- A body that cannot be bound is answered with an error.
  body-Answers :
      {A : Type 0} (body : Option A) (run : A → Reply)
      → ((a : A) → Answers id (run a))
      → Answers id
          (elim body [ none ↦ refuse (app_error id (bare invalid_argument)) | some a ↦ run a ])
  body-Answers none run h = λ w. app_error-IsCoherent id (bare invalid_argument)
  body-Answers (some a) run h = h a

  -- So is a service that is not there.
  served-Answers :
      (has : Bool) (run : Reply)
      → Answers id run
      → Answers id (if not has then refuse (app_error id (bare not_implemented)) else run)
  served-Answers true run h = h
  served-Answers false run h = λ w. app_error-IsCoherent id (bare not_implemented)

module _ (srv : Server) (id : String) (req : Request) where
  parsed-Answers :
      (status : Option Status)
      → Answers id (elim status [
        | none ↦ refuse (app_error id (bare invalid_argument))
        | some parsed ↦ Admin.list_with srv id req (to_string parsed)
      ])
  unfolding Admin.list_with
  parsed-Answers none = λ w. app_error-IsCoherent id (bare invalid_argument)
  parsed-Answers (some parsed) = answer-Answers id _ _

  ready_cases :
      (r : Option (Result (Unit {0})))
      → Answers id (elim r [
        | none ↦ refuse (Handlers.healthy srv id req)
        | some (ok _) ↦ refuse (Handlers.healthy srv id req)
        | some (err e) ↦ refuse (record { status = 503; body = not_ready e.text; headers = [] })
      ])
  ready_cases none w = refl
  ready_cases (some (ok _)) w = refl
  ready_cases (some (err e)) w = refl

  ready-Answers : Answers id (Handlers.ready srv id req)
  unfolding Handlers.ready
  ready-Answers w = ready_cases srv.ready w

  run_user-Answers :
      (route : UserRoute) (ident : Identity) → Answers id (run_user srv id req route ident)
  unfolding run_user Handlers.preview Handlers.create Handlers.list Handlers.get Handlers.cancel
      Handlers.pay_intent Handlers.confirm_ledger Handlers.complete Handlers.refund Handlers.renew
      Handlers.close
  run_user-Answers UserRoute.preview ident =
      body-Answers id (bound srv.binder.preview_req req.body) _ λ body. answer-Answers id _ _
  run_user-Answers UserRoute.create ident =
      body-Answers id (bound srv.binder.checkout_req req.body) _ λ body. answer-Answers id _ _
  run_user-Answers UserRoute.list ident = answer-Answers id _ _
  run_user-Answers UserRoute.get ident = answer-Answers id _ _
  run_user-Answers UserRoute.cancel ident = answer-Answers id _ _
  run_user-Answers UserRoute.pay_intent ident = answer-Answers id _ _
  run_user-Answers UserRoute.confirm_ledger ident = answer-Answers id _ _
  run_user-Answers UserRoute.complete ident = answer-Answers id _ _
  run_user-Answers UserRoute.refund ident = answer-Answers id _ _
  run_user-Answers UserRoute.renew ident = served-Answers id srv.has_renew _ (answer-Answers id _ _)
  run_user-Answers UserRoute.close ident = served-Answers id srv.has_close _ (answer-Answers id _ _)

  list_orders-Answers : Answers id (Admin.admin_list_orders srv id req)
  unfolding Admin.admin_list_orders Admin.list_with
  list_orders-Answers =
      if-Answers id (value_of req.query "status" == "") _ _ (answer-Answers id _ _)
        (parsed-Answers (parse_status (value_of req.query "status")))

  tickets-Answers : Answers id (Handlers.list_compensations srv id req)
  unfolding Handlers.list_compensations
  tickets-Answers =
      if-Answers id (not srv.has_compensate) _ _ (λ w. succeed-IsCoherent id (Payload.tickets []))
        (answer-Answers id _ _)

  retry-Answers : Answers id (Handlers.retry_compensation srv id req)
  unfolding Handlers.retry_compensation
  retry-Answers = served-Answers id srv.has_compensate _ (
      if-Answers id (not (parse_int (value_of req.params "id")).1) _ _
        (λ w. app_error-IsCoherent id (bare invalid_argument)) (answer-Answers id _ _))

  accept-Answers :
      (body : Option PaymentCallbackReq) → Answers id (Handlers.accept_callback srv id req body)
  unfolding Handlers.accept_callback
  accept-Answers none = λ w. app_error-IsCoherent id (bare invalid_argument)
  accept-Answers (some body) = answer-Answers id _ _

  read-Answers : (body : String) → Answers id (Handlers.read_callback srv id req body)
  unfolding Handlers.read_callback
  read-Answers body =
      if-Answers id (srv.pay_secret == "" && not srv.allow_unsigned_pay) _ _
        (λ w. fail-IsCoherent id 401 40100 "payment secret not configured" (omega arith) refl)
        (if-Answers id
          (not (srv.pay_secret == "")
            && not (
                verify_payment_sig srv.mac srv.pay_secret body
                  (value_of req.headers "X-Payment-Signature")))
          _ _ (λ w. fail-IsCoherent id 401 40100 "invalid payment signature" (omega arith) refl)
          (accept-Answers (srv.binder.callback_req body)))

  callback-Answers : Answers id (Handlers.payment_callback srv id req)
  unfolding Handlers.payment_callback
  callback-Answers = body-Answers id req.body _ read-Answers

  run_admin-Answers : (route : AdminRoute) → Answers id (run_admin srv id req route)
  unfolding run_admin Admin.admin_stats Admin.admin_get_order Admin.admin_cancel
      Admin.admin_complete Admin.admin_confirm_ledger Admin.admin_renew Admin.admin_retry_paid
      Admin.admin_refund Admin.admin_close Admin.admin_reconcile_offer Admin.admin_outbox
      Admin.admin_seed
  run_admin-Answers AdminRoute.stats = answer-Answers id _ _
  run_admin-Answers AdminRoute.list_orders = list_orders-Answers
  run_admin-Answers AdminRoute.get_order = answer-Answers id _ _
  run_admin-Answers AdminRoute.cancel = answer-Answers id _ _
  run_admin-Answers AdminRoute.complete = answer-Answers id _ _
  run_admin-Answers AdminRoute.confirm_ledger = answer-Answers id _ _
  run_admin-Answers AdminRoute.renew = answer-Answers id _ _
  run_admin-Answers AdminRoute.retry_paid = answer-Answers id _ _
  run_admin-Answers AdminRoute.refund = answer-Answers id _ _
  run_admin-Answers AdminRoute.close = served-Answers id srv.has_close _ (answer-Answers id _ _)
  run_admin-Answers AdminRoute.list_compensations = tickets-Answers
  run_admin-Answers AdminRoute.retry_compensation = retry-Answers
  run_admin-Answers AdminRoute.reconcile_offer =
      served-Answers id srv.has_recon _ (answer-Answers id _ _)
  run_admin-Answers AdminRoute.outbox = answer-Answers id _ _
  run_admin-Answers AdminRoute.seed = served-Answers id srv.has_seed _ (answer-Answers id _ _)

  signed-Answers :
      (route : UserRoute) (who : Result Identity) → Answers id (signed srv id req route who)
  signed-Answers route (err e) = λ w. app_error-IsCoherent id e
  signed-Answers route (ok ident) = run_user-Answers route ident

  run_open-Answers : (route : OpenRoute) → Answers id (run_open srv id req route)
  unfolding run_open
  run_open-Answers OpenRoute.admin_page = λ w. refl
  run_open-Answers OpenRoute.health = λ w. refl
  run_open-Answers OpenRoute.ready = ready-Answers
  run_open-Answers OpenRoute.payment_callback = callback-Answers
  run_open-Answers OpenRoute.list_compensations = tickets-Answers
  run_open-Answers OpenRoute.retry_compensation = retry-Answers

  guarded-Answers : (h : Handler) → Answers id (guarded srv id req h)
  unfolding guarded
  guarded-Answers (open_to_all route) = run_open-Answers route
  guarded-Answers (signed_in route) = signed-Answers route (authenticate srv.introspect id req)
  guarded-Answers (admin_only route) =
      if-Answers id (is_admin srv.admin_token req) _ _ (run_admin-Answers route)
        λ w. fail-IsCoherent id 401 40100 "admin unauthorized" (omega arith) refl

-- Every answer fits its status, in every state and whatever the hubs answer: an envelope carries the
-- request's identifier, and either status 200 with code 0 and a value, or a status from 400 on, which
-- its code begins with, and no value.
pub serve-IsCoherent :
    (srv : Server) (fresh : String) (e : Endpoint) (req : Request) (w : World)
    → IsCoherent (new_request_id fresh req) (serve srv fresh e req w).0
unfolding serve
serve-IsCoherent srv fresh e req w = guarded-Answers srv (new_request_id fresh req) req e.handler w
