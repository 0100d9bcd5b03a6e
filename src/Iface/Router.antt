-- ===== src/Iface/Router.antt =====
-- internal/iface/http/router.go: the endpoints, and what stands before their handlers. Which endpoint
-- a path belongs to, and the values of the path's parameters, gin finds out.
pub mod Guards
pub mod Owners
pub mod Reads
pub mod Coherent
use order_hub.Prelude.{String, ◌<>◌, Bool, List, [], ◌∷◌, ◌++◌, map, if◌then◌else◌}
use order_hub.Prelude.Dict.{insert}
use order_hub.Domain.Error.{Result, ok, err}
use order_hub.Port.{Identity}
use order_hub.Application.Action.{World}
use order_hub.Iface.Wire.{Request, Response, Reply, fail, app_error, refuse}
use order_hub.Iface.Access.{new_request_id, authenticate, is_admin}
use order_hub.Iface.Server.{Server}
use order_hub.Iface.Handlers
use order_hub.Iface.Admin

-- The handlers without a guard, those behind `Auth` and those behind `AdminAuth`.
pub data OpenRoute : Type 0 where
  admin_page health ready payment_callback list_compensations retry_compensation : OpenRoute

pub data UserRoute : Type 0 where
  preview create list get cancel pay_intent confirm_ledger complete refund renew close : UserRoute

pub data AdminRoute : Type 0 where
  stats list_orders get_order cancel complete confirm_ledger renew retry_paid refund close
        list_compensations retry_compensation reconcile_offer outbox seed :
      AdminRoute

pub data Handler : Type 0 where
  open_to_all : OpenRoute → Handler
  signed_in : UserRoute → Handler
  admin_only : AdminRoute → Handler

pub record Endpoint : Type 0 where
  pub method : String
  pub path : String
  pub handler : Handler

abbrev pub endpoint : String → String → Handler → Endpoint
endpoint method path handler = record { method = method; path = path; handler = handler }

abbrev pub user_endpoint : String → String → UserRoute → Endpoint
user_endpoint method path route = endpoint method ("/api/v1" <> path) (signed_in route)

abbrev pub internal_endpoint : String → String → OpenRoute → Endpoint
internal_endpoint method path route = endpoint method ("/internal/v1" <> path) (open_to_all route)

abbrev pub admin_endpoint : String → String → AdminRoute → Endpoint
admin_endpoint method path route = endpoint method ("/admin/v1" <> path) (admin_only route)

-- `NewRouter`.
unfoldable pub endpoints : List Endpoint
endpoints =
    endpoint "GET" "/" (open_to_all OpenRoute.admin_page)
    ∷ endpoint "GET" "/healthz" (open_to_all OpenRoute.health)
    ∷ endpoint "GET" "/readyz" (open_to_all OpenRoute.ready)
    ∷ endpoint "GET" "/admin" (open_to_all OpenRoute.admin_page)
    ∷ endpoint "GET" "/admin/" (open_to_all OpenRoute.admin_page)
    ∷ user_endpoint "POST" "/orders/preview" UserRoute.preview
    ∷ user_endpoint "POST" "/orders" UserRoute.create
    ∷ user_endpoint "GET" "/orders" UserRoute.list
    ∷ user_endpoint "GET" "/orders/:order_id" UserRoute.get
    ∷ user_endpoint "POST" "/orders/:order_id/cancel" UserRoute.cancel
    ∷ user_endpoint "POST" "/orders/:order_id/pay-intent" UserRoute.pay_intent
    ∷ user_endpoint "POST" "/orders/:order_id/confirm-ledger" UserRoute.confirm_ledger
    ∷ user_endpoint "POST" "/orders/:order_id/complete" UserRoute.complete
    ∷ user_endpoint "POST" "/orders/:order_id/refunds" UserRoute.refund
    ∷ user_endpoint "POST" "/orders/:order_id/renew" UserRoute.renew
    ∷ user_endpoint "POST" "/orders/:order_id/close" UserRoute.close
    ∷ internal_endpoint "POST" "/orders/callbacks/payment" OpenRoute.payment_callback
    ∷ internal_endpoint "GET" "/compensations" OpenRoute.list_compensations
    ∷ internal_endpoint "POST" "/compensations/:id/retry" OpenRoute.retry_compensation
    ∷ admin_endpoint "GET" "/stats" AdminRoute.stats
    ∷ admin_endpoint "GET" "/orders" AdminRoute.list_orders
    ∷ admin_endpoint "GET" "/orders/:order_id" AdminRoute.get_order
    ∷ admin_endpoint "POST" "/orders/:order_id/cancel" AdminRoute.cancel
    ∷ admin_endpoint "POST" "/orders/:order_id/complete" AdminRoute.complete
    ∷ admin_endpoint "POST" "/orders/:order_id/confirm-ledger" AdminRoute.confirm_ledger
    ∷ admin_endpoint "POST" "/orders/:order_id/renew" AdminRoute.renew
    ∷ admin_endpoint "POST" "/orders/:order_id/retry-paid" AdminRoute.retry_paid
    ∷ admin_endpoint "POST" "/orders/:order_id/refunds" AdminRoute.refund
    ∷ admin_endpoint "POST" "/orders/:order_id/close" AdminRoute.close
    ∷ admin_endpoint "GET" "/compensations" AdminRoute.list_compensations
    ∷ admin_endpoint "POST" "/compensations/:id/retry" AdminRoute.retry_compensation
    ∷ admin_endpoint "GET" "/reconcile/offer" AdminRoute.reconcile_offer
    ∷ admin_endpoint "POST" "/reconcile/offer" AdminRoute.reconcile_offer
    ∷ admin_endpoint "GET" "/outbox" AdminRoute.outbox
    ∷ admin_endpoint "POST" "/seed" AdminRoute.seed
    ∷ []

module _ (srv : Server) (id : String) (req : Request) where
  unfoldable pub run_open : OpenRoute → Reply
  run_open OpenRoute.admin_page = refuse Admin.admin_page
  run_open OpenRoute.health = refuse (Handlers.healthy srv id req)
  run_open OpenRoute.ready = Handlers.ready srv id req
  run_open OpenRoute.payment_callback = Handlers.payment_callback srv id req
  run_open OpenRoute.list_compensations = Handlers.list_compensations srv id req
  run_open OpenRoute.retry_compensation = Handlers.retry_compensation srv id req

  unfoldable pub run_user : UserRoute → Identity → Reply
  run_user UserRoute.preview = Handlers.preview srv id req
  run_user UserRoute.create = Handlers.create srv id req
  run_user UserRoute.list = Handlers.list srv id req
  run_user UserRoute.get = Handlers.get srv id req
  run_user UserRoute.cancel = Handlers.cancel srv id req
  run_user UserRoute.pay_intent = Handlers.pay_intent srv id req
  run_user UserRoute.confirm_ledger = Handlers.confirm_ledger srv id req
  run_user UserRoute.complete = Handlers.complete srv id req
  run_user UserRoute.refund = Handlers.refund srv id req
  run_user UserRoute.renew = Handlers.renew srv id req
  run_user UserRoute.close = Handlers.close srv id req

  unfoldable pub run_admin : AdminRoute → Reply
  run_admin AdminRoute.stats = Admin.admin_stats srv id req
  run_admin AdminRoute.list_orders = Admin.admin_list_orders srv id req
  run_admin AdminRoute.get_order = Admin.admin_get_order srv id req
  run_admin AdminRoute.cancel = Admin.admin_cancel srv id req
  run_admin AdminRoute.complete = Admin.admin_complete srv id req
  run_admin AdminRoute.confirm_ledger = Admin.admin_confirm_ledger srv id req
  run_admin AdminRoute.renew = Admin.admin_renew srv id req
  run_admin AdminRoute.retry_paid = Admin.admin_retry_paid srv id req
  run_admin AdminRoute.refund = Admin.admin_refund srv id req
  run_admin AdminRoute.close = Admin.admin_close srv id req
  run_admin AdminRoute.list_compensations = Handlers.list_compensations srv id req
  run_admin AdminRoute.retry_compensation = Handlers.retry_compensation srv id req
  run_admin AdminRoute.reconcile_offer = Admin.admin_reconcile_offer srv id req
  run_admin AdminRoute.outbox = Admin.admin_outbox srv id req
  run_admin AdminRoute.seed = Admin.admin_seed srv id req

  -- `Auth` before a handler.
  abbrev pub signed : UserRoute → Result Identity → Reply
  signed route (err e) = refuse (app_error id e)
  signed route (ok ident) = run_user route ident

  -- A handler behind its guard.
  unfoldable pub guarded : Handler → Reply
  guarded (open_to_all route) = run_open route
  guarded (signed_in route) = signed route (authenticate srv.introspect id req)
  guarded (admin_only route) =
      if is_admin srv.admin_token req
      then run_admin route
      else refuse (fail id 401 40100 "admin unauthorized")

-- `c.Header("X-Request-Id", id)`.
abbrev pub with_id : String → Response → Response
with_id id r = record r { headers = insert "X-Request-Id" id r.headers }

-- A request to an endpoint, with a new UUID for a request that has no identifier.
unfoldable pub serve : Server → String → Endpoint → Request → Reply
serve srv fresh e req w =
    let id = new_request_id fresh req in
    let (response, w') = guarded srv id req e.handler w in (with_id id response, w')
