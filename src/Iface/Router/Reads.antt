-- ===== src/Iface/Router/Reads.antt =====
-- internal/iface/http: which requests only read the store.
use mathlib.Core.List.{Memᴰ}
use order_hub.Prelude.{
  any-Memᴰ, eq_iff, ◌&&◌, ◌==◌, ◌≡◌, ◌≢◌, refl, arith, String, Bool, not, true, false, text-differs,
  if◌then◌else◌,
}
use order_hub.Domain.Error.{Result, ok, err}
use order_hub.Port.{Identity}
use order_hub.Application.Action.{World}
use order_hub.Application.Query
use order_hub.Application.Cancel
use order_hub.Application.Recon.Changes.{run-reads}
use order_hub.Iface.Wire.{Request, Reply, value_of, answer}
use order_hub.Iface.Access.{new_request_id, authenticate, is_admin}
use order_hub.Iface.Server.{Server}
use order_hub.Iface.Handlers
use order_hub.Iface.Admin
use order_hub.Iface.Router.{
  OpenRoute, UserRoute, AdminRoute, Handler, Endpoint, open_to_all, signed_in, admin_only,
  endpoints, run_open, run_user, run_admin, signed, guarded, serve,
}

-- The store is as before.
abbrev pub OnlyReads : Reply → Type 0
OnlyReads reply = (w : World) → (reply w).1.repo ≡ w.repo

if-OnlyReads :
    (test : Bool) (m k : Reply) → OnlyReads m → OnlyReads k → OnlyReads (if test then m else k)
if-OnlyReads true m k first second = first
if-OnlyReads false m k first second = second

module _ (srv : Server) (id : String) (req : Request) where
  run_user-get :
      (ident : Identity)
      → OnlyReads (Handlers.list srv id req ident) × OnlyReads (Handlers.get srv id req ident)
  unfolding Handlers.list Handlers.get answer Query.list Cancel.get
  run_user-get ident = (λ w. ground arith, λ w. ground arith)

  tickets-OnlyReads : OnlyReads (Handlers.list_compensations srv id req)
  unfolding Handlers.list_compensations answer Query.list_tickets
  tickets-OnlyReads w = ground arith

  ready-OnlyReads : OnlyReads (Handlers.ready srv id req)
  unfolding Handlers.ready
  ready-OnlyReads w = ground arith

  admin-get :
      OnlyReads (Admin.admin_stats srv id req)
      × OnlyReads (Admin.admin_list_orders srv id req)
      × OnlyReads (Admin.admin_get_order srv id req)
      × OnlyReads (Admin.admin_outbox srv id req)
  unfolding Admin.admin_stats Admin.admin_list_orders Admin.list_with Admin.admin_get_order
      Admin.admin_outbox answer Query.admin_stats Query.admin_list Query.get_internal
      Query.list_outbox
  admin-get = (λ w. ground arith, λ w. ground arith, λ w. ground arith, λ w. ground arith)

  reconcile-OnlyReads :
      Admin.is_applied srv id req ≡ false → OnlyReads (Admin.admin_reconcile_offer srv id req)
  unfolding Admin.admin_reconcile_offer answer
  reconcile-OnlyReads not_applied =
      if-OnlyReads (not srv.has_recon) _ _ (λ w. refl)
        (rw (not_applied) λ w. run-reads srv.out (value_of req.query "tenant_id") w)

  signed-OnlyReads :
      (route : UserRoute) (who : Result Identity)
      → ((ident : Identity) → OnlyReads (run_user srv id req route ident))
      → OnlyReads (signed srv id req route who)
  signed-OnlyReads route (err e) h = λ w. refl
  signed-OnlyReads route (ok ident) h = h ident

  admin-OnlyReads :
      (route : AdminRoute)
      → OnlyReads (run_admin srv id req route)
      → OnlyReads (guarded srv id req (admin_only route))
  unfolding guarded
  admin-OnlyReads route h = if-OnlyReads (is_admin srv.admin_token req) _ _ h λ w. refl

-- A request that is not sent to apply a reconciliation.
abbrev pub AppliesNothing : Request → Type 0
AppliesNothing req =
    (req.method ≢ "POST")
    × (value_of req.query "apply" ≢ "true")
    × (value_of req.query "apply" ≢ "1")

is_applied-false :
    (srv : Server) (id : String) (req : Request)
    → AppliesNothing req
    → Admin.is_applied srv id req ≡ false
unfolding Admin.is_applied
is_applied-false srv id req (not_post, not_true, not_one) =
    rw (text-differs not_post, text-differs not_true, text-differs not_one) refl

-- The handlers that only read, with a reconciliation that is not to be applied.
abbrev is_reader : Handler → Bool
is_reader (open_to_all OpenRoute.payment_callback) = false
is_reader (open_to_all OpenRoute.retry_compensation) = false
is_reader (open_to_all _) = true
is_reader (signed_in UserRoute.get) = true
is_reader (signed_in UserRoute.list) = true
is_reader (signed_in _) = false
is_reader (admin_only AdminRoute.stats) = true
is_reader (admin_only AdminRoute.list_orders) = true
is_reader (admin_only AdminRoute.get_order) = true
is_reader (admin_only AdminRoute.list_compensations) = true
is_reader (admin_only AdminRoute.reconcile_offer) = true
is_reader (admin_only AdminRoute.outbox) = true
is_reader (admin_only _) = false

-- An endpoint for GET whose handler is not one of them; there is none.
abbrev is_writing_get : Endpoint → Bool
is_writing_get e = e.method == "GET" && not (is_reader e.handler)

module _ (srv : Server) (id : String) (req : Request) (nothing : AppliesNothing req) where
  user-reads :
      (route : UserRoute) (ident : Identity)
      → is_reader (signed_in route) ≡ true
      → OnlyReads (run_user srv id req route ident)
  unfolding run_user
  user-reads UserRoute.get ident h = (run_user-get srv id req ident).1
  user-reads UserRoute.list ident h = (run_user-get srv id req ident).0
  user-reads UserRoute.preview ident h = cc
  user-reads UserRoute.create ident h = cc
  user-reads UserRoute.cancel ident h = cc
  user-reads UserRoute.pay_intent ident h = cc
  user-reads UserRoute.confirm_ledger ident h = cc
  user-reads UserRoute.complete ident h = cc
  user-reads UserRoute.refund ident h = cc
  user-reads UserRoute.renew ident h = cc
  user-reads UserRoute.close ident h = cc

  open-reads :
      (route : OpenRoute)
      → is_reader (open_to_all route) ≡ true
      → OnlyReads (run_open srv id req route)
  unfolding run_open
  open-reads OpenRoute.admin_page h = λ w. refl
  open-reads OpenRoute.health h = λ w. refl
  open-reads OpenRoute.ready h = ready-OnlyReads srv id req
  open-reads OpenRoute.list_compensations h = tickets-OnlyReads srv id req
  open-reads OpenRoute.payment_callback h = cc
  open-reads OpenRoute.retry_compensation h = cc

  admin-reads :
      (route : AdminRoute)
      → is_reader (admin_only route) ≡ true
      → OnlyReads (run_admin srv id req route)
  unfolding run_admin
  admin-reads AdminRoute.stats h = (admin-get srv id req).0
  admin-reads AdminRoute.list_orders h = (admin-get srv id req).1
  admin-reads AdminRoute.get_order h = (admin-get srv id req).2
  admin-reads AdminRoute.outbox h = (admin-get srv id req).3
  admin-reads AdminRoute.list_compensations h = tickets-OnlyReads srv id req
  admin-reads AdminRoute.reconcile_offer h =
      reconcile-OnlyReads srv id req (is_applied-false srv id req nothing)
  admin-reads AdminRoute.cancel h = cc
  admin-reads AdminRoute.complete h = cc
  admin-reads AdminRoute.confirm_ledger h = cc
  admin-reads AdminRoute.renew h = cc
  admin-reads AdminRoute.retry_paid h = cc
  admin-reads AdminRoute.refund h = cc
  admin-reads AdminRoute.close h = cc
  admin-reads AdminRoute.retry_compensation h = cc
  admin-reads AdminRoute.seed h = cc

  guarded-reads : (h : Handler) → is_reader h ≡ true → OnlyReads (guarded srv id req h)
  unfolding guarded
  guarded-reads (open_to_all route) h = open-reads route h
  guarded-reads (signed_in route) h =
      signed-OnlyReads srv id req route (authenticate srv.introspect id req)
        λ ident. user-reads route ident h
  guarded-reads (admin_only route) h = admin-OnlyReads srv id req route (admin-reads route h)

-- A request to any of the endpoints that are registered for GET leaves the store as it is, whatever
-- the hubs answer, unless it asks to apply a reconciliation.
pub get-OnlyReads :
    (srv : Server) (fresh : String) (req : Request) (e : Endpoint)
    → Memᴰ e endpoints
    → e.method ≡ "GET"
    → AppliesNothing req
    → OnlyReads (serve srv fresh e req)
unfolding endpoints serve
get-OnlyReads srv fresh req e listed is_get nothing =
    let harmless = any-Memᴰ is_writing_get {xs = endpoints} refl listed in
    guarded-reads srv (new_request_id fresh req) req nothing e.handler
      (ground (arith, harmless, (eq_iff e.method "GET").1 is_get))
