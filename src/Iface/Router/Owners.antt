-- ===== src/Iface/Router/Owners.antt =====
-- internal/iface/http and internal/application: whose orders a request reaches.
use order_hub.Prelude.{◌≡◌, ◌≢◌, refl, ap, arith, String, ◌==◌, ◌&&◌, not, true, text-differs}
use order_hub.Domain.Error.{ok, err, bare, order_not_found}
use order_hub.Domain.Order.{Order}
use order_hub.Port.{Identity}
use order_hub.Memory.{Repo}
use order_hub.Memory
use order_hub.Application.Action.{World, Action}
use order_hub.Application.Cancel
use order_hub.Application.Payment
use order_hub.Application.Refund
use order_hub.Application.Close
use order_hub.Application.Renew
use order_hub.Iface.Wire.{Request, Reply, Payload, answer, app_error, kind_error, outcome}
use order_hub.Iface.Access.{new_request_id, authenticate}
use order_hub.Iface.Dto.{view_order}
use order_hub.Iface.Server.{Server}
use order_hub.Iface.Handlers
use order_hub.Iface.Handlers.{order_param}
use order_hub.Iface.Router.{UserRoute, endpoint, signed_in, run_user, guarded, serve}

-- An action that ends with `order_not_found` and changes nothing.
abbrev IsHidden : {A : Type 0} → Action A → World → Type 0
IsHidden m w = m w ≡ (err (bare order_not_found), w)

module _ (ident : Identity) (order_id : String) (o : Order) (w : World)
    (found : Memory.find_by_id ident.tenant_id order_id w.repo ≡ ok o) (named : ident.user_id ≢ "")
    (stranger : o.buyer_user_id ≢ ident.user_id) where
  -- The test that most of the services make.
  is_stranger : (not (ident.user_id == "") && not (o.buyer_user_id == ident.user_id)) ≡ true
  is_stranger = rw (text-differs named, text-differs stranger) refl

  get-IsHidden : IsHidden (Cancel.get ident order_id) w
  unfolding Cancel.get
  get-IsHidden = ground (arith, text-differs stranger)

  cancel-IsHidden : (srv : Server) → IsHidden (Cancel.cancel srv.out ident order_id) w
  unfolding Cancel.cancel
  cancel-IsHidden srv = ground (arith, is_stranger)

  recreate_intent-IsHidden :
      (srv : Server) → IsHidden (Payment.recreate_intent srv.out ident order_id) w
  unfolding Payment.recreate_intent
  recreate_intent-IsHidden srv = ground (arith, text-differs stranger)

  confirm_ledger-IsHidden :
      (srv : Server) → IsHidden (Payment.confirm_ledger srv.out srv.scenes ident order_id) w
  unfolding Payment.confirm_ledger
  confirm_ledger-IsHidden srv = ground (arith, is_stranger)

  renew-IsHidden : (srv : Server) → IsHidden (Renew.renew srv.out ident order_id) w
  unfolding Renew.renew
  renew-IsHidden srv = ground (arith, is_stranger)

  close-IsHidden : (srv : Server) → IsHidden (Close.close srv.out srv.scenes ident order_id) w
  unfolding Close.close
  close-IsHidden srv = ground (arith, is_stranger)

  refund-IsHidden :
      (srv : Server) (cmd : Refund.RefundCmd)
      → IsHidden (Refund.refund srv.out ident order_id cmd) w
  unfolding Refund.refund Refund.check_refund
  refund-IsHidden srv cmd = ground (arith, is_stranger)

-- An answer with status 404 that changes nothing.
abbrev pub IsNotFound : Reply → World → Type 0
IsNotFound reply w = ((reply w).0.status ≡ 404) × ((reply w).1 ≡ w)

answer-NotFound :
    {A : Type 0} (id : String) (view : A → Payload) (m : Action A) (w : World)
    → IsHidden m w
    → IsNotFound (answer id view m) w
unfolding answer app_error kind_error
answer-NotFound id view m w h = (ap (λ r. (outcome id view r.0).status) h, ap (λ r. r.1) h)

-- The endpoints of one order that ask whose it is, of a server that has their services. `complete` is
-- not among them.
abbrev pub AsksOwner : Server → UserRoute → Type 0
AsksOwner srv UserRoute.get = Unit {0}
AsksOwner srv UserRoute.cancel = Unit {0}
AsksOwner srv UserRoute.pay_intent = Unit {0}
AsksOwner srv UserRoute.confirm_ledger = Unit {0}
AsksOwner srv UserRoute.refund = Unit {0}
AsksOwner srv UserRoute.renew = srv.has_renew ≡ true
AsksOwner srv UserRoute.close = srv.has_close ≡ true
AsksOwner srv route = ⊥

module _ (srv : Server) (id : String) (req : Request) (ident : Identity) (o : Order) (w : World)
    (found : Memory.find_by_id ident.tenant_id (order_param req) w.repo ≡ ok o)
    (named : ident.user_id ≢ "") (stranger : o.buyer_user_id ≢ ident.user_id) where
  run_user-NotFound :
      (route : UserRoute) → AsksOwner srv route → IsNotFound (run_user srv id req route ident) w
  unfolding run_user Handlers.get Handlers.cancel Handlers.pay_intent Handlers.confirm_ledger
      Handlers.refund Handlers.renew Handlers.close
  run_user-NotFound UserRoute.get h =
      answer-NotFound id _ _ w (get-IsHidden ident (order_param req) o w found named stranger)
  run_user-NotFound UserRoute.cancel h =
      answer-NotFound id _ _ w
        (cancel-IsHidden ident (order_param req) o w found named stranger srv)
  run_user-NotFound UserRoute.pay_intent h =
      answer-NotFound id _ _ w
        (recreate_intent-IsHidden ident (order_param req) o w found named stranger srv)
  run_user-NotFound UserRoute.confirm_ledger h =
      answer-NotFound id _ _ w
        (confirm_ledger-IsHidden ident (order_param req) o w found named stranger srv)
  run_user-NotFound UserRoute.refund h =
      answer-NotFound id _ _ w
        (refund-IsHidden ident (order_param req) o w found named stranger srv _)
  run_user-NotFound UserRoute.renew h = rw (h) (
      answer-NotFound id _ _ w
        (renew-IsHidden ident (order_param req) o w found named stranger srv))
  run_user-NotFound UserRoute.close h = rw (h) (
      answer-NotFound id _ _ w
        (close-IsHidden ident (order_param req) o w found named stranger srv))
  run_user-NotFound UserRoute.preview h = elim h [ ]
  run_user-NotFound UserRoute.create h = elim h [ ]
  run_user-NotFound UserRoute.list h = elim h [ ]
  run_user-NotFound UserRoute.complete h = elim h [ ]

-- A signed-in user with an id who asks for an order of another buyer gets status 404, and nothing is
-- changed, at each of the endpoints of one order that ask whose it is. `complete` does not: it answers
-- any two users of a tenant alike, whoever bought the order.
pub stranger_refused :
    (srv : Server) (fresh method path : String) (route : UserRoute) (req : Request)
    (ident other : Identity) (o : Order) (w : World)
    → AsksOwner srv route
    → authenticate srv.introspect (new_request_id fresh req) req ≡ ok ident
    → Memory.find_by_id ident.tenant_id (order_param req) w.repo ≡ ok o
    → ident.user_id ≢ ""
    → o.buyer_user_id ≢ ident.user_id
    → other.tenant_id ≡ ident.tenant_id
    → IsNotFound (serve srv fresh (endpoint method path (signed_in route)) req) w
      × (run_user srv (new_request_id fresh req) req UserRoute.complete other w
          ≡ run_user srv (new_request_id fresh req) req UserRoute.complete ident w)
unfolding serve guarded run_user Handlers.complete
stranger_refused srv fresh method path route req ident other o w asks known found named stranger
      same =
    let id = new_request_id fresh req in
    let view : Order → Payload = λ o'. Payload.order (view_order o') in
    (
      rw (known) (run_user-NotFound srv id req ident o w found named stranger route asks),
      ap (λ tenant. answer id view (Payment.complete srv.out tenant (order_param req)) w) same,
    )
