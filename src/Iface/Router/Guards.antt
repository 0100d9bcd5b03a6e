-- ===== src/Iface/Router/Guards.antt =====
-- internal/iface/http: what the guards before the handlers keep out.
use order_hub.Prelude.{
  ◌≡◌, ◌≢◌, refl, ◌⊎◌, inl, inr, arith, String, ◌==◌, Bool, ◌&&◌, not, true, false, some, eq_iff,
  text-differs, if◌then◌else◌,
}
use order_hub.Prelude.GoText.{to_lower}
use order_hub.Domain.Error.{Err, ok, err, bare, unauthorized}
use order_hub.Port.{Identity}
use order_hub.Application.Action.{World}
use order_hub.Iface.Wire.{Request, Reply, value_of, app_error, kind_error}
use order_hub.Iface.Access.{
  new_request_id, token_of, with_tenant, authenticate, admin_token_of, is_admin, verify_payment_sig,
}
use order_hub.Iface.Server.{Server}
use order_hub.Iface.Handlers
use order_hub.Iface.Router.{
  OpenRoute, Handler, Endpoint, open_to_all, signed_in, admin_only, run_open, guarded, serve,
}

-- A token that the auth hub does not accept, or one without a tenant where the request names none.
abbrev pub IsUnknown : Server → Request → Type 0
IsUnknown srv req =
    ((e : Err) × (srv.introspect (token_of req) ≡ err e))
    ⊎ ((ident : Identity) × (srv.introspect (token_of req) ≡ ok ident)
        × (ident.tenant_id ≡ "")
        × (value_of req.headers "X-Tenant-Id" ≡ ""))

-- A server without an operators' token, or another token.
abbrev pub IsNoOperator : Server → Request → Type 0
IsNoOperator srv req = (srv.admin_token ≡ "") ⊎ (admin_token_of req ≢ srv.admin_token)

-- A callback that is not signed with the server's secret. Without a secret, it is a server that does
-- not take unsigned callbacks.
abbrev pub IsForged : Server → Request → Type 0
IsForged srv req =
    (body : String) × (req.body ≡ some body)
    × (((srv.pay_secret ≡ "") × (srv.allow_unsigned_pay ≡ false))
        ⊎ ((srv.pay_secret ≢ "")
            × (srv.mac srv.pay_secret body
                ≢ to_lower (value_of req.headers "X-Payment-Signature"))))

-- The requests that a guard has to keep out.
abbrev pub IsBarred : Server → Request → Handler → Type 0
IsBarred srv req (signed_in route) = IsUnknown srv req
IsBarred srv req (admin_only route) = IsNoOperator srv req
IsBarred srv req (open_to_all OpenRoute.payment_callback) = IsForged srv req
IsBarred srv req (open_to_all route) = ⊥

-- The answer to such a request: status 401, and nothing is read or changed.
abbrev pub IsTurnedAway : Reply → Type 0
IsTurnedAway reply = (w : World) → ((reply w).0.status ≡ 401) × ((reply w).1 ≡ w)

if-TurnedAway :
    (test : Bool) (m k : Reply)
    → test ≡ true
    → IsTurnedAway m
    → IsTurnedAway (if test then m else k)
if-TurnedAway test m k is_true h = rw is_true h

module _ (srv : Server) (id : String) (req : Request) where
  authenticate-unknown :
      IsUnknown srv req → authenticate srv.introspect id req ≡ err (bare unauthorized)
  unfolding authenticate with_tenant
  authenticate-unknown (inl (e, failed)) = rw (failed, authenticate) refl
  authenticate-unknown (inr (ident, known, no_tenant, no_header)) =
      rw (known, authenticate) (rw (no_header, with_tenant) (rw no_tenant refl))

  is_admin-false : IsNoOperator srv req → is_admin srv.admin_token req ≡ false
  unfolding is_admin
  is_admin-false (inl no_token) = ground (arith, (eq_iff srv.admin_token "").1 no_token)
  is_admin-false (inr another) = ground (arith, text-differs another)

  read_callback-forged :
      (body : String)
      → ((srv.pay_secret ≡ "") × (srv.allow_unsigned_pay ≡ false))
        ⊎ ((srv.pay_secret ≢ "")
            × (srv.mac srv.pay_secret body ≢ to_lower (value_of req.headers "X-Payment-Signature")))
      → IsTurnedAway (Handlers.read_callback srv id req body)
  unfolding Handlers.read_callback verify_payment_sig
  read_callback-forged body (inl (no_secret, not_allowed)) =
      if-TurnedAway (srv.pay_secret == "" && not srv.allow_unsigned_pay) _ _
        (ground (arith, (eq_iff srv.pay_secret "").1 no_secret)) λ w. (refl, refl)
  read_callback-forged body (inr (secret, unsigned)) =
      rw (text-differs secret) (rw (text-differs unsigned) (λ w. (refl, refl)))

  guarded-TurnedAway : (h : Handler) → IsBarred srv req h → IsTurnedAway (guarded srv id req h)
  unfolding guarded run_open Handlers.read_callback Handlers.payment_callback app_error kind_error
  guarded-TurnedAway (signed_in route) h = rw (authenticate-unknown h) λ w. (refl, refl)
  guarded-TurnedAway (admin_only route) h = rw (is_admin-false h) λ w. (refl, refl)
  guarded-TurnedAway (open_to_all OpenRoute.payment_callback) (body, read, forged) =
      rw (run_open, Handlers.payment_callback, read) (read_callback-forged body forged)
  guarded-TurnedAway (open_to_all OpenRoute.admin_page) h = elim h [ ]
  guarded-TurnedAway (open_to_all OpenRoute.health) h = elim h [ ]
  guarded-TurnedAway (open_to_all OpenRoute.ready) h = elim h [ ]
  guarded-TurnedAway (open_to_all OpenRoute.list_compensations) h = elim h [ ]
  guarded-TurnedAway (open_to_all OpenRoute.retry_compensation) h = elim h [ ]

-- A request that a guard has to keep out is answered with status 401 and changes nothing: one to the
-- orders' endpoints whose token the auth hub does not accept, or that has no tenant; one to the
-- operators' endpoints without the operators' token, or to a server that has none; and a payment
-- callback that is not signed with the server's secret, or comes to a server that has none and does
-- not take unsigned ones.
pub serve-TurnedAway :
    (srv : Server) (fresh : String) (e : Endpoint) (req : Request)
    → IsBarred srv req e.handler
    → IsTurnedAway (serve srv fresh e req)
unfolding serve
serve-TurnedAway srv fresh e req barred w =
    guarded-TurnedAway srv (new_request_id fresh req) req e.handler barred w
