-- ===== src/Iface/Access.antt =====
-- internal/iface/http/middleware.go and `AdminAuth` of admin.go: who may send a request. What the
-- client of the auth hub answers to a token, and the MAC of a text under a secret, are arguments.
use order_hub.Prelude.{String, ◌==◌, Bool, true, ◌||◌, not, if◌then◌else◌}
use order_hub.Prelude.GoText.{trim_space, trim_prefix, to_lower}
use order_hub.Domain.Error.{Result, ok, err, bare, unauthorized}
use order_hub.Port.{Identity}
use order_hub.Iface.Wire.{Request, value_of}

-- The identifier that `RequestID` gives a request; `fresh` is a new UUID.
unfoldable pub new_request_id : String → Request → String
new_request_id fresh req =
    let given = value_of req.headers "X-Request-Id" in
    let traced = value_of req.headers "traceparent" in
    if not (given == "") then given else if not (traced == "") then traced else fresh

-- The token that `Auth` asks about.
unfoldable pub token_of : Request → String
token_of req =
    let token = trim_space (trim_prefix (value_of req.headers "Authorization") "Bearer ") in
    if token == "" then value_of req.headers "X-User-Id" else token

-- The identity with the tenant of the header, if there is one.
unfoldable pub with_tenant : String → Identity → Identity
with_tenant tenant ident = if tenant == "" then ident else record ident { tenant_id = tenant }

-- The last test of `Auth`: there is a tenant.
abbrev pub admit : String → Identity → Result Identity
admit id ident =
    if ident.tenant_id == "" then err (bare unauthorized) else ok (record ident { trace_id = id })

-- `Auth`: the identity that the handlers see, or the error that is answered. Every failure of the
-- client is the same error.
unfoldable pub authenticate : (String → Result Identity) → String → Request → Result Identity
authenticate introspect id req = elim (introspect (token_of req)) [
  | err _ ↦ err (bare unauthorized)
  | ok ident ↦ admit id (with_tenant (value_of req.headers "X-Tenant-Id") ident)
]

-- The token that `AdminAuth` compares.
unfoldable pub admin_token_of : Request → String
admin_token_of req =
    let got = value_of req.headers "X-Admin-Token" in
    if got == "" then value_of req.query "token" else got

-- `AdminAuth`: a server without a token lets nobody in.
unfoldable pub is_admin : String → Request → Bool
is_admin token req = not (token == "" || not (admin_token_of req == token))

-- `verifyPaymentSig`; `mac` gives lower-case hexadecimal digits, so that of the letters that `ToLower`
-- changes only those of ASCII can lead to them.
unfoldable pub verify_payment_sig : (String → String → String) → String → String → String → Bool
verify_payment_sig mac secret body sig =
    if secret == "" then true else mac secret body == to_lower sig
