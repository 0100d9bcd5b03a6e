-- ===== src/Infra/Clients/Auth/Nameless.antt =====
-- internal/infra/authclient: users without an id, whom the services take for operators.
use order_hub.Prelude.{◌≡◌, ◌≢◌, refl, arith, String, eq_iff}
use order_hub.Prelude.GoText.{trim_left, trim_right, has_prefix}
use order_hub.Domain.Error.{Result, ok, >>=-ok_inv}
use order_hub.Port.{Identity}
use order_hub.Infra.Clients.{Wiring, exchange}
use order_hub.Infra.Clients.Auth.{
  Account, introspect_request, identity_of, introspect, split_points, mock_account, mock_introspect,
}

identity_of-named : (a : Account) (ident : Identity) → identity_of a ≡ ok ident → ident.user_id ≢ ""
identity_of-named a ident h none_named = ground (arith, eq_iff a.user_id "")

-- The client of the auth hub never answers with an identity without a user. The mock does: for the
-- token "mock." its user is the empty text, with the default tenant.
pub introspect_named :
    (hub : Wiring) (read : String → Result Account) (token : String) (default_tenant : String)
    → ((ident : Identity) → introspect hub read token ≡ ok ident → ident.user_id ≢ "")
      × ((ident : Identity) × (mock_introspect default_tenant "mock." ≡ ok ident)
          × (ident.user_id ≡ ""))
unfolding introspect mock_introspect trim_left trim_right has_prefix mock_account split_points
introspect_named hub read token default_tenant = (
  λ ident h.
      let (a, got, named) = >>=-ok_inv (exchange hub read (introspect_request hub token)) _ h in
      identity_of-named a ident named,
  (_, refl, refl),
)
