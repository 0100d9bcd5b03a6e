-- ===== src/Infra/Clients/Auth.antt =====
-- internal/infra/authclient: `Client` and `Mock`, who a token belongs to.
pub mod Nameless
use order_hub.Prelude.{
  String, ◌<>◌, ◌==◌, Bool, true, false, Option, none, some, List, [], ◌∷◌, nat_eq, if◌then◌else◌,
}
use Prim.Native.Char.{code}
use Prim.Native.String
use order_hub.Prelude.GoText.{trim_space, trim_prefix, has_prefix}
use order_hub.Domain.Json.{bool, str, obj, Fields, end, field}
use order_hub.Domain.Error.{Result, ok, err, bare, unauthorized, ◌>>=◌}
use order_hub.Port.{Identity}
use order_hub.Infra.Clients.{HttpRequest, Wiring, set_header, exchange}

-- What the auth hub answers.
pub record Account : Type 0 where
  pub user_id : String
  pub tenant_id : String
  pub attributes : Fields

unfoldable pub introspect_request : Wiring → String → HttpRequest
introspect_request hub token = record {
  method = "POST";
  url = hub.base <> "/api/v1/auth/introspect";
  headers =
      set_header "X-Api-Key" hub.api_key
        (("Authorization", "Bearer " <> token) ∷ ("Content-Type", "application/json") ∷ []);
  body = some (obj (field "token" (str token) end));
}

-- An account without a user is no account.
abbrev pub identity_of : Account → Result Identity
identity_of a =
    if a.user_id == ""
    then err (bare unauthorized)
    else ok (record {
      user_id = a.user_id;
      tenant_id = a.tenant_id;
      attributes = a.attributes;
      trace_id = "";
    })

-- `Client.Introspect`, with the reading of an account.
unfoldable pub introspect : Wiring → (String → Result Account) → String → Result Identity
introspect hub read token =
    exchange hub read (introspect_request hub token) >>= λ out. identity_of out

-- `strings.Split(s, ".")`: the part before the first point, and the parts behind it.
unfoldable pub split_points : String → String × List String
split_points String.[] = ("", [])
split_points (String.◌∷◌ c s) =
    let (first, rest) = split_points s in
    if nat_eq (code c) 46 then ("", first ∷ rest) else (String.◌∷◌ c first, rest)

-- The user and the tenant of a token behind "mock.", which is split into `first` and `rest`.
unfoldable pub mock_account : String → String → String × List String → String × String
mock_account token tenant (first, []) = (token, tenant)
mock_account token tenant (first, user ∷ []) = (user, tenant)
mock_account token tenant (first, user ∷ named ∷ _) = (user, if named == "" then tenant else named)

abbrev pub mock_attributes : Fields
mock_attributes = field "member_level" (str "gold") (field "is_new_user" (bool false) end)

abbrev pub mock_identity : String × String → Identity
mock_identity (user, tenant) = record {
  user_id = user;
  tenant_id = tenant;
  attributes = mock_attributes;
  trace_id = "";
}

-- `Mock.Introspect` with its default tenant.
unfoldable pub mock_introspect : String → String → Result Identity
mock_introspect default_tenant raw =
    let token = trim_space (trim_prefix raw "Bearer ") in
    let tenant = if default_tenant == "" then "tenant_001" else default_tenant in
    if token == ""
    then err (bare unauthorized)
    else ok (
        mock_identity (
          if has_prefix token "mock."
          then mock_account token tenant (split_points token)
          else (token, tenant)))
