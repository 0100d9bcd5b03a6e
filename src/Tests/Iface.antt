-- ===== src/Tests/Iface.antt =====
-- internal/iface/http, internal/boot and the clients at concrete servers, requests and answers.
use mathlib.Core.List.{Memᴰ}
use order_hub.Prelude.{
  ◌≡◌, ◌≢◌, refl, ℕ, inr, arith, ◌||◌, String, true, false, none, some, [], ◌∷◌, ◌==◌,
  if◌then◌else◌, text-apart,
}
use order_hub.Prelude.GoText.{trim_left, trim_right, has_prefix, to_lower}
use order_hub.Prelude.Dict.{lookup}
use order_hub.Prelude.Int.{pos}
use order_hub.Domain.Error.{
  Err, Result, ok, err, bare, unauthorized, ledger_freeze, order_not_found, other,
}
use order_hub.Domain.Status.{paid}
use order_hub.Domain.Scene.{default_scenes}
use order_hub.Domain.Json.{end}
use order_hub.Port.{Identity}
use order_hub.Memory.{find_by_id, find_order, is_order}
use order_hub.Iface.Dto.{PaymentCallbackReq}
use order_hub.Iface.Wire.{Request}
use order_hub.Iface.Wire.Codes.{IsCoherent}
use order_hub.Iface.Access.{new_request_id, token_of, with_tenant, authenticate}
use order_hub.Iface.Server.{Server, Binder}
use order_hub.Iface.Handlers.{read_callback, accept_callback}
use order_hub.Iface.Router.{
  OpenRoute, UserRoute, Endpoint, endpoint, endpoints, user_endpoint, internal_endpoint, signed_in,
  run_user, serve,
}
use order_hub.Iface.Router.Coherent.{serve-IsCoherent}
use order_hub.Iface.Router.Guards.{IsTurnedAway, serve-TurnedAway}
use order_hub.Iface.Router.Owners.{IsNotFound, stranger_refused}
use order_hub.Iface.Router.Reads.{OnlyReads, get-OnlyReads}
use order_hub.Infra.Envelope.{HubJson, is_code, decode}
use order_hub.Infra.Envelope.Refused.{decode_refused}
use order_hub.Infra.Clients.{Wiring}
use order_hub.Infra.Clients.Auth.{introspect, mock_introspect}
use order_hub.Infra.Clients.Auth.Nameless.{introspect_named}
use order_hub.Conf.{Config}
use order_hub.Boot.{Surroundings, in_memory, handlers_of}
use order_hub.Boot.Forgery.{IsGenuine, callback_taken}
use order_hub.Tests.Orders.{order_at}
use order_hub.Tests.Services.{hubs, buyer, one_paid}

-- The second user of the tenant.
abbrev guest : Identity
guest = record { user_id = "u2"; tenant_id = "t1"; attributes = end; trace_id = "" }

abbrev paid_callback : PaymentCallbackReq
paid_callback = record {
  order_id = "o1";
  tenant_id = "t1";
  payment_intent_id = "pi1";
  success = true;
  paid_amount = pos 1000;
  channel = "mock";
}

abbrev binder : Binder
binder = record {
  preview_req = λ body. none;
  checkout_req = λ body. none;
  callback_req = λ body. some paid_callback;
  refund_req = λ body. record { amount = pos 0; reason = ""; lines = [] };
}

-- Its auth hub knows one token; its signatures are the secret before the body.
abbrev server : Server
server = record {
  out = hubs;
  context_digest = λ doc. "ctx";
  checkout_digest = λ doc. "req";
  scenes = default_scenes;
  binder = binder;
  introspect = λ token. if token == "tok2" then ok guest else err (bare unauthorized);
  mac = λ secret body. "abc";
  pay_secret = "s";
  allow_unsigned_pay = false;
  admin_token = "root";
  ready = none;
  stamp = 7;
  has_renew = true;
  has_close = true;
  has_compensate = true;
  has_recon = true;
  has_seed = true;
}

abbrev get_o1 : Request
get_o1 = record {
  method = "GET";
  params = ("order_id", "o1") ∷ [];
  query = [];
  headers = ("X-User-Id", "tok2") ∷ [];
  body = none;
}

abbrev forged : Request
forged = record get_o1 {
  method = "POST";
  headers = ("X-Payment-Signature", "abd") ∷ [];
  body = some "{}";
}

abbrev get_order : Endpoint
get_order = user_endpoint "GET" "/orders/:order_id" UserRoute.get

abbrev callback : Endpoint
callback = internal_endpoint "POST" "/orders/callbacks/payment" OpenRoute.payment_callback

serve-IsCoherent_example : IsCoherent "uuid" (serve server "uuid" get_order get_o1 one_paid).0
unfolding new_request_id lookup
serve-IsCoherent_example = serve-IsCoherent server "uuid" get_order get_o1 one_paid

serve-TurnedAway_example : IsTurnedAway (serve server "uuid" callback forged)
unfolding lookup to_lower
serve-TurnedAway_example =
    serve-TurnedAway server "uuid" callback forged
      ("{}", refl, inr (text-apart "s" "" refl, text-apart "abc" "abd" refl))

-- As the guard leaves her.
abbrev guest_in : Identity
guest_in = record guest { trace_id = "uuid" }

stranger_refused_example :
    IsNotFound
      (serve server "uuid"
        (endpoint "GET" "/api/v1/orders/:order_id" (signed_in UserRoute.get))
        get_o1)
      one_paid
    × (run_user server (new_request_id "uuid" get_o1) get_o1 UserRoute.complete buyer one_paid
        ≡ run_user server
            (new_request_id "uuid" get_o1)
            get_o1
            UserRoute.complete
            guest_in
            one_paid)
unfolding new_request_id lookup authenticate token_of with_tenant trim_left trim_right has_prefix
    find_by_id find_order is_order
stranger_refused_example =
    stranger_refused server "uuid" "GET" "/api/v1/orders/:order_id" UserRoute.get get_o1 guest_in
      buyer (order_at paid) one_paid tt refl refl (text-apart "u2" "" refl)
      (text-apart "u1" "u2" refl) refl

get-OnlyReads_example : OnlyReads (serve server "uuid" get_order get_o1)
unfolding endpoints lookup
get-OnlyReads_example =
    get-OnlyReads server "uuid" get_o1 get_order
      (Memᴰ.tail (
        Memᴰ.tail
          (Memᴰ.tail (Memᴰ.tail (Memᴰ.tail (Memᴰ.tail (Memᴰ.tail (Memᴰ.tail (Memᴰ.head refl)))))))))
      refl (text-apart "GET" "POST" refl, text-apart "" "true" refl, text-apart "" "1" refl)

-- The offer hub's answer for a stale quote, with no data.
abbrev hub_json : HubJson
hub_json = record {
  envelope_of = λ raw. (record { code = pos 42210; message = "QUOTE_STALE"; payload = "" }, true);
  error_of = λ raw. none;
}

abbrev no_value : String → Result (Unit {0})
no_value raw = ok tt

abbrev unprocessable : ℕ
unprocessable = 422

abbrev stale_quote : Result (Unit {0})
stale_quote = decode hub_json no_value (record { status = 422; body = ok "{}" })

decode_refused_example :
    ((e : Err) × (stale_quote ≡ err e))
    × (unprocessable ≡ 401 → stale_quote ≡ err (bare unauthorized))
    × (unprocessable ≡ 422 → stale_quote ≡ err (bare ledger_freeze))
    × (unprocessable ≡ 404
        → (is_code (pos 42210) 42201 || is_code (pos 42210) 42212) ≡ false
        → stale_quote ≡ err (bare order_not_found))
decode_refused_example = decode_refused hub_json no_value 422 "{}" (omega arith) refl

abbrev auth_hub : Wiring
auth_hub = record {
  base = "http://auth";
  api_key = "";
  send = λ request. err (bare other);
  json = hub_json;
}

introspect_named_example :
    ((ident : Identity)
      → introspect auth_hub (λ raw. err (bare other)) "tok" ≡ ok ident
      → ident.user_id ≢ "")
    × ((ident : Identity) × (mock_introspect "tenant_001" "mock." ≡ ok ident)
        × (ident.user_id ≡ ""))
introspect_named_example = introspect_named auth_hub (λ raw. err (bare other)) "tok" "tenant_001"

abbrev config : Config
config = record {
  http_addr = ":8080";
  postgres_dsn = "memory";
  redis_addr = "";
  redis_password = "";
  mock_deps = true;
  auto_migrate = false;
  auth_hub_url = "http://auth";
  offer_hub_url = "http://offer";
  ledger_hub_url = "http://ledger";
  service_api_key = "";
  payment_callback_secret = "s";
  log_outbox = true;
  admin_token = "root";
  event_webhook_url = "";
}

abbrev around : Surroundings
around = record {
  redis_answers = false;
  postgres_opens = ok tt;
  migration = ok tt;
  postgres_pings = ok tt;
}

abbrev demo : Server
demo =
    handlers_of config around in_memory hubs (λ doc. "ctx") (λ doc. "req") binder server.introspect
      server.mac 7

callback_taken_example :
    (IsGenuine config server.mac "{}" forged
      → read_callback demo "uuid" forged "{}"
        ≡ accept_callback demo "uuid" forged (some paid_callback))
    × (¬ IsGenuine config server.mac "{}" forged
        → IsTurnedAway (read_callback demo "uuid" forged "{}"))
callback_taken_example =
    callback_taken config around in_memory hubs (λ doc. "ctx") (λ doc. "req") binder
      server.introspect server.mac 7 "uuid" "{}" forged
