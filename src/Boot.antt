-- ===== src/Boot.antt =====
-- internal/boot/app.go: what `Build` puts together. Whether Redis and Postgres answer, and what a
-- migration returns, are arguments; the services that it builds are those of the other modules.
pub mod Forgery
use order_hub.Prelude.{
  String, ◌<>◌, ◌==◌, Bool, true, false, ◌&&◌, ◌||◌, not, Option, none, some, if◌then◌else◌,
}
use order_hub.Domain.Error.{Err, Result, ok, err, other}
use order_hub.Domain.Scene.{default_scenes}
use order_hub.Port.{Identity}
use order_hub.Conf.{Config}
use order_hub.Infra.Clients.{HttpRequest, Wiring, trim}
use order_hub.Infra.Clients.Auth.{Account, introspect, mock_introspect}
use order_hub.Infra.Envelope.{HubAnswer, HubJson}
use order_hub.Application.Action.{Outside}
use order_hub.Domain.Hash.{ContextDoc, CheckoutDoc}
use order_hub.Prelude.{ℕ}
use order_hub.Iface.Server.{Server, Binder}

-- What the surroundings answer while the program starts.
pub record Surroundings : Type 0 where
  pub redis_answers : Bool
  pub postgres_opens : Result (Unit {0})
  pub migration : Result (Unit {0})
  pub postgres_pings : Result (Unit {0})

pub data Store : Type 0 where
  in_memory postgres : Store

-- `fmt.Errorf("postgres: %w", err)` and the like, of an error that wraps no sentinel.
abbrev pub labelled : String → Err → Err
labelled what e = record { kind = e.kind; text = what <> ": " <> e.text }

-- Whether Redis holds the previews and the locks; without it, the memory does.
unfoldable pub uses_redis : Config → Surroundings → Bool
uses_redis cfg around = not (cfg.redis_addr == "") && around.redis_answers

-- The store behind a database that is open.
unfoldable pub migrated : Config → Result (Unit {0}) → Result Store
migrated cfg migration =
    if cfg.auto_migrate
    then elim migration [ err e ↦ err (labelled "migrate" e) | ok _ ↦ ok postgres ]
    else ok postgres

-- The store of the orders.
unfoldable pub choose_store : Config → Surroundings → Result Store
choose_store cfg around =
    if cfg.postgres_dsn == "" || cfg.postgres_dsn == "memory"
    then ok in_memory
    else elim around.postgres_opens [
      | err e ↦ if cfg.mock_deps then ok in_memory else err (labelled "postgres" e)
      | ok _ ↦ migrated cfg around.migration
    ]

-- `readyFn`.
abbrev pub ready_of : Surroundings → Store → Result (Unit {0})
ready_of around in_memory = ok tt
ready_of around postgres = around.postgres_pings

-- The client of the auth hub.
unfoldable pub auth_of :
    Config
    → (HttpRequest → Result HubAnswer)
    → HubJson
    → (String → Result Account)
    → String
    → Result Identity
auth_of cfg send json read =
    if cfg.mock_deps
    then mock_introspect "tenant_001"
    else introspect
        (record {
          base = trim cfg.auth_hub_url;
          api_key = cfg.service_api_key;
          send = send;
          json = json;
        })
        read

-- The handlers of the server, with all of their services.
unfoldable pub handlers_of :
    Config
    → Surroundings
    → Store
    → Outside
    → (ContextDoc → String)
    → (CheckoutDoc → String)
    → Binder
    → (String → Result Identity)
    → (String → String → String)
    → ℕ
    → Server
handlers_of cfg around store out ctx req binder auth mac stamp = record {
  out = out;
  context_digest = ctx;
  checkout_digest = req;
  scenes = default_scenes;
  binder = binder;
  introspect = auth;
  mac = mac;
  pay_secret = cfg.payment_callback_secret;
  allow_unsigned_pay = cfg.mock_deps;
  admin_token = cfg.admin_token;
  ready = some (ready_of around store);
  stamp = stamp;
  has_renew = true;
  has_close = true;
  has_compensate = true;
  has_recon = true;
  has_seed = true;
}
