-- ===== src/Conf.antt =====
-- internal/conf/config.go: the configuration that the environment gives.
use order_hub.Prelude.{
  String, ◌==◌, Bool, true, false, Option, none, some, List, [], ◌∷◌, any, if◌then◌else◌,
}
use order_hub.Prelude.GoText.{trim_space}

pub record Config : Type 0 where
  pub http_addr : String
  pub postgres_dsn : String
  pub redis_addr : String
  pub redis_password : String
  pub mock_deps : Bool
  pub auto_migrate : Bool
  pub auth_hub_url : String
  pub offer_hub_url : String
  pub ledger_hub_url : String
  pub service_api_key : String
  pub payment_callback_secret : String
  pub log_outbox : Bool
  pub admin_token : String
  pub event_webhook_url : String

abbrev is_one_of : List String → String → Bool
is_one_of texts v = any (λ t. t == v) texts

-- `strconv.ParseBool`.
unfoldable pub parse_bool : String → Option Bool
parse_bool v =
    if is_one_of ("1" ∷ "t" ∷ "T" ∷ "TRUE" ∷ "true" ∷ "True" ∷ []) v
    then some true
    else if is_one_of ("0" ∷ "f" ∷ "F" ∷ "FALSE" ∷ "false" ∷ "False" ∷ []) v
    then some false
    else none

-- `os.Getenv`: the empty text for a variable that is not set.
module _ (getenv : String → String) where
  unfoldable pub env : String → String → String
  env k default = let v = trim_space (getenv k) in if v == "" then default else v

  unfoldable pub env_bool : String → Bool → Bool
  env_bool k default =
      let v = trim_space (getenv k) in
      if v == "" then default else elim (parse_bool v) [ none ↦ default | some b ↦ b ]

  -- `Load`.
  unfoldable pub load : Config
  load = record {
    http_addr = env "HTTP_ADDR" ":8080";
    postgres_dsn =
        env "POSTGRES_DSN"
          "host=127.0.0.1 user=order password=order dbname=order_hub port=5432 sslmode=disable TimeZone=UTC";
    redis_addr = env "REDIS_ADDR" "";
    redis_password = env "REDIS_PASSWORD" "";
    mock_deps = env_bool "MOCK_DEPENDENCIES" true;
    auto_migrate = env_bool "AUTO_MIGRATE" true;
    auth_hub_url = env "AUTH_HUB_URL" "";
    offer_hub_url = env "OFFER_HUB_URL" "";
    ledger_hub_url = env "LEDGER_HUB_URL" "";
    service_api_key = env "SERVICE_API_KEY" "";
    payment_callback_secret = env "PAYMENT_CALLBACK_SECRET" "";
    log_outbox = env_bool "LOG_OUTBOX" true;
    admin_token = env "ADMIN_TOKEN" "dev-admin";
    event_webhook_url = env "EVENT_WEBHOOK_URL" "";
  }
