-- ===== src/Infra/Clients/Ledger.antt =====
-- internal/infra/ledgerclient/client.go: `Client`.
use order_hub.Prelude.{String, ◌<>◌, none, some, []}
use order_hub.Prelude.Int.{ℤ}
use order_hub.Prelude.Dict.{Dict, lookup}
use order_hub.Domain.Json.{num, str, obj, Fields, end, field}
use order_hub.Domain.Error.{Result, ok, ◌>>=◌}
use order_hub.Port.{FreezeRequest}
use order_hub.Infra.Clients.{HttpRequest, Wiring, set_header, exchange}

-- The readings: of a balance, of a map of texts, and of a map of any values, which is dropped.
pub record LedgerJson : Type 0 where
  pub available : String → Result ℤ
  pub text_map : String → Result (Dict String)
  pub any_map : String → Result (Unit {0})

-- The request of `post`.
unfoldable pub ledger_post : Wiring → String → Fields → HttpRequest
ledger_post hub path payload = record {
  method = "POST";
  url = hub.base <> path;
  headers = set_header "X-Api-Key" hub.api_key (set_header "Content-Type" "application/json" []);
  body = some (obj payload);
}

module _ (hub : Wiring) (reads : LedgerJson) where
  unfoldable pub get_balance : String → String → String → Result ℤ
  get_balance tenant_id user_id asset_code = exchange hub reads.available (record {
    method = "GET";
    url =
        hub.base <> "/api/v1/ledger/balances?tenant_id=" <> tenant_id <> "&user_id=" <> user_id
        <> "&asset_code=" <> asset_code;
    headers = set_header "X-Api-Key" hub.api_key [];
    body = none;
  })

  unfoldable pub freeze : FreezeRequest → Result String
  freeze req =
      exchange hub reads.text_map (
        ledger_post hub "/api/v1/ledger/freeze" (
          field "tenant_id" (str req.tenant_id) (
            field "user_id" (str req.user_id) (
              field "asset_code" (str req.asset_code) (
                field "amount" (num req.amount)
                  (field "biz_no" (str req.biz_no) (field "source_system" (str "order") end)))))))
      >>= λ out. ok (elim (lookup "freeze_id" out) [ none ↦ "" | some id ↦ id ])

  -- What `Capture` and `Release` send.
  abbrev pub on_freeze : String → String → String → Result (Unit {0})
  on_freeze path freeze_id biz_no =
      exchange hub reads.any_map
        (ledger_post hub path (field "freeze_id" (str freeze_id) (field "biz_no" (str biz_no) end)))

  unfoldable pub capture : String → String → Result (Unit {0})
  capture freeze_id biz_no = on_freeze "/api/v1/ledger/capture" freeze_id biz_no

  unfoldable pub release : String → String → Result (Unit {0})
  release freeze_id biz_no = on_freeze "/api/v1/ledger/release" freeze_id biz_no

  unfoldable pub credit : String → String → String → ℤ → String → String → Result (Unit {0})
  credit tenant_id user_id asset_code amount biz_no related_biz_no = exchange hub reads.any_map (
      ledger_post hub "/api/v1/ledger/credit" (
        field "tenant_id" (str tenant_id) (
          field "user_id" (str user_id) (
            field "asset_code" (str asset_code) (
              field "amount" (num amount) (
                field "biz_no" (str biz_no) (
                  field "related_biz_no" (str related_biz_no)
                    (field "source_system" (str "order") end))))))))
