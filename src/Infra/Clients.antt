-- ===== src/Infra/Clients.antt =====
-- internal/infra/offerclient, ledgerclient and authclient: the requests to the other hubs. Sending one
-- is an argument, and so are the readings of JSON texts into Go's structs.
pub mod Offer
pub mod Ledger
pub mod Auth
use order_hub.Prelude.{
  String, ◌<>◌, ◌==◌, Bool, ◌&&◌, Option, none, some, List, [], ◌∷◌, nat_eq, not, if◌then◌else◌,
}
use Prim.Native.Char.{code}
use Prim.Native.String
use order_hub.Prelude.Dict.{Dict, insert}
use order_hub.Domain.Json.{Json}
use order_hub.Domain.Error.{Result, ok, err, ◌>>=◌}
use order_hub.Infra.Envelope.{HubAnswer, HubJson, decode}

pub record HttpRequest : Type 0 where
  pub method : String
  pub url : String
  pub headers : Dict String
  pub body : Option Json

-- What a client works with: the hub's address, the key, the sending and the readings.
pub record Wiring : Type 0 where
  pub base : String
  pub api_key : String
  pub send : HttpRequest → Result HubAnswer
  pub json : HubJson

-- `trim`: the slashes at the end are dropped.
unfoldable pub trim : String → String
trim String.[] = String.[]
trim (String.◌∷◌ c s) =
    let rest = trim s in if nat_eq (code c) 47 && rest == "" then String.[] else String.◌∷◌ c rest

-- `if value != "" { req.Header.Set(name, value) }`.
unfoldable pub set_header : String → String → Dict String → Dict String
set_header name value headers = if value == "" then headers else insert name value headers

-- A request sent, and its answer decoded.
unfoldable pub exchange : {A : Type 0} → Wiring → (String → Result A) → HttpRequest → Result A
exchange hub read req = hub.send req >>= λ resp. decode hub.json read resp
