-- ===== src/Infra/Envelope.antt =====
-- internal/infra/httpx/envelope.go: what an answer of another hub means. The readings of JSON are
-- arguments. A caller that wants no value reads every text.
pub mod Refused
use order_hub.Prelude.{
  ℕ, ◌+◌, String, ◌<>◌, ◌==◌, Bool, true, false, ◌&&◌, ◌||◌, not, Option, none, some, ltb, leb,
  nat_eq, if◌then◌else◌,
}
use Prim.Native.String.{len, slice}
use order_hub.Prelude.Int.{ℤ, pos, negsuc, int_eq}
use order_hub.Prelude.GoText.{trim_space, to_upper, to_lower, contains, show}
use order_hub.Domain.Error.{
  Err, Result, ok, err, bare, unauthorized, ledger_freeze, offer_reserve, quote_stale,
  order_not_found, other,
}

-- The body, or the error of reading it.
pub record HubAnswer : Type 0 where
  pub status : ℕ
  pub body : Result String

-- `Envelope`; the data is the JSON text, and empty where there is none.
pub record HubEnvelope : Type 0 where
  pub code : ℤ
  pub message : String
  pub payload : String

-- `errorEnvelope`, where it has an error.
pub record HubError : Type 0 where
  pub code : String
  pub message : String

-- What `json.Unmarshal` makes of a text: an envelope, as far as it gets, and whether it gets to the
-- end; and an error envelope.
pub record HubJson : Type 0 where
  pub envelope_of : String → HubEnvelope × Bool
  pub error_of : String → Option HubError

-- `%d`.
abbrev pub show_int : ℤ → String
show_int (pos n) = show n
show_int (negsuc n) = "-" <> show (n + 1)

-- An error that wraps no sentinel.
abbrev pub plain : String → Err
plain text = record { kind = other; text = text }

abbrev pub is_code : ℤ → ℕ → Bool
is_code code n = int_eq code (pos n)

-- `mapHubError`.
unfoldable pub map_hub_error : ℤ → String → Err
map_hub_error code msg =
    if is_code code 40100 || is_code code 401
    then bare unauthorized
    else if is_code code 42201 || is_code code 42212
    then bare ledger_freeze
    else if is_code code 42211
    then bare offer_reserve
    else if is_code code 42210
    then bare quote_stale
    else plain (if msg == "" then "hub error " <> show_int code else msg)

-- `truncate`; a code point that is cut is left out.
unfoldable pub truncate : String → ℕ → String
truncate s n = if leb (len s) n then s else slice s 0 n

-- The message of an answer that is refused.
unfoldable pub refusal_text : HubJson → String → String
refusal_text json raw =
    let env = (json.envelope_of raw).0 in
    let own = if env.message == "" then trim_space raw else env.message in
    elim (json.error_of raw) [ none ↦ own | some e ↦ if e.message == "" then own else e.message ]

unfoldable pub refusal_code : HubJson → String → String
refusal_code json raw = elim (json.error_of raw) [ none ↦ "" | some e ↦ to_upper e.code ]

-- The `switch` on a status from 300 on.
unfoldable pub refusal : ℕ → String → String → Err
refusal status code msg =
    if nat_eq status 404 || code == "NOT_FOUND"
    then bare order_not_found
    else if code == "UNAUTHORIZED" || code == "API_KEY_REQUIRED"
    then bare unauthorized
    else if code == "QUOTE_STALE" || contains (to_lower msg) "stale"
    then bare quote_stale
    else plain ("http " <> show status <> ": " <> truncate msg 256)

-- An envelope that was read to the end and has data.
abbrev pub has_payload : HubEnvelope × Bool → Bool
has_payload (env, read) = read && not (env.payload == "") && not (env.payload == "null")

module _ {A : Type 0} (json : HubJson) (read : String → Result A) where
  -- An answer without an envelope's data.
  unfoldable pub decode_bare : ℕ → String → Result A
  decode_bare status raw =
      let env = (json.envelope_of raw).0 in
      if nat_eq status 422 || is_code env.code 42201 || is_code env.code 42212
      then err (bare ledger_freeze)
      else if leb 300 status
      then err (refusal status (refusal_code json raw) (refusal_text json raw))
      else read raw

  -- An answer whose body was read, with a status other than 401.
  unfoldable pub decode_body : ℕ → String → Result A
  decode_body status raw =
      let env = (json.envelope_of raw).0 in
      if has_payload (json.envelope_of raw)
      then (if not (int_eq env.code (pos 0))
          then err (map_hub_error env.code env.message)
          else read env.payload)
      else decode_bare status raw

  -- `Decode`.
  unfoldable pub decode : HubAnswer → Result A
  decode resp = elim resp.body [
    | err e ↦ err e
    | ok raw ↦
        if nat_eq resp.status 401 then err (bare unauthorized) else decode_body resp.status raw
  ]
