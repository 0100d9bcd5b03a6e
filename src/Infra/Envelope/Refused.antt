-- ===== src/Infra/Envelope/Refused.antt =====
-- internal/infra/httpx/envelope.go: the answers that are errors.
use order_hub.Prelude.{
  ℕ, ◌≤◌, ◌≡◌, refl, arith, String, Bool, true, false, ◌||◌, nat_eq, leb, if◌then◌else◌,
}
use order_hub.Domain.Error.{
  Err, Result, ok, err, bare, unauthorized, ledger_freeze, order_not_found,
}
use order_hub.Infra.Envelope.{
  HubJson, has_payload, refusal, refusal_code, refusal_text, decode_bare, decode_body, decode,
  is_code,
}

if-err :
    {A : Type 0} (test : Bool) (e : Err) (r : Result A)
    → ((e' : Err) × (r ≡ err e'))
    → (e' : Err) × ((if test then err e else r) ≡ err e')
if-err true e r h = (e, refl)
if-err false e r h = h

is_error :
    {A : Type 0} (json : HubJson) (read : String → Result A) (status : ℕ) (raw : String)
    → 300 ≤ status
    → has_payload (json.envelope_of raw) ≡ false
    → (e : Err) × (decode json read (record { status = status; body = ok raw }) ≡ err e)
unfolding decode decode_body decode_bare
is_error {A} json read status raw high no_payload =
    if-err (nat_eq status 401) (bare unauthorized) (decode_body json read status raw) (
      rw (no_payload, decode_body)
        (if-err
          (nat_eq status 422
            || is_code (json.envelope_of raw).0.code 42201
            || is_code (json.envelope_of raw).0.code 42212)
          (bare ledger_freeze)
          (if leb 300 status
            then err (refusal status (refusal_code json raw) (refusal_text json raw))
            else read raw)
          (refusal status (refusal_code json raw) (refusal_text json raw), ground arith)))

-- An answer with a status from 300 on, whose body carries no envelope's data, is an error, and its
-- status decides: 401 is `unauthorized`; every 422 is `ledger_freeze`, whatever code the body names, a
-- stale quote's included; and 404 is `order_not_found`, if the envelope's code is not one of the
-- ledger's own.
pub decode_refused :
    {A : Type 0} (json : HubJson) (read : String → Result A) (status : ℕ) (raw : String)
    → 300 ≤ status
    → has_payload (json.envelope_of raw) ≡ false
    → let answer : Result A = decode json read (record { status = status; body = ok raw }) in
      ((e : Err) × (answer ≡ err e))
      × (status ≡ 401 → answer ≡ err (bare unauthorized))
      × (status ≡ 422 → answer ≡ err (bare ledger_freeze))
      × (status ≡ 404
          → (is_code (json.envelope_of raw).0.code 42201
              || is_code (json.envelope_of raw).0.code 42212)
            ≡ false
          → answer ≡ err (bare order_not_found))
unfolding decode decode_body decode_bare refusal
decode_refused json read status raw high no_payload = (
  is_error json read status raw high no_payload,
  λ s. ground arith,
  λ s. rw s (rw (no_payload, decode_body) refl),
  λ s own. rw s (rw (no_payload, decode_body) (rw (own, decode_bare) refl)),
)
