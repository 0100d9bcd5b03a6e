-- ===== src/Iface/Wire/Codes.antt =====
-- internal/iface/http/response.go and middleware.go: how the status and the envelope of an answer fit
-- together.
use order_hub.Prelude.{
  ℕ, ◌/◌, ◌≤◌, ◌≡◌, refl, ◌⊎◌, inl, inr, arith, String, Bool, true, false, none, some,
  if◌then◌else◌,
}
use order_hub.Domain.Error.{
  ErrKind, Err, Result, ok, err, invalid_argument, overflow, amount_invariant, quote_stale,
  scene_not_found, order_not_found, idempotency_conflict, client_order_conflict, status_not_allowed,
  already_paid, version_conflict, unauthorized, offer_reserve, ledger_freeze, inventory_reserve,
  refund_exceeds_paid, not_implemented, other,
}
use order_hub.Application.Action.{World, Action}
use order_hub.Iface.Wire.{
  Body, envelope, alive, not_ready, page, Envelope, Payload, Response, Reply, succeed, fail,
  kind_error, app_error, outcome, answer, refuse,
}

-- A success has status 200, code 0 and a value; a failure has a status from 400 on, which its code
-- begins with, and no value.
abbrev pub Fits : ℕ → Envelope → Type 0
Fits status env =
    ((status ≡ 200) × (env.code ≡ 0) × ((p : Payload) × (env.payload ≡ some p)))
    ⊎ ((400 ≤ status) × (env.code / 100 ≡ status) × (env.payload ≡ none))

abbrev pub FitsBody : String → ℕ → Body → Type 0
FitsBody id status (envelope env) = (env.request_id ≡ id) × Fits status env
FitsBody id status (alive text) = status ≡ 200
FitsBody id status (not_ready text) = status ≡ 503
FitsBody id status page = status ≡ 200

abbrev pub IsCoherent : String → Response → Type 0
IsCoherent id r = FitsBody id r.status r.body

pub succeed-IsCoherent : (id : String) (p : Payload) → IsCoherent id (succeed id p)
succeed-IsCoherent id p = (refl, inl (refl, refl, (p, refl)))

pub fail-IsCoherent :
    (id : String) (status code : ℕ) (message : String)
    → 400 ≤ status
    → code / 100 ≡ status
    → IsCoherent id (fail id status code message)
fail-IsCoherent id status code message from same = (refl, inr (from, same, refl))

kind_error-IsCoherent :
    (id : String) (k : ErrKind) (text : String) → IsCoherent id (kind_error id k text)
unfolding kind_error
kind_error-IsCoherent id unauthorized text =
    fail-IsCoherent id 401 40100 "unauthorized" (omega arith) refl
kind_error-IsCoherent id invalid_argument text =
    fail-IsCoherent id 400 40001 text (omega arith) refl
kind_error-IsCoherent id amount_invariant text =
    fail-IsCoherent id 400 40001 text (omega arith) refl
kind_error-IsCoherent id overflow text = fail-IsCoherent id 400 40001 text (omega arith) refl
kind_error-IsCoherent id idempotency_conflict text =
    fail-IsCoherent id 409 40910 "idempotency key conflict" (omega arith) refl
kind_error-IsCoherent id client_order_conflict text =
    fail-IsCoherent id 409 40920 "client_order_id conflict" (omega arith) refl
kind_error-IsCoherent id quote_stale text =
    fail-IsCoherent id 422 42210 "QUOTE_STALE" (omega arith) refl
kind_error-IsCoherent id offer_reserve text = fail-IsCoherent id 422 42211 text (omega arith) refl
kind_error-IsCoherent id ledger_freeze text = fail-IsCoherent id 422 42212 text (omega arith) refl
kind_error-IsCoherent id inventory_reserve text =
    fail-IsCoherent id 422 42213 text (omega arith) refl
kind_error-IsCoherent id already_paid text = fail-IsCoherent id 409 40930 text (omega arith) refl
kind_error-IsCoherent id status_not_allowed text =
    fail-IsCoherent id 409 40930 text (omega arith) refl
kind_error-IsCoherent id version_conflict text =
    fail-IsCoherent id 409 40930 text (omega arith) refl
kind_error-IsCoherent id order_not_found text = fail-IsCoherent id 404 40401 text (omega arith) refl
kind_error-IsCoherent id scene_not_found text = fail-IsCoherent id 404 40401 text (omega arith) refl
kind_error-IsCoherent id refund_exceeds_paid text =
    fail-IsCoherent id 400 40001 text (omega arith) refl
kind_error-IsCoherent id not_implemented text = fail-IsCoherent id 500 50000 text (omega arith) refl
kind_error-IsCoherent id other text = fail-IsCoherent id 500 50000 text (omega arith) refl

pub app_error-IsCoherent : (id : String) (e : Err) → IsCoherent id (app_error id e)
unfolding app_error
app_error-IsCoherent id e = kind_error-IsCoherent id e.kind e.text

pub outcome-IsCoherent :
    {A : Type 0} (id : String) (view : A → Payload) (r : Result A)
    → IsCoherent id (outcome id view r)
outcome-IsCoherent id view (ok a) = succeed-IsCoherent id (view a)
outcome-IsCoherent id view (err e) = app_error-IsCoherent id e

-- A handler answers coherently in every state.
abbrev pub Answers : String → Reply → Type 0
Answers id reply = (w : World) → IsCoherent id (reply w).0

pub answer-Answers :
    {A : Type 0} (id : String) (view : A → Payload) (m : Action A) → Answers id (answer id view m)
unfolding answer
answer-Answers id view m w = outcome-IsCoherent id view (m w).0

pub refuse-Answers : (id : String) (r : Response) → IsCoherent id r → Answers id (refuse r)
refuse-Answers id r h w = h

pub if-Answers :
    (id : String) (test : Bool) (m k : Reply)
    → Answers id m
    → Answers id k
    → Answers id (if test then m else k)
if-Answers id true m k first second = first
if-Answers id false m k first second = second
