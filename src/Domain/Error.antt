-- ===== src/Domain/Error.antt =====
-- internal/domain/errors.go: the sentinel errors, and errors that wrap one with a detail.
use order_hub.Prelude.{String, ◌<>◌, Bool, true, false, ◌≡◌, refl, ◌⊎◌, inl, inr}

-- The sentinels that `errors.Is` tells apart; `other` is an error that wraps none of them.
pub data ErrKind : Type 0 where
  invalid_argument overflow amount_invariant quote_stale scene_not_found order_not_found
        idempotency_conflict client_order_conflict status_not_allowed already_paid version_conflict
        unauthorized offer_reserve ledger_freeze inventory_reserve refund_exceeds_paid
        not_implemented other :
      ErrKind

pub ErrKind-discrete : Discrete ErrKind
ErrKind-discrete = hlevel

-- An error value: the sentinel that it wraps, and what `Error()` returns.
pub record Err : Type 0 where
  pub kind : ErrKind
  pub text : String

unfoldable pub message : ErrKind → String
message invalid_argument = "invalid argument"
message overflow = "amount overflow"
message amount_invariant = "amount invariant violated"
message quote_stale = "quote stale"
message scene_not_found = "scene not found"
message order_not_found = "order not found"
message idempotency_conflict = "idempotency key conflict"
message client_order_conflict = "client_order_id conflict"
message status_not_allowed = "status not allowed"
message already_paid = "order already paid"
message version_conflict = "version conflict"
message unauthorized = "unauthorized"
message offer_reserve = "offer reserve failed"
message ledger_freeze = "ledger freeze failed"
message inventory_reserve = "inventory reserve failed"
message refund_exceeds_paid = "refund exceeds paid"
message not_implemented = "not implemented"
message other = ""

-- A sentinel returned as it is.
abbrev pub bare : ErrKind → Err
bare k = record { kind = k; text = message k }

-- `fmt.Errorf("%w: …", sentinel, …)`.
abbrev pub wrapped : ErrKind → String → Err
wrapped k detail = record { kind = k; text = message k <> ": " <> detail }

pub data Result (A : Type 0) : Type 0 where
  ok : A → Result A
  err : Err → Result A

infixl 5 ◌>>=◌ ◌>>◌
-- `if err != nil { return err }` between two steps.
abbrev pub ◌>>=◌ : {A B : Type 0} → Result A → (A → Result B) → Result B
step >>= next = elim step [ err e ↦ err e | ok a ↦ next a ]

abbrev pub ◌>>◌ : {B : Type 0} → Result (Unit {0}) → Result B → Result B
step >> next = step >>= λ _. next

-- `if test { return err }`.
abbrev pub fail_if : Bool → Err → Result (Unit {0})
fail_if true e = err e
fail_if false e = ok tt

-- Inversion of a step that succeeded.
pub >>=-ok_inv :
    {A B : Type 0} {last : B} (step : Result A) (next : A → Result B)
    → (step >>= next) ≡ ok last
    → (first : A) × (step ≡ ok first) × (next first ≡ ok last)
>>=-ok_inv (err e) next h = cc
>>=-ok_inv (ok first) next h = (first, refl, h)

pub Result-cases : {A : Type 0} (r : Result A) → ((a : A) × (r ≡ ok a)) ⊎ ((e : Err) × (r ≡ err e))
Result-cases (ok a) = inl (a, refl)
Result-cases (err e) = inr (e, refl)
