-- ===== src/Domain/Status.antt =====
-- internal/domain/status.go and statemachine.go (the table of transitions).
use order_hub.Prelude.{
  String, Bool, true, false, Option, none, some, List, [], ◌∷◌, any, ◌==◌, if◌then◌else◌,
}

-- Go's `Status` is a string type; these are the ten values that the program makes.
pub data Status : Type 0 where
  pending_pay paid fulfilling completed cancelled closed refunding refunded partial_refunded
        compensating :
      Status

pub Status-discrete : Discrete Status
Status-discrete = hlevel

-- `Status.String`.
unfoldable pub to_string : Status → String
to_string pending_pay = "PENDING_PAY"
to_string paid = "PAID"
to_string fulfilling = "FULFILLING"
to_string completed = "COMPLETED"
to_string cancelled = "CANCELLED"
to_string closed = "CLOSED"
to_string refunding = "REFUNDING"
to_string refunded = "REFUNDED"
to_string partial_refunded = "PARTIAL_REFUNDED"
to_string compensating = "COMPENSATING"

-- `==` on statuses.
abbrev pub status_eq : Status → Status → Bool
status_eq pending_pay pending_pay = true
status_eq paid paid = true
status_eq fulfilling fulfilling = true
status_eq completed completed = true
status_eq cancelled cancelled = true
status_eq closed closed = true
status_eq refunding refunding = true
status_eq refunded refunded = true
status_eq partial_refunded partial_refunded = true
status_eq compensating compensating = true
status_eq _ _ = false

-- The constants of the `switch` of `ParseStatus`, in its order.
abbrev pub all_statuses : List Status
all_statuses =
    pending_pay ∷ paid ∷ fulfilling ∷ completed ∷ cancelled ∷ closed ∷ refunding ∷ refunded
    ∷ partial_refunded ∷ compensating ∷ []

-- The case that a text meets; the second result `false` of `ParseStatus` is `none`.
unfoldable pub find_status : String → List Status → Option Status
find_status raw [] = none
find_status raw (s ∷ ss) = if raw == to_string s then some s else find_status raw ss

unfoldable pub parse_status : String → Option Status
parse_status raw = find_status raw all_statuses

-- The table `transitions`; a status with no entry allows nothing.
unfoldable pub transitions : Status → List Status
transitions pending_pay = paid ∷ cancelled ∷ []
transitions paid =
    fulfilling ∷ completed ∷ refunding ∷ refunded ∷ partial_refunded ∷ compensating ∷ closed ∷ []
transitions fulfilling = completed ∷ refunding ∷ refunded ∷ partial_refunded ∷ closed ∷ []
transitions completed = refunding ∷ refunded ∷ partial_refunded ∷ closed ∷ []
transitions refunding = refunded ∷ partial_refunded ∷ completed ∷ fulfilling ∷ []
transitions partial_refunded = refunding ∷ refunded ∷ []
transitions compensating = paid ∷ completed ∷ fulfilling ∷ []
transitions _ = []

-- The loop of `CanTransition`.
unfoldable pub can_transition : Status → Status → Bool
unfolding transitions
can_transition from to = any (status_eq to) (transitions from)

unfoldable pub next_after_paid : Bool → Status
next_after_paid auto_complete = if auto_complete then completed else fulfilling
