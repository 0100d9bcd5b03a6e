-- ===== src/Infra/Publishers.antt =====
-- internal/infra/outbox/publisher.go: where the outbox worker publishes an event. A delivery is what
-- has left the program; `post` answers a POST with a status or an error.
pub mod Tried
use order_hub.Prelude.{
  ℕ, String, ◌<>◌, ◌==◌, Bool, ◌||◌, Option, none, some, List, [], ◌∷◌, ◌++◌, is_empty, leb,
  if◌then◌else◌,
}
use order_hub.Prelude.GoText.{show}
use order_hub.Domain.Error.{Err, Result, ok, err}
use order_hub.Domain.Event.{Event}
use order_hub.Infra.Envelope.{plain}

pub data Delivery : Type 0 where
  logged : Event → Delivery
  posted : String → Event → Delivery

-- A publisher answers, and delivers.
abbrev pub Publisher : Type 0
Publisher = Event → Result (Unit {0}) × List Delivery

-- `LogPublisher`.
unfoldable pub log_publisher : Publisher
log_publisher ev = (ok tt, logged ev ∷ [])

-- What `HTTPPublisher` makes of the answer.
unfoldable pub webhook_result : Result ℕ → Result (Unit {0})
webhook_result (err e) = err e
webhook_result (ok status) =
    if leb 300 status then err (plain ("webhook http " <> show status)) else ok tt

-- The first error that there was, after one more answer.
abbrev pub first_of : Option Err → Result (Unit {0}) → Option Err
first_of (some e) r = some e
first_of none (err e) = some e
first_of none (ok _) = none

abbrev pub outcome_of : Option Err → Result (Unit {0})
outcome_of none = ok tt
outcome_of (some e) = err e

-- The loop of `Fanout`; a publisher may be nil.
unfoldable pub fan_out_from : Option Err → List (Option Publisher) → Publisher
fan_out_from first [] ev = (outcome_of first, [])
fan_out_from first (none ∷ pubs) ev = fan_out_from first pubs ev
fan_out_from first (some p ∷ pubs) ev =
    let (answer, delivered) = p ev in
    let (last, rest) = fan_out_from (first_of first answer) pubs ev in (last, delivered ++ rest)

-- `Fanout.Publish`.
unfoldable pub fan_out : List (Option Publisher) → Publisher
fan_out = fan_out_from none

module _ (post : String → Event → Result ℕ) where
  -- `HTTPPublisher`, with its URL.
  unfoldable pub http_publisher : String → Publisher
  http_publisher url ev =
      if url == "" then (ok tt, []) else (webhook_result (post url ev), posted url ev ∷ [])

  -- The publishers that `NewPublisher` collects.
  unfoldable pub publishers : String → Bool → List (Option Publisher)
  publishers url log_outbox =
      let hooks : List (Option Publisher) =
        if url == "" then [] else some (http_publisher url) ∷ [] in
      if log_outbox || is_empty hooks then hooks ++ some log_publisher ∷ [] else hooks

  -- `NewPublisher`: a single one stands for itself.
  unfoldable pub new_publisher : String → Bool → Publisher
  new_publisher url log_outbox = elim (publishers url log_outbox) [
    | some p ∷ [] ↦ p
    | pubs ↦ fan_out pubs
  ]
