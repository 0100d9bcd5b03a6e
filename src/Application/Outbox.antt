-- ===== src/Application/Outbox.antt =====
-- internal/application/payment_refund.go: `OutboxWorker`, over the store in memory.
-- `ListUnpublishedEvents` returns a copy of the store's slice, or, past its limit, the slice itself
-- cut short: then the rows that the worker walks over share the array that `MarkEventPublished`
-- compacts in place, and a row is read when its turn comes.
pub mod Each
pub mod Shared
pub mod Row
use order_hub.Prelude.{
  ℕ, zero, suc, Bool, true, false, Option, none, some, List, [], ◌∷◌, ◌++◌, ltb, length, take, drop,
  get_elem?,
}
use order_hub.Domain.Error.{Result, ok, err}
use order_hub.Port.{OutboxRow}
use order_hub.Memory
use order_hub.Application.Action.{
  Outside, World, Action, pure, attempt, reads, on_repo, call_unit, publish, ◌>>=◌,
}

-- The array after `filtered = append(filtered, e)`: the rows that are kept lie in front, and behind
-- them the array is as it was.
unfoldable pub overlay : List OutboxRow → List OutboxRow → List OutboxRow
overlay kept array = kept ++ drop (length kept) array

-- What follows in the round, with the next rounds.
unfoldable pub after_row : (List OutboxRow → ℕ → Action ℕ) → List OutboxRow → ℕ → Bool → Action ℕ
after_row next array n done = do
  kept ← reads λ r. ok r.events
  next (elim done [ true ↦ overlay kept array | false ↦ array ])
      (elim done [ true ↦ suc n | false ↦ n ])

module _ (out : Outside) where
  -- One round of the loop of `Tick`: whether the row was published and marked.
  unfoldable pub publish_row : OutboxRow → Action Bool
  publish_row row = do
    sent ← attempt (call_unit out (publish row.payload))
    elim sent [
      | err _ ↦ pure false
      | ok _ ↦ on_repo λ r. (ok true, Memory.mark_event_published row.event_id r)
    ]

  -- The loop over a copy of the rows.
  unfoldable pub publish_each : ℕ → List OutboxRow → Action ℕ
  publish_each n [] = pure n
  publish_each n (row ∷ rest) = do
    done ← publish_row row
    publish_each (elim done [ true ↦ suc n | false ↦ n ]) rest

  -- The loop over the shared array, with `rounds` more rows from the index `i` on.
  unfoldable pub publish_shared : ℕ → ℕ → List OutboxRow → ℕ → Action ℕ
  publish_shared zero i array n = pure n
  publish_shared (suc rounds) i array n = elim (get_elem? array i) [
    | none ↦ pure n
    | some row ↦ publish_row row >>= after_row (publish_shared rounds (suc i)) array n
  ]

  -- `OutboxWorker.Tick`, on 200 rows at most.
  unfoldable pub outbox_tick : Action ℕ
  outbox_tick = do
    events ← reads λ r. ok r.events
    rows ← reads λ r. ok (Memory.list_unpublished_events 200 r)
    elim (ltb 200 (length events)) [
      | true ↦ publish_shared 200 0 events 0
      | false ↦ publish_each 0 rows
    ]
