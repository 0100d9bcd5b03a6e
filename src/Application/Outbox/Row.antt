-- ===== src/Application/Outbox/Row.antt =====
-- internal/application/payment_refund.go: one round of the loop of `OutboxWorker.Tick`.
use order_hub.Prelude.{
  ◌≡◌, ◌≢◌, refl, sym, ap, true, false, List, [], ◌∷◌, All, text-differs, String, ◌==◌, eq_refl,
  Bool-cases, inl, inr,
}
use order_hub.Domain.Error.{Err, ok, err}
use order_hub.Port.{OutboxRow}
use order_hub.Memory.{without_event, mark_event_published}
use order_hub.Application.Action.{Outside, World, publish}
use order_hub.Application.Outbox.{publish_row}

-- Another event than `e`.
abbrev pub IsOther : OutboxRow → OutboxRow → Type 0
IsOther e row = e.event_id ≢ row.event_id

-- Every event has an id of its own.
abbrev pub Distinct : List OutboxRow → Type 0
Distinct [] = Unit
Distinct (e ∷ es) = All (IsOther e) es × Distinct es

pub All-without_event :
    (P : OutboxRow → Type 0) (id : String) (es : List OutboxRow)
    → All P es
    → All P (without_event id es)
unfolding without_event
All-without_event P id [] h = h
All-without_event P id (e ∷ es) h = elim (Bool-cases (e.event_id == id)) [
  | inl same ↦ rw (same, without_event) (All-without_event P id es h.1)
  | inr other ↦ rw (other, without_event) (h.0, All-without_event P id es h.1)
]

pub without_event-others :
    (e : OutboxRow) (es : List OutboxRow) → All (IsOther e) es → without_event e.event_id es ≡ es
unfolding without_event
without_event-others e [] h = refl
without_event-others e (row ∷ es) h =
    rw (text-differs λ same. h.0 (sym same), without_event)
      (ap (λ xs. row ∷ xs) (without_event-others e es h.1))

-- Marking the first event drops it alone.
pub without_event-first :
    (e : OutboxRow) (es : List OutboxRow)
    → All (IsOther e) es
    → without_event e.event_id (e ∷ es) ≡ es
unfolding without_event
without_event-first e es h = rw (eq_refl e.event_id, without_event) (without_event-others e es h)

-- The world after an event was published and marked, and after a publisher's error.
abbrev pub published : OutboxRow → World → World
published row w = record {
  repo = mark_event_published row.event_id w.repo;
  calls = publish row.payload ∷ w.calls;
}

abbrev pub tried : OutboxRow → World → World
tried row w = record w { calls = publish row.payload ∷ w.calls }

module _ (out : Outside) (row : OutboxRow) (w : World) where
  pub publish_row-err :
      {e : Err}
      → out.unit_reply w.calls (publish row.payload) ≡ err e
      → publish_row out row w ≡ (ok false, tried row w)
  unfolding publish_row
  publish_row-err refused = rw (refused, publish_row) refl

  pub publish_row-ok :
      {u : Unit {0}}
      → out.unit_reply w.calls (publish row.payload) ≡ ok u
      → publish_row out row w ≡ (ok true, published row w)
  unfolding publish_row
  publish_row-ok sent = rw (sent, publish_row) refl
