-- ===== src/Application/Outbox/Each.antt =====
-- internal/application/payment_refund.go: `OutboxWorker.Tick` on 200 rows at most.
use order_hub.Prelude.{
  text-differs, ℕ, suc, ◌≤◌, ◌≡◌, refl, sym, ap, subst, ◌∙◌, true, false, inl, inr, List, [], ◌∷◌,
  ◌++◌, All, length, append-snoc, take-all, ltb-false,
}
use order_hub.Domain.Error.{Err, ok, err, Result-cases}
use order_hub.Port.{OutboxRow}
use order_hub.Memory.{without_event, mark_event_published, list_unpublished_events}
use order_hub.Application.Action.{Outside, World, Call, publish, bind-ok}
use order_hub.Application.Outbox.Row.{
  IsOther, Distinct, without_event-first, published, tried, publish_row-ok, publish_row-err,
}
use order_hub.Application.Outbox.{publish_row, publish_each, outbox_tick}

module _ (out : Outside) where
  -- The events that the publisher refuses when it gets them one after the other, `calls` before them.
  abbrev pub refused : List Call → List OutboxRow → List OutboxRow
  refused calls [] = []
  refused calls (row ∷ rows) = elim (out.unit_reply calls (publish row.payload)) [
    | ok _ ↦ refused (publish row.payload ∷ calls) rows
    | err _ ↦ row ∷ refused (publish row.payload ∷ calls) rows
  ]

-- The calls once each event was handed to the publisher, in order.
abbrev pub handed : List Call → List OutboxRow → List Call
handed calls [] = calls
handed calls (row ∷ rows) = handed (publish row.payload ∷ calls) rows

All-middle :
    (P : OutboxRow → Type 0) (kept : List OutboxRow) (row : OutboxRow) (rest : List OutboxRow)
    → All P (kept ++ row ∷ rest)
    → P row × All P (kept ++ rest)
All-middle P [] row rest h = h
All-middle P (e ∷ kept) row rest h = let t = All-middle P kept row rest h.1 in (t.0, (h.0, t.1))

Distinct-middle :
    (kept : List OutboxRow) (row : OutboxRow) (rest : List OutboxRow)
    → Distinct (kept ++ row ∷ rest)
    → Distinct (kept ++ rest)
Distinct-middle [] row rest h = h.1
Distinct-middle (e ∷ kept) row rest h =
    ((All-middle (IsOther e) kept row rest h.0).1, Distinct-middle kept row rest h.1)

-- Marking one event drops it alone.
without_event-middle :
    (kept : List OutboxRow) (row : OutboxRow) (rest : List OutboxRow)
    → Distinct (kept ++ row ∷ rest)
    → without_event row.event_id (kept ++ row ∷ rest) ≡ kept ++ rest
unfolding without_event
without_event-middle [] row rest h = without_event-first row rest h.0
without_event-middle (e ∷ kept) row rest h =
    rw (text-differs (All-middle (IsOther e) kept row rest h.0).0, without_event)
      (ap (λ xs. e ∷ xs) (without_event-middle kept row rest h.1))

module _ (out : Outside) where
  module _ (row : OutboxRow) (rest : List OutboxRow) (n : ℕ) (w : World) where
    each-ok :
        out.unit_reply w.calls (publish row.payload) ≡ ok tt
        → publish_each out n (row ∷ rest) w ≡ publish_each out (suc n) rest (published row w)
    unfolding publish_each
    each-ok sent =
        bind-ok (publish_row out row)
          (λ done. publish_each out (elim done [ true ↦ suc n | false ↦ n ]) rest) w
          (publish_row-ok out row w sent)

    each-err :
        {e : Err}
        → out.unit_reply w.calls (publish row.payload) ≡ err e
        → publish_each out n (row ∷ rest) w ≡ publish_each out n rest (tried row w)
    unfolding publish_each
    each-err declined =
        bind-ok (publish_row out row)
          (λ done. publish_each out (elim done [ true ↦ suc n | false ↦ n ]) rest) w
          (publish_row-err out row w declined)

  publish_each-refused :
      (rest : List OutboxRow) (n : ℕ) (kept : List OutboxRow) (w : World)
      → w.repo.events ≡ kept ++ rest
      → Distinct (kept ++ rest)
      → ((publish_each out n rest w).1.repo.events ≡ kept ++ refused out w.calls rest)
        × ((publish_each out n rest w).1.calls ≡ handed w.calls rest)
  unfolding publish_each mark_event_published
  publish_each-refused [] n kept w h once = (h, refl)
  publish_each-refused (row ∷ rest) n kept w h once =
      elim (Result-cases (out.unit_reply w.calls (publish row.payload))) [
        | inl (u, sent) ↦
            rw (each-ok row rest n w sent, sent, refused)
              (publish_each-refused rest (suc n) kept (published row w)
                (ap (without_event row.event_id) h ∙ without_event-middle kept row rest once)
                (Distinct-middle kept row rest once))
        | inr (e, declined) ↦
            let eq = append-snoc kept row rest in
            let t =
              publish_each-refused rest n (kept ++ row ∷ []) (tried row w) (h ∙ eq)
                (subst Distinct eq once) in
            rw (each-err row rest n w declined, declined, refused)
              (t.0 ∙ sym (append-snoc kept row _), t.1)
      ]

  -- If at most 200 events are not published yet, and they have different ids, then a round of the
  -- outbox worker hands each of them to the publisher once and in order, and exactly those that the
  -- publisher refuses stay in the store, in the same order.
  pub outbox_tick-refused :
      (w : World)
      → length w.repo.events ≤ 200
      → Distinct w.repo.events
      → ((outbox_tick out w).1.repo.events ≡ refused out w.calls w.repo.events)
        × ((outbox_tick out w).1.calls ≡ handed w.calls w.repo.events)
  unfolding outbox_tick list_unpublished_events
  outbox_tick-refused w short once =
      rw
        (
          ltb-false 200 (length w.repo.events) short,
          take-all 200 w.repo.events short,
          outbox_tick,
          list_unpublished_events,
        )
        (publish_each-refused w.repo.events 0 [] w refl once)
