-- ===== src/Application/Outbox/Shared.antt =====
-- internal/application/payment_refund.go: `OutboxWorker.Tick` on more rows than its limit.
use order_hub.Prelude.{
  text-differs, ℕ, zero, suc, ◌<◌, ◌≡◌, refl, sym, subst, none, some, List, ◌∷◌, ◌++◌, inl, inr,
  Option-cases, All, All-append, All-drop, ltb-true, All-get_elem?, length, drop, get_elem?,
}
use order_hub.Domain.Error.{Err, Result, ok, err, Result-cases}
use order_hub.Port.{OutboxRow}
use order_hub.Memory.{without_event, mark_event_published}
use order_hub.Application.Action.{Outside, World, publish, bind-ok}
use order_hub.Application.Outbox.Row.{
  IsOther, All-without_event, without_event-first, published, tried, publish_row-err,
  publish_row-ok,
}
use order_hub.Application.Outbox.{overlay, after_row, publish_row, publish_shared, outbox_tick}

module _ (out : Outside) (rounds i : ℕ) (array : List OutboxRow) (n : ℕ) (w : World) where
  shared-none : get_elem? array i ≡ none → publish_shared out (suc rounds) i array n w ≡ (ok n, w)
  unfolding publish_shared
  shared-none h = rw (h, publish_shared) refl

  shared-err :
      {row : OutboxRow} {e : Err}
      → get_elem? array i ≡ some row
      → out.unit_reply w.calls (publish row.payload) ≡ err e
      → publish_shared out (suc rounds) i array n w
        ≡ publish_shared out rounds (suc i) array n (tried row w)
  unfolding publish_shared after_row
  shared-err {row} h refused =
      rw (h, publish_shared)
        (bind-ok (publish_row out row) (after_row (publish_shared out rounds (suc i)) array n) w
          (publish_row-err out row w refused))

  shared-ok :
      {row : OutboxRow} {u : Unit {0}}
      → get_elem? array i ≡ some row
      → out.unit_reply w.calls (publish row.payload) ≡ ok u
      → publish_shared out (suc rounds) i array n w
        ≡ publish_shared out rounds
            (suc i)
            (overlay (published row w).repo.events array)
            (suc n)
            (published row w)
  unfolding publish_shared after_row
  shared-ok {row} h sent =
      rw (h, publish_shared)
        (bind-ok (publish_row out row) (after_row (publish_shared out rounds (suc i)) array n) w
          (publish_row-ok out row w sent))

module _ (e : OutboxRow) where
  -- The event `e` is the store's first, and lies in front of the array; no row but the first is it.
  record Waits (array : List OutboxRow) (w : World) : Type 0 where
    rest : List OutboxRow
    others : List OutboxRow
    in_array : array ≡ e ∷ rest
    in_store : w.repo.events ≡ e ∷ others
    rest_other : All (IsOther e) rest
    others_other : All (IsOther e) others

  published-Waits :
      (row : OutboxRow) (array : List OutboxRow) (w : World)
      → IsOther e row
      → Waits array w
      → Waits (overlay (published row w).repo.events array) (published row w)
  unfolding mark_event_published overlay without_event
  published-Waits row array w other h =
      rw (h.in_store, h.in_array, text-differs other, overlay, mark_event_published, without_event)
        record {
          rest =
              without_event row.event_id h.others
              ++ drop (length (without_event row.event_id h.others)) h.rest;
          others = without_event row.event_id h.others;
          in_array = refl;
          in_store = refl;
          rest_other =
              All-append (IsOther e) (without_event row.event_id h.others) _
                (All-without_event (IsOther e) row.event_id h.others h.others_other)
                (All-drop (IsOther e) _ h.rest h.rest_other);
          others_other = All-without_event (IsOther e) row.event_id h.others h.others_other;
        }

  -- A row behind the first is another one.
  behind_first :
      (array : List OutboxRow) (w : World) (i : ℕ) {row : OutboxRow}
      → Waits array w
      → get_elem? array (suc i) ≡ some row
      → IsOther e row
  behind_first array w i {row} h found =
      All-get_elem? (IsOther e) h.rest i h.rest_other
        (subst (λ a. get_elem? a (suc i) ≡ some row) h.in_array found)

  tried-Waits :
      (row : OutboxRow) (array : List OutboxRow) (w : World)
      → Waits array w
      → Waits array (tried row w)
  tried-Waits row array w h = record {
    rest = h.rest;
    others = h.others;
    in_array = h.in_array;
    in_store = h.in_store;
    rest_other = h.rest_other;
    others_other = h.others_other;
  }

  publish_shared-Waits :
      (out : Outside) (rounds i : ℕ) (array : List OutboxRow) (n : ℕ) (w : World)
      → Waits array w
      → (others : List OutboxRow) × ((publish_shared out rounds (suc i) array n w).1.repo.events
          ≡ e ∷ others)
  unfolding publish_shared
  publish_shared-Waits out zero i array n w h = (h.others, h.in_store)
  publish_shared-Waits out (suc rounds) i array n w h =
      elim (Option-cases (get_elem? array (suc i))) [
        | inl past ↦ rw (shared-none out rounds (suc i) array n w past) (h.others, h.in_store)
        | inr (row, found) ↦ elim (Result-cases (out.unit_reply w.calls (publish row.payload))) [
          | inr (e_, refused) ↦ rw (shared-err out rounds (suc i) array n w found refused) (
              publish_shared-Waits out rounds (suc i) array n (tried row w)
                (tried-Waits row array w h))
          | inl (u, sent) ↦ rw (shared-ok out rounds (suc i) array n w found sent) (
              publish_shared-Waits out rounds (suc i) _ (suc n) (published row w)
                (published-Waits row array w (behind_first array w i h found) h))
        ]
      ]

-- The first round of the loop publishes the first event and drops it from the store, which moves the
-- second event to the front of the array that the loop reads.
start-Waits :
    (first second third : OutboxRow) (rest : List OutboxRow) (w : World)
    → w.repo.events ≡ first ∷ second ∷ third ∷ rest
    → All (IsOther first) (second ∷ third ∷ rest)
    → All (IsOther second) (third ∷ rest)
    → Waits second (overlay (published first w).repo.events w.repo.events) (published first w)
unfolding mark_event_published overlay
start-Waits first second third rest w h other others =
    rw (h, without_event-first first (second ∷ third ∷ rest) other, overlay, mark_event_published)
      record {
        rest = third ∷ rest ++ drop (length rest) (third ∷ rest);
        others = third ∷ rest;
        in_array = refl;
        in_store = refl;
        rest_other =
            All-append (IsOther second) (third ∷ rest) _ others
              (All-drop (IsOther second) (length rest) (third ∷ rest) others);
        others_other = others;
      }

-- If more than 200 events are not published yet, the first two of which have ids that no other event
-- has, and the publisher takes the first one, then a round of the outbox worker skips the second one:
-- it is the store's first event when the round is over, whatever the publisher answers for the others.
pub outbox_tick-skips :
    (out : Outside) (first second third : OutboxRow) (rest : List OutboxRow) (w : World)
    → w.repo.events ≡ first ∷ second ∷ third ∷ rest
    → All (IsOther first) (second ∷ third ∷ rest)
    → All (IsOther second) (third ∷ rest)
    → 200 < length w.repo.events
    → out.unit_reply w.calls (publish first.payload) ≡ ok tt
    → (others : List OutboxRow) × ((outbox_tick out w).1.repo.events ≡ second ∷ others)
unfolding outbox_tick
outbox_tick-skips out first second third rest w h other others long sent =
    rw (ltb-true 200 (length w.repo.events) long, outbox_tick)
      (subst
        (λ (x : Result ℕ × World). (later : List OutboxRow) × (x.1.repo.events ≡ second ∷ later))
        (sym (shared-ok out 199 0 w.repo.events 0 w {row = first} (rw h refl) sent))
        (publish_shared-Waits second out 199 0 _ 1 (published first w)
          (start-Waits first second third rest w h other others)))
