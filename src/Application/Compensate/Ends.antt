-- ===== src/Application/Compensate/Ends.antt =====
-- internal/application/compensate.go: the worker tries no ticket for ever.
use order_hub.Prelude.{refl, sym, subst, arith, ℕ, zero, suc, ◌+◌, ◌*◌, ◌≤◌, List, [], ◌∷◌, length}
use order_hub.Prelude.Dict.{Dict}
use order_hub.Domain.Scene.{SceneConfig}
use order_hub.Port.{CompensationTicket}
use order_hub.Memory.{claim_compensations}
use order_hub.Memory.Tickets.{claim}
use order_hub.Memory.Claims.{claim-Takes}
use order_hub.Application.Action.{Outside, World, clock_now}
use order_hub.Application.Compensate.{max_compensation_attempts, compensate_tick}
use order_hub.Application.Compensate.Tried.{total_left, ids, Distinct, Fewer, work_each-Fewer}

total_left-bound :
    (ts : List CompensationTicket) → total_left ts ≤ suc max_compensation_attempts * length ts
total_left-bound [] = omega arith
total_left-bound (t ∷ ts) = ground (arith, total_left-bound ts)

module _ (out : Outside) (scenes : Dict SceneConfig) where
  -- How many tickets a round of the worker works on.
  abbrev pub tried_by : World → ℕ
  tried_by w = length (claim (out.time_reply w.calls clock_now) 50 w.repo.tickets).0

  compensate_tick-Fewer :
      (w : World)
      → Distinct (ids w.repo.tickets)
      → Fewer (tried_by w) w.repo.tickets (compensate_tick out scenes w).1.repo.tickets
  unfolding compensate_tick claim_compensations
  compensate_tick-Fewer w distinct =
      let at = out.time_reply w.calls clock_now in
      work_each-Fewer out scenes at (claim-Takes at 50 w.repo.tickets) [] 0 _ distinct refl

  -- Rounds of the worker, one after the other.
  abbrev pub after_rounds : ℕ → World → World
  after_rounds zero w = w
  after_rounds (suc n) w = after_rounds n (compensate_tick out scenes w).1

  abbrev pub tries : ℕ → World → ℕ
  tries zero w = 0
  tries (suc n) w = tried_by w + tries n (compensate_tick out scenes w).1

  tries-left :
      (n : ℕ) (w : World)
      → Distinct (ids w.repo.tickets)
      → tries n w + total_left (after_rounds n w).repo.tickets ≤ total_left w.repo.tickets
  tries-left zero w distinct = omega arith
  tries-left (suc n) w distinct =
      let (kept, fewer) = compensate_tick-Fewer w distinct in
      omega (
        arith,
        fewer,
        tries-left n (compensate_tick out scenes w).1 (subst Distinct (sym kept) distinct),
      )

  -- If the tickets of the store have different numbers, then in any number of rounds of the
  -- compensation worker, whatever the hubs and the clock answer, it works at most 21 times on each
  -- ticket on average: its tries, and those that the open tickets have left at the end, are together
  -- at most those that they had left in the beginning.
  pub tries_end :
      (n : ℕ) (w : World)
      → Distinct (ids w.repo.tickets)
      → (tries n w + total_left (after_rounds n w).repo.tickets ≤ total_left w.repo.tickets)
        × (tries n w ≤ 21 * length w.repo.tickets)
  tries_end n w distinct = (
    tries-left n w distinct,
    omega (arith, tries-left n w distinct, total_left-bound w.repo.tickets),
  )
