-- ===== src/Application/Compensate.antt =====
-- internal/application/compensate.go: `CompensateWorker`.
pub mod Backoff
pub mod Handled
pub mod Tried
pub mod Ends
use order_hub.Prelude.{
  ℕ, suc, ◌+◌, ◌*◌, ◌-◌, ◌^◌, String, ◌<>◌, ◌==◌, Bool, true, false, Option, none, some, List, [],
  ◌∷◌, ltb, leb, if◌then◌else◌,
}
use order_hub.Prelude.Int.{pos}
use order_hub.Prelude.Dict.{Dict}
use order_hub.Domain.Error.{Err, Result, ok, err}
use order_hub.Domain.Scene.{SceneConfig, second}
use order_hub.Port.{CompensationTicket}
use order_hub.Memory
use order_hub.Application.Action.{
  Outside, World, Action, pure, raise, attempt, ignore, reads, on_repo, ◌>>=◌, ◌>>◌, now, call_unit,
  offer_release, offer_reverse, ledger_release, fulfill_release,
}
use order_hub.Application.Payment.{retry_after_paid}

abbrev pub max_compensation_attempts : ℕ
max_compensation_attempts = 20

-- The wait before a retry, as a duration.
unfoldable pub backoff : ℕ → ℕ
backoff attempts =
    let n = if ltb attempts 1 then 1 else attempts in (if ltb n 7 then 2 ^ (n - 1) else 60) * second

module _ (out : Outside) where
  unfoldable pub handle : Dict SceneConfig → CompensationTicket → Action (Unit {0})
  handle scenes t =
      if t.kind == "after_paid"
      then retry_after_paid out scenes t.tenant_id t.ref
      else if t.kind == "offer_release"
      then call_unit out
          (offer_release t.tenant_id t.ref t.payload ("order:" <> t.payload <> ":release"))
      else if t.kind == "ledger_release"
      then call_unit out (ledger_release t.ref ("order:release:" <> t.payload))
      else if t.kind == "fulfill_release"
      then (reads (Memory.find_by_id t.tenant_id t.ref) >>= λ o.
          call_unit out (fulfill_release o.scene o))
      else if t.kind == "offer_reverse"
      then call_unit out
          (offer_reverse t.tenant_id t.payload t.ref (pos 0) ("order:" <> t.ref <> ":reverse"))
      else pure tt

  -- What `Tick` does with a ticket that failed with `e`.
  unfoldable pub postpone : CompensationTicket → Err → Action (Unit {0})
  postpone t e =
      if leb max_compensation_attempts t.attempts
      then ignore (on_repo (Memory.update_compensation t.id "failed" e.text none))
      else do
        at ← now out
        ignore (
            on_repo
              (Memory.update_compensation t.id "pending" e.text (some (at + backoff t.attempts))))

  -- One round of the loop of `Tick`: whether the ticket was done.
  unfoldable pub work_on : Dict SceneConfig → CompensationTicket → Action Bool
  work_on scenes t = do
    handled ← attempt (handle scenes t)
    elim handled [
      | err e ↦ do postpone t e; pure false
      | ok _ ↦ do ignore (on_repo (Memory.update_compensation t.id "done" "" none)); pure true
    ]

  unfoldable pub work_each : Dict SceneConfig → ℕ → List CompensationTicket → Action ℕ
  work_each scenes n [] = pure n
  work_each scenes n (t ∷ rest) = do
    done ← work_on scenes t
    work_each scenes (if done then suc n else n) rest

  -- `CompensateWorker.Tick`, on 50 tickets at most.
  unfoldable pub compensate_tick : Dict SceneConfig → Action ℕ
  compensate_tick scenes = do
    at ← now out
    tickets ← on_repo λ r. (let (taken, r') = Memory.claim_compensations at 50 r in (ok taken, r'))
    work_each scenes 0 tickets

  -- `CompensateWorker.Retry`.
  unfoldable pub retry : Dict SceneConfig → ℕ → Action (Unit {0})
  retry scenes id = do
    t ← reads (Memory.find_compensation id)
    handled ← attempt (handle scenes t)
    elim handled [
      | ok _ ↦ on_repo (Memory.update_compensation t.id "done" "" none)
      | err e ↦ do
        at ← now out
        ignore (
            on_repo (
              Memory.update_compensation t.id "pending" e.text
                (some (at + backoff (suc t.attempts)))))
        raise e
    ]
