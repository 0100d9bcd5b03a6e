-- ===== src/Application/Cancel.antt =====
-- internal/application/query_cancel.go: `CancelService`, `TimeoutWorker` and `QueryService`.
pub mod Released
use order_hub.Prelude.{
  ℕ, suc, String, ◌<>◌, ◌==◌, Bool, true, false, ◌&&◌, not, some, List, [], ◌∷◌, if◌then◌else◌,
}
use order_hub.Domain.Error.{
  Err, Result, ok, err, bare, order_not_found, status_not_allowed, already_paid,
}
use order_hub.Domain.Status.{pending_pay, paid, cancelled, status_eq}
use order_hub.Domain.Order.{Order, has_offer_reservation, has_ledger_freeze}
use order_hub.Domain.Event.{EventType, new_event, order_event_data}
use order_hub.Port.{Identity, TransitionCmd, command, new_ticket}
use order_hub.Memory
use order_hub.Application.Action.{
  Outside, Action, pure, raise, attempt, ignore, reads, ◌>>=◌, ◌>>◌, raise_if, when, now, fresh_id,
  call_unit, store_transition, store_compensation, offer_release, ledger_release, fulfill_release,
  pay_close_intent, new_event_id,
}
use order_hub.Application.Payment.{is_settled, is_version_conflict}

-- `QueryService.Get`.
unfoldable pub get : Identity → String → Action Order
get ident order_id = do
  o ← reads (Memory.find_by_id ident.tenant_id order_id)
  raise_if (not (o.buyer_user_id == ident.user_id)) (bare order_not_found)
  pure o

module _ (out : Outside) where
  -- A call that undoes something; its failure leaves a ticket.
  unfoldable pub undo : Action (Unit {0}) → String → String → String → String → Action (Unit {0})
  undo call kind tenant_id ref payload = do
    done ← attempt call
    elim done [
      | ok _ ↦ pure tt
      | err _ ↦ ignore (store_compensation out (new_ticket kind tenant_id ref payload))
    ]

  -- What `cancel` gives back once the order is cancelled.
  unfoldable pub release_all : Order → Action (Unit {0})
  release_all o = do
    when (has_offer_reservation o) (
        undo
          (call_unit out (
            offer_release o.tenant_id o.promotion.reservation_id o.order_id
              ("order:" <> o.order_id <> ":release")))
          "offer_release" o.tenant_id o.promotion.reservation_id o.order_id)
    when (has_ledger_freeze o) (
        undo (call_unit out (ledger_release o.ledger.freeze_id ("order:release:" <> o.order_id)))
          "ledger_release" o.tenant_id o.ledger.freeze_id o.order_id)
    undo (call_unit out (fulfill_release o.scene o)) "fulfill_release" o.tenant_id o.order_id
        o.scene
    when (not (o.payment.payment_intent_id == ""))
        (ignore (call_unit out (pay_close_intent o.payment.payment_intent_id)))

  unfoldable pub cancel_cmd : ℕ → String → String → Order → TransitionCmd
  cancel_cmd at event_id trace_id o = record (command o (pending_pay ∷ []) cancelled) {
    cancelled_at = some at;
    event =
        some (new_event event_id EventType.cancelled o.tenant_id trace_id at (order_event_data o));
  }

  -- `cancel` when its transition was refused with `e`.
  unfoldable pub cancel_refused : Order → Err → Action Order
  cancel_refused o e = if not (is_version_conflict e) then raise e else do
    found ← attempt (reads (Memory.find_by_id o.tenant_id o.order_id))
    elim found [
      | err _ ↦ raise e
      | ok cur ↦
          if status_eq cur.status paid
          then raise (bare already_paid)
          else if status_eq cur.status cancelled
          then pure cur
          else raise e
    ]

  -- `cancel` after its transition.
  unfoldable pub after_cancel : Order → Result Order → Action Order
  after_cancel o (err e) = cancel_refused o e
  after_cancel o (ok updated) = release_all updated >> pure updated

  unfoldable pub cancel_order : Order → String → Action Order
  cancel_order o trace_id =
      if not (status_eq o.status pending_pay)
      then (if is_settled o.status
          then raise (bare already_paid)
          else raise (bare status_not_allowed))
      else do
        at ← now out
        id ← fresh_id out new_event_id
        result ← attempt (store_transition out (cancel_cmd at id trace_id o))
        after_cancel o result

  -- `CancelService.Cancel`.
  unfoldable pub cancel : Identity → String → Action Order
  cancel ident order_id = do
    o ← reads (Memory.find_by_id ident.tenant_id order_id)
    raise_if (not (ident.user_id == "") && not (o.buyer_user_id == ident.user_id))
        (bare order_not_found)
    cancel_order o ident.trace_id

  -- The errors that `CancelExpired` passes over.
  abbrev pub is_moved_on : Err → Bool
  is_moved_on e = elim e.kind [ already_paid ↦ true | status_not_allowed ↦ true | _ ↦ false ]

  unfoldable pub cancel_expired : Order → Action (Unit {0})
  cancel_expired o = do
    result ← attempt (cancel_order o "timeout-worker")
    elim result [ ok _ ↦ pure tt | err e ↦ if is_moved_on e then pure tt else raise e ]

  -- The loop of `TimeoutWorker.Tick`, with the count so far.
  unfoldable pub cancel_each : ℕ → List Order → Action ℕ
  cancel_each n [] = pure n
  cancel_each n (o ∷ rest) = do
    done ← attempt (cancel_expired o)
    cancel_each (elim done [ ok _ ↦ suc n | err _ ↦ n ]) rest

  -- `TimeoutWorker.Tick`, in batches of 200.
  unfoldable pub timeout_tick : Action ℕ
  timeout_tick = do
    at ← now out
    orders ← reads (λ r. ok (Memory.list_expired_pending at 200 r))
    cancel_each 0 orders
