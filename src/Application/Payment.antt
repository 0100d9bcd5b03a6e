-- ===== src/Application/Payment.antt =====
-- internal/application/payment_refund.go: `PaymentService`.
use order_hub.Prelude.{
  ℕ, String, ◌<>◌, ◌==◌, Bool, true, false, ◌&&◌, ◌||◌, not, none, some, [], ◌∷◌, if◌then◌else◌,
}
use order_hub.Prelude.Int.{ℤ, pos, ltb_ℤ, int_eq}
use order_hub.Prelude.Dict.{Dict, lookup}
use order_hub.Domain.Error.{
  Err, ok, err, bare, wrapped, invalid_argument, amount_invariant, order_not_found,
  status_not_allowed, version_conflict,
}
use order_hub.Domain.Status.{
  Status, pending_pay, paid, fulfilling, completed, compensating, status_eq, next_after_paid,
}
use order_hub.Domain.Order.{Order, needs_channel_pay, has_offer_reservation, has_ledger_freeze}
use order_hub.Domain.Scene.{SceneConfig, zero_scene}
use order_hub.Domain.Event.{EventType, new_event, order_event_data}
use order_hub.Port.{Identity, PaymentIntent, TransitionCmd, command, new_ticket}
use order_hub.Memory
use order_hub.Application.Action.{
  Outside, Action, pure, raise, attempt, ignore, reads, on_repo, ask, ◌>>=◌, ◌>>◌, raise_if, when,
  now, fresh_id, call_unit, call_text, store_transition, store_compensation, offer_commit,
  ledger_capture, fulfill_commit, pay_create_intent, new_event_id,
}

pub record PaymentCallback : Type 0 where
  pub order_id : String
  pub tenant_id : String
  pub payment_intent_id : String
  pub success : Bool
  pub paid_amount : ℤ
  pub channel : String
  pub trace_id : String

-- The statuses of an order whose payment has been taken in.
abbrev pub is_settled : Status → Bool
is_settled s = status_eq s paid || status_eq s fulfilling || status_eq s completed

-- `errors.Is(err, ErrVersionConflict)`.
abbrev pub is_version_conflict : Err → Bool
is_version_conflict e = elim e.kind [ version_conflict ↦ true | _ ↦ false ]

-- `s.scenes[name]`, with the zero value for a missing key.
abbrev pub scene_of : Dict SceneConfig → String → SceneConfig
scene_of scenes name = elim (lookup name scenes) [ none ↦ zero_scene | some s ↦ s ]

module _ (out : Outside) where
  -- The first part of `afterPaid`: the offer is redeemed, and the order returned with it.
  unfoldable pub commit_offer : Order → Action Order
  commit_offer o = if not (has_offer_reservation o) then pure o else do
    rid ← call_text out (
        offer_commit o.tenant_id o.promotion.reservation_id o.order_id
          ("order:" <> o.order_id <> ":commit"))
    if rid == "" then pure o else do
      ignore (on_repo (Memory.update_redemption o.tenant_id o.order_id rid))
      pure (record o { promotion = record (o.promotion) { redemption_id = rid } })

  -- The transition that `afterPaid` ends with.
  unfoldable pub settle_cmd : Status → ℕ → String → Order → TransitionCmd
  settle_cmd next at event_id o =
      let done = status_eq next completed in
      record (command o (paid ∷ compensating ∷ []) next) {
        completed_at = if done then some at else none;
        event = some (
            new_event event_id (if done then EventType.completed else EventType.fulfilled)
              o.tenant_id "" at (order_event_data o));
      }

  unfoldable pub after_paid : Dict SceneConfig → Order → Action (Unit {0})
  after_paid scenes o₀ = do
    let scene = scene_of scenes o₀.scene
    o ← commit_offer o₀
    when (has_ledger_freeze o)
        (call_unit out (ledger_capture o.ledger.freeze_id ("order:capture:" <> o.order_id)))
    call_unit out (fulfill_commit o.scene o)
    let next = next_after_paid scene.auto_complete_on_paid
    at ← now out
    id ← fresh_id out new_event_id
    updated ← store_transition out (settle_cmd next at id o)
    pure tt

  -- After a failure in `afterPaid`: a ticket, and the order is set aside.
  unfoldable pub set_aside : Order → Err → Action (Unit {0})
  set_aside o e = do
    ignore (store_compensation out (new_ticket "after_paid" o.tenant_id o.order_id e.text))
    ignore (store_transition out (command o (paid ∷ []) compensating))

  -- The transition of `onPaid`.
  unfoldable pub paid_cmd : ℤ → ℕ → String → String → Order → TransitionCmd
  paid_cmd amount at event_id trace_id o = record (command o (pending_pay ∷ []) paid) {
    paid_amount = some amount;
    paid_at = some at;
    event = some (new_event event_id EventType.paid o.tenant_id trace_id at (order_event_data o));
  }

  -- `onPaid` when its transition was refused with `e`: another payment may have come first.
  unfoldable pub paid_refused : Order → Err → Action Order
  paid_refused o e = if not (is_version_conflict e) then raise e else do
    found ← attempt (reads (Memory.find_by_id o.tenant_id o.order_id))
    elim found [ err _ ↦ raise e | ok cur ↦ if is_settled cur.status then pure cur else raise e ]

  -- `onPaid` once its transition is made.
  unfoldable pub paid_taken : Dict SceneConfig → Order → Action Order
  paid_taken scenes updated = do
    after ← attempt (after_paid scenes updated)
    elim after [ ok _ ↦ pure tt | err e ↦ set_aside updated e ]
    reads (Memory.find_by_id updated.tenant_id updated.order_id)

  unfoldable pub on_paid : Dict SceneConfig → Order → ℤ → String → Action Order
  on_paid scenes o amount trace_id =
      if not (status_eq o.status pending_pay)
      then (if is_settled o.status then pure o else raise (bare status_not_allowed))
      else do
        at ← now out
        id ← fresh_id out new_event_id
        result ← attempt (store_transition out (paid_cmd amount at id trace_id o))
        elim result [ err e ↦ paid_refused o e | ok updated ↦ paid_taken scenes updated ]

  unfoldable pub recreate_intent : Identity → String → Action PaymentIntent
  recreate_intent ident order_id = do
    o ← reads (Memory.find_by_id ident.tenant_id order_id)
    raise_if (not (o.buyer_user_id == ident.user_id)) (bare order_not_found)
    raise_if (not (status_eq o.status pending_pay)) (bare status_not_allowed)
    raise_if (not (needs_channel_pay o)) (wrapped invalid_argument "no channel pay")
    intent ← ask out.intent_reply (pay_create_intent o)
    ignore (
        on_repo
          (Memory.update_payment_intent o.tenant_id o.order_id intent.intent_id intent.channel))
    pure intent

  unfoldable pub confirm_ledger : Dict SceneConfig → Identity → String → Action Order
  confirm_ledger scenes ident order_id = do
    o ← reads (Memory.find_by_id ident.tenant_id order_id)
    raise_if (not (ident.user_id == "") && not (o.buyer_user_id == ident.user_id))
        (bare order_not_found)
    raise_if (needs_channel_pay o) (wrapped status_not_allowed "channel pay required")
    on_paid scenes o o.amounts.payable ident.trace_id

  unfoldable pub on_payment_callback : Dict SceneConfig → PaymentCallback → Action Order
  on_payment_callback scenes cb = do
    raise_if (cb.order_id == "") (wrapped invalid_argument "order_id")
    o ← reads (Memory.find_by_id cb.tenant_id cb.order_id)
    if not cb.success then pure o else do
      raise_if
          (ltb_ℤ (pos 0) cb.paid_amount
            && not (int_eq cb.paid_amount o.amounts.channel_pay)
            && ltb_ℤ (pos 0) o.amounts.channel_pay)
          (wrapped amount_invariant "paid amount mismatch")
      raise_if
          (not (o.payment.payment_intent_id == "")
            && not (cb.payment_intent_id == "")
            && not (o.payment.payment_intent_id == cb.payment_intent_id))
          (wrapped invalid_argument "payment intent mismatch")
      on_paid scenes o o.amounts.payable cb.trace_id

  unfoldable pub retry_after_paid : Dict SceneConfig → String → String → Action (Unit {0})
  retry_after_paid scenes tenant_id order_id = do
    o ← reads (Memory.find_by_id tenant_id order_id)
    if status_eq o.status fulfilling || status_eq o.status completed then pure tt else do
      raise_if (not (status_eq o.status paid) && not (status_eq o.status compensating))
          (bare status_not_allowed)
      after_paid scenes o

  unfoldable pub complete : String → String → Action Order
  complete tenant_id order_id = do
    o ← reads (Memory.find_by_id tenant_id order_id)
    raise_if (not (status_eq o.status fulfilling) && not (status_eq o.status paid))
        (bare status_not_allowed)
    at ← now out
    id ← fresh_id out new_event_id
    store_transition out (record (command o (fulfilling ∷ paid ∷ []) completed) {
      completed_at = some at;
      event = some (new_event id EventType.completed o.tenant_id "" at (order_event_data o));
    })
