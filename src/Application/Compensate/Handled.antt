-- ===== src/Application/Compensate/Handled.antt =====
-- internal/application/compensate.go: what working on a ticket leaves of the tickets.
use order_hub.Prelude.{◌≡◌, ap, ◌∙◌, arith, ℕ, String, ◌<>◌, inl, inr, List}
use order_hub.Prelude.Dict.{Dict}
use order_hub.Domain.Error.{Result-cases}
use order_hub.Domain.Status.{Status, next_after_paid}
use order_hub.Domain.Order.{Order, has_ledger_freeze}
use order_hub.Domain.Scene.{SceneConfig}
use order_hub.Port.{CompensationTicket, TransitionCmd}
use order_hub.Memory.{Repo, transition, update_redemption, update_order}
use order_hub.Memory.Transition.{transition_refused, transition_writes}
use order_hub.Application.Action.{
  Outside, World, Action, pure, now, fresh_id, when, call_unit, store_transition, ◌>>=◌, ◌>>◌,
  ledger_capture, fulfill_commit, new_event_id,
}
use order_hub.Application.Keeps.{Keeps, Keeps-bind}
use order_hub.Application.Payment.{retry_after_paid, after_paid, commit_offer, settle_cmd, scene_of}
use order_hub.Application.Compensate.{handle}

abbrev captured : Outside → Order → Action (Unit {0})
captured out o =
    when (has_ledger_freeze o)
      (call_unit out (ledger_capture o.ledger.freeze_id ("order:capture:" <> o.order_id)))

-- The last two steps of `afterPaid`.
abbrev finish : Outside → Status → Order → Action (Unit {0})
finish out next o = do
  call_unit out (fulfill_commit o.scene o)
  at ← now out
  id ← fresh_id out new_event_id
  updated ← store_transition out (settle_cmd out next at id o)
  pure tt

module _ (ts : List CompensationTicket) where
  -- The store's tickets are these.
  abbrev pub Has : Repo → Type 0
  Has r = r.tickets ≡ ts

  transition-Has : (cmd : TransitionCmd) (at : ℕ) (r : Repo) → Has r → Has (transition cmd at r).1
  transition-Has cmd at r h = elim (Result-cases (transition cmd at r).0) [
    | inl (o, moved) ↦
        (transition_writes cmd at r (ap (λ x. (x, (transition cmd at r).1)) moved)).5 ∙ h
    | inr (e, refused) ↦
        ap Repo.tickets
          (transition_refused cmd at r (ap (λ x. (x, (transition cmd at r).1)) refused))
        ∙ h
  ]

  module _ (out : Outside) (w : World) (h : Has w.repo) where
    commit_offer-Has : (o : Order) → Has (commit_offer out o w).1.repo
    unfolding commit_offer update_redemption update_order
    commit_offer-Has o = ground arith

  finish-Has : (out : Outside) (next : Status) (o : Order) → Keeps Has (finish out next o)
  unfolding store_transition
  finish-Has out next o w h = grind (arith, transition-Has)

  capture-Has : (out : Outside) (o : Order) → Keeps Has (captured out o)
  capture-Has out o w h = ground arith

  after_paid-Has :
      (out : Outside) (scenes : Dict SceneConfig) (o : Order) → Keeps Has (after_paid out scenes o)
  unfolding after_paid
  after_paid-Has out scenes o =
      let next = next_after_paid (scene_of scenes o.scene).auto_complete_on_paid in
      Keeps-bind Has (commit_offer out o) (λ o'. captured out o' >> finish out next o')
        (λ w h. commit_offer-Has out w h o)
        λ o'.
          Keeps-bind Has (captured out o') (λ u. finish out next o') (capture-Has out o')
            λ u. finish-Has out next o'

  retry_after_paid-Has :
      (out : Outside) (scenes : Dict SceneConfig) (tenant_id order_id : String)
      → Keeps Has (retry_after_paid out scenes tenant_id order_id)
  unfolding retry_after_paid
  retry_after_paid-Has out scenes tenant_id order_id w h =
      grind (arith, λ (o : Order). after_paid-Has out scenes o w h)

  -- Handling a ticket changes no ticket.
  pub handle-Has :
      (out : Outside) (scenes : Dict SceneConfig) (t : CompensationTicket)
      → Keeps Has (handle out scenes t)
  unfolding handle
  handle-Has out scenes t w h =
      ground (arith, retry_after_paid-Has out scenes t.tenant_id t.ref w h)
