-- ===== src/Application/Close.antt =====
-- internal/application/close.go: `CloseService`.
use order_hub.Prelude.{ℕ, String, ◌<>◌, ◌==◌, ◌&&◌, not, none, some, [], ◌∷◌, if◌then◌else◌}
use order_hub.Prelude.Int.{pos, ltb_ℤ}
use order_hub.Prelude.Dict.{Dict, lookup}
use order_hub.Domain.Error.{
  Result, ok, err, bare, wrapped, order_not_found, scene_not_found, status_not_allowed,
}
use order_hub.Domain.Status.{paid, fulfilling, completed, closed, status_eq}
use order_hub.Domain.Order.{Order, refundable_amount, has_offer_reservation}
use order_hub.Domain.Scene.{SceneConfig}
use order_hub.Domain.Event.{EventType, new_event, order_event_data}
use order_hub.Port.{Identity, TransitionCmd, command}
use order_hub.Memory
use order_hub.Application.Action.{
  Outside, Action, pure, lift, reads, ◌>>=◌, ◌>>◌, raise_if, when, now, fresh_id, call_unit,
  store_transition, offer_reverse, offer_release, ledger_credit, fulfill_release, new_event_id,
}
use order_hub.Application.Payment.{is_settled}
use order_hub.Application.Refund.{split_refund}

abbrev pub find_scene : Dict SceneConfig → String → Result SceneConfig
find_scene scenes name = elim (lookup name scenes) [
  | none ↦ err (wrapped scene_not_found name)
  | some s ↦ ok s
]

unfoldable pub close_cmd : ℕ → String → String → Order → TransitionCmd
close_cmd at event_id trace_id o = record (command o (paid ∷ fulfilling ∷ completed ∷ []) closed) {
  event = some (new_event event_id EventType.closed o.tenant_id trace_id at (order_event_data o));
}

module _ (out : Outside) where
  -- The offer is reversed if it was redeemed, or released if it is only reserved.
  unfoldable pub return_offer : Order → Action (Unit {0})
  return_offer o =
      if not (o.promotion.redemption_id == "") && ltb_ℤ (pos 0) o.amounts.discount
      then call_unit out (
          offer_reverse o.tenant_id o.promotion.redemption_id ("close:" <> o.order_id) (pos 0)
            ("order:" <> o.order_id <> ":close-reverse"))
      else if has_offer_reservation o && o.promotion.redemption_id == ""
      then call_unit out (
          offer_release o.tenant_id o.promotion.reservation_id o.order_id
            ("order:" <> o.order_id <> ":close-release"))
      else pure tt

  -- The ledger's part of what has not been refunded is credited.
  unfoldable pub credit_rest : Order → Action (Unit {0})
  credit_rest o =
      let remain = refundable_amount o in
      let ledger = (split_refund o remain).0 in
      when (ltb_ℤ (pos 0) remain && ltb_ℤ (pos 0) o.amounts.ledger_pay && ltb_ℤ (pos 0) ledger) (
        call_unit out (
          ledger_credit o.tenant_id o.buyer_user_id
            (if o.ledger.asset_code == "" then o.amounts.currency else o.ledger.asset_code) ledger
            ("order:close:" <> o.order_id) ("order:capture:" <> o.order_id)))

  -- `CloseService.Close`.
  unfoldable pub close : Dict SceneConfig → Identity → String → Action Order
  close scenes ident order_id = do
    o ← reads (Memory.find_by_id ident.tenant_id order_id)
    raise_if (not (ident.user_id == "") && not (o.buyer_user_id == ident.user_id))
        (bare order_not_found)
    if status_eq o.status closed then pure o else do
      scene ← lift (find_scene scenes o.scene)
      raise_if (not scene.allow_close_after_paid)
          (wrapped status_not_allowed ("scene " <> o.scene <> " cannot close after paid"))
      raise_if (not (is_settled o.status)) (bare status_not_allowed)
      return_offer o
      credit_rest o
      call_unit out (fulfill_release o.scene o)
      at ← now out
      id ← fresh_id out new_event_id
      store_transition out (close_cmd at id ident.trace_id o)
