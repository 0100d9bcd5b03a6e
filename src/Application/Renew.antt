-- ===== src/Application/Renew.antt =====
-- internal/application/renew.go: `RenewService`.
pub mod Limit
use order_hub.Prelude.{
  ℕ, zero, suc, ◌*◌, String, ◌<>◌, ◌==◌, ◌&&◌, not, List, [], ◌∷◌, leb, if◌then◌else◌,
}
use order_hub.Prelude.GoText.{show}
use order_hub.Domain.Error.{ok, err, bare, wrapped, order_not_found, status_not_allowed}
use order_hub.Domain.Status.{pending_pay, status_eq}
use order_hub.Domain.Order.{Order}
use order_hub.Domain.Scene.{max_reservation_renew, minute}
use order_hub.Port.{Identity}
use order_hub.Memory
use order_hub.Application.Action.{
  Outside, Action, pure, attempt, reads, on_repo, ◌>>=◌, ◌>>◌, raise_if, now, call_unit,
  offer_renew,
}

module _ (out : Outside) where
  unfoldable pub renew_one : Order → Action (Unit {0})
  renew_one o = do
    raise_if (not (status_eq o.status pending_pay)) (bare status_not_allowed)
    if o.promotion.reservation_id == "" then pure tt else do
      raise_if (leb max_reservation_renew o.renew_count) (wrapped status_not_allowed "renew limit")
      call_unit out (
          offer_renew o.tenant_id o.promotion.reservation_id o.order_id
            ("order:" <> o.order_id <> ":renew:" <> show (suc o.renew_count)))
      on_repo (Memory.bump_renew o.tenant_id o.order_id o.renew_count)

  -- `RenewService.Renew`.
  unfoldable pub renew : Identity → String → Action Order
  renew ident order_id = do
    o ← reads (Memory.find_by_id ident.tenant_id order_id)
    raise_if (not (ident.user_id == "") && not (o.buyer_user_id == ident.user_id))
        (bare order_not_found)
    renew_one o
    reads (Memory.find_by_id o.tenant_id o.order_id)

  -- The loop of `RenewService.Tick`, with the count so far.
  unfoldable pub renew_each : ℕ → List Order → Action ℕ
  renew_each n [] = pure n
  renew_each n (o ∷ rest) = do
    done ← attempt (renew_one o)
    renew_each (elim done [ ok _ ↦ suc n | err _ ↦ n ]) rest

  -- `RenewService.Tick`: the orders that expire within five minutes, 100 at most.
  unfoldable pub renew_tick : Action ℕ
  renew_tick = do
    at ← now out
    orders ←
        reads
          (λ r. ok (Memory.list_pending_pay_for_renew at (5 * minute) max_reservation_renew 100 r))
    renew_each 0 orders
