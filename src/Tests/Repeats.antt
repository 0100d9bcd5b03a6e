-- ===== src/Tests/Repeats.antt =====
-- A checkout that is repeated, and a cancellation, at a store with one order.
use order_hub.Prelude.{◌≡◌, refl, some, [], ◌∷◌, text-apart}
use order_hub.Prelude.Int.{pos, ◌+ℤ◌}
use order_hub.Prelude.Dict.{lookup, insert}
use order_hub.Domain.Int64.{wrap64}
use order_hub.Domain.Error.{ok}
use order_hub.Domain.Status.{cancelled, can_transition, transitions}
use order_hub.Domain.Order.{Order}
use order_hub.Domain.Order as Orders
use order_hub.Domain.Hash.{checkout_hash}
use order_hub.Memory.{
  insert_checkout, store_checkout, append_event, order_key, idem_key, client_key, new_repo,
  transition, check_cmd, apply_cmd,
}
use order_hub.Application.Action.{World, store_transition}
use order_hub.Application.Cancel.{cancel_order, cancel_cmd}
use order_hub.Application.Cancel.Released.{AllHandled, asked, asked_cmd, cancel_order-AllHandled}
use order_hub.Application.Checkout.Entry.{checkout, request_hash, with_defaults}
use order_hub.Application.Checkout.Repeat.{checkout_replays}
use order_hub.Tests.Services.{hubs, down, mall, buyer, request}
use order_hub.Tests.Store.{stored, key, created, one_order}

abbrev placed : World
placed = record { repo = one_order; calls = [] }

checkout_replays_example :
    checkout hubs (λ d. "ctx") (λ d. "h1") (("mall_checkout", mall) ∷ []) buyer request placed
    ≡ (ok key.response, placed)
unfolding insert_checkout lookup request_hash checkout_hash with_defaults
checkout_replays_example =
    checkout_replays hubs (λ d. "ctx") (λ d. "h1") (("mall_checkout", mall) ∷ []) buyer request mall
      stored key (record { repo = new_repo; calls = [] }) one_order (text-apart "c1" "" refl) refl
      refl refl record { tenant = refl; actor = refl; key = refl }

-- No hub answers the releases of this cancellation.
abbrev dropped : Order
dropped = record created {
  status = cancelled;
  version = pos 2;
  cancelled_at = some 10;
  updated_at = 10;
}

cancel_order-AllHandled_example :
    ((cancel_order down created "tr1" placed).0 ≡ ok dropped)
    × AllHandled down dropped (cancel_order down created "tr1" placed).1
unfolding insert_checkout store_checkout append_event lookup insert order_key idem_key client_key
    store_transition cancel_cmd transition check_cmd apply_cmd Orders.transition can_transition
    transitions wrap64 ◌+ℤ◌
cancel_order-AllHandled_example =
    cancel_order-AllHandled down created dropped "tr1" placed
      (store_transition down (asked_cmd down created "tr1" placed) (asked down placed)).1 refl refl
