-- ===== src/Tests/Services.antt =====
-- internal/application at concrete hubs, orders and commands.
use order_hub.Prelude.{
  ◌≡◌, refl, arith, ◌≤◌, ◌*◌, ◌/◌, ◌-◌, ◌+◌, ℕ, true, false, none, List, [], ◌∷◌, All,
}
use order_hub.Prelude.Int.{pos, ◌≤ℤ◌, ◌<ℤ◌, ◌-ℤ◌}
use order_hub.Domain.Int64.{wrap64}
use order_hub.Domain.Error.{Result, ok, err, bare, other}
use order_hub.Domain.Json.{end}
use order_hub.Domain.Status.{paid}
use order_hub.Domain.Order.{PayMethod, refundable_amount}
use order_hub.Domain.Scene.{
  SceneConfig, OfferMode, LedgerMode, InventoryMode, FulfillmentType, minute,
}
use order_hub.Port.{Identity}
use order_hub.Memory.{new_repo}
use order_hub.Application.Action.{Call, Outside, World, fulfill_reserve}
use order_hub.Application.Refund.{RefundCmd, split_refund, resolve_refund_lines}
use order_hub.Application.Refund.Split.{split_refund_exact}
use order_hub.Application.Refund.Resolve.{FitsLine, resolve_refund_lines_bounds}
use order_hub.Application.Checkout.Price.{CheckoutCmd, Priced}
use order_hub.Application.Checkout.Saga.{saga}
use order_hub.Application.Checkout.Saga.Holds.{outstanding}
use order_hub.Application.Checkout.Saga.Outcome.{Ended, saga_outcome}
use order_hub.Prelude.Int.{◌+ℤ◌, ◌*ℤ◌, quot_ℤ}
use order_hub.Prelude.Dict.{lookup, insert}
use order_hub.Domain.Status.{pending_pay, refunding, can_transition, transitions}
use order_hub.Domain.Order as Orders
use order_hub.Domain.Order.{Order}
use order_hub.Prelude.{some}
use order_hub.Memory.{
  Repo, order_key, find_by_id, find_order, is_order, transition, check_cmd, apply_cmd,
}
use order_hub.Application.Action.{pay_refund}
use order_hub.Application.Refund.{refund, check_refund}
use order_hub.Application.Refund.Stuck.{refund_stuck, asked, calls_before}
use order_hub.Application.Renew.{renew_tick}
use order_hub.Application.Renew.Limit.{IsLimited, renew_tick-IsLimited}
use order_hub.Tests.Orders.{order_at}

abbrev part : ℕ
part = 300

split_refund_exact_example :
    (ledger channel : ℕ) × (split_refund (order_at paid) (pos 300) ≡ (pos ledger, pos channel))
    × (ledger + channel ≡ 300)
    × (ledger ≡ 200 * 300 / 1200)
    × (ledger ≤ 200)
    × (part ≡ 1200 → (ledger ≡ 200) × (channel ≡ 1200 - 200))
split_refund_exact_example =
    split_refund_exact (order_at paid) 200 300 1200 refl refl (omega arith) (omega arith)
      (omega arith) (omega arith) (omega arith)

abbrev half : RefundCmd
half = record { amount = pos 600; reason = "damaged"; lines = [] }

resolve_refund_lines_bounds_example :
    (pos 0 <ℤ pos 600)
    × (pos 600 ≤ℤ refundable_amount (order_at paid))
    × All (FitsLine (order_at paid).lines) []
    × ([] ≡ half.lines)
unfolding resolve_refund_lines refundable_amount wrap64 ◌-ℤ◌
resolve_refund_lines_bounds_example = resolve_refund_lines_bounds (order_at paid) half refl

-- The offer and the ledger answer, the inventory does not.
abbrev no_stock : List Call → Call → Result (Unit {0})
no_stock cs (fulfill_reserve s o) = err (bare other)
no_stock cs _ = ok tt

abbrev pub hubs : Outside
hubs = record {
  unit_reply = no_stock;
  text_reply = λ cs c. ok "frz1";
  quote_reply = λ cs c. err (bare other);
  reservation_reply = λ cs c.
      ok (record { reservation_id = "rsv1"; quote_id = "q1"; expires_at = 99; status = "ok" });
  intent_reply = λ cs c. err (bare other);
  balance_reply = λ cs c. ok (pos 5000);
  snapshot_reply = λ cs c. err (bare other);
  lock_reply = λ cs c. ok true;
  time_reply = λ cs c. 10;
  id_reply = λ cs c. "id1";
}

abbrev pub mall : SceneConfig
mall = record {
  name = "mall_checkout";
  currency = "CNY";
  offer = OfferMode.required_or_skip;
  ledger = LedgerMode.optional;
  inventory = InventoryMode.reserve_on_create;
  pay_timeout = 15 * minute;
  auto_complete_on_paid = false;
  fulfillment = FulfillmentType.shipping;
  allow_close_after_paid = false;
}

abbrev pub buyer : Identity
buyer = record { user_id = "u1"; tenant_id = "t1"; attributes = end; trace_id = "tr1" }

abbrev pub request : CheckoutCmd
request = record {
  client_order_id = "c1";
  scene = "mall_checkout";
  channel = "app";
  quote_id = "";
  coupon_ids = "cp1" ∷ [];
  items = [];
  pay_method = none;
  ledger_pay = none;
  ext = none;
  idempotency_key = "c1";
  trace_id = "tr1";
}

abbrev priced : Priced
priced = record {
  resolved = record {
    items = [];
    quote_id = "";
    coupons = "cp1" ∷ [];
    ledger_pay = pos 200;
    asset = "CNY";
    ext = none;
    promotions = [];
  };
  items = [];
  order_id = "o1";
  at = 10;
  quote = record {
    quote_id = "q1";
    currency = "CNY";
    original_amount = pos 1500;
    discount_amount = pos 300;
    payable_amount = pos 1200;
    allocations = [];
    promotions = [];
    expires_at = 99;
    context_hash = "";
  };
  asset = "CNY";
  amounts = (order_at paid).amounts;
  pay_method = PayMethod.mix;
}

abbrev start : World
start = record { repo = new_repo; calls = [] }

-- All hubs answer.
abbrev up : Outside
up = record hubs { unit_reply = λ cs c. ok tt }

saga_outcome_example :
    Ended up mall buyer request "h1" priced new_repo
      (saga up mall buyer request "h1" priced start).0
      (saga up mall buyer request "h1" priced start).1
unfolding outstanding
saga_outcome_example = saga_outcome up mall buyer request "h1" priced start refl

-- No hub answers.
abbrev pub down : Outside
down = record hubs { unit_reply = λ cs c. err (bare other) }

abbrev pub one_paid : World
one_paid = record { repo = record new_repo { orders = ("t1|o1", order_at paid) ∷ [] }; calls = [] }

abbrev refunding_order : Order
refunding_order = record (order_at refunding) { version = pos 2; updated_at = 10 }

abbrev left : Repo
left = record new_repo { orders = ("t1|o1", refunding_order) ∷ [] }

refund_stuck_example :
    (refund down buyer "o1" half one_paid ≡ (
      err (bare other),
      record {
        repo = left;
        calls =
            pay_refund (asked down buyer half one_paid [] (pos 600) (order_at paid))
            ∷ calls_before down buyer half one_paid;
      },
    ))
    × (lookup (order_key "t1" "o1") left.orders ≡ some refunding_order)
    × (refunding_order.status ≡ refunding)
    × (left.tickets ≡ [])
unfolding find_by_id find_order is_order check_refund resolve_refund_lines refundable_amount
    transition check_cmd apply_cmd Orders.transition can_transition transitions lookup insert
    order_key wrap64 ◌-ℤ◌ ◌+ℤ◌ split_refund ◌*ℤ◌ quot_ℤ
refund_stuck_example =
    refund_stuck down buyer half one_paid "o1" (order_at paid) refunding_order left {lines = []}
      {amount = pos 600} refl refl refl refl refl refl

abbrev waiting : World
waiting = record {
  repo = record new_repo { orders = ("t1|o1", order_at pending_pay) ∷ [] };
  calls = [];
}

renew_tick-IsLimited_example : IsLimited (renew_tick hubs waiting).1.repo
renew_tick-IsLimited_example = renew_tick-IsLimited hubs waiting (omega arith, tt)
