-- ===== src/Tests/Orders.antt =====
-- internal/domain/statemachine.go and status.go at concrete orders.
use order_hub.Prelude.{◌≡◌, refl, ◌↔◌, none, some, [], ◌∷◌}
use order_hub.Prelude.Int.{pos, ◌+ℤ◌}
use order_hub.Domain.Int64.{add64, wrap64}
use order_hub.Domain.Error.{ok}
use order_hub.Domain.Status.{Status, pending_pay, paid, cancelled, can_transition, transitions}
use order_hub.Domain.Order.{Order, PayMethod, transition}
use order_hub.Domain.Lifecycle.{◌⟶◌, transition_iff, cancelled_only_unpaid}

abbrev pub order_at : Status → Order
order_at s = record {
  order_id = "o1";
  tenant_id = "t1";
  scene = "mall_checkout";
  channel = "app";
  buyer_user_id = "u1";
  client_order_id = "c1";
  status = s;
  version = pos 1;
  amounts = record {
    currency = "CNY";
    original = pos 1500;
    discount = pos 300;
    payable = pos 1200;
    ledger_pay = pos 200;
    channel_pay = pos 1000;
    paid = pos 1200;
    refunded = pos 0;
  };
  promotion = record { quote_id = "q1"; reservation_id = "rsv1"; redemption_id = "" };
  ledger = record { freeze_id = "frz1"; asset_code = "CNY"; biz_no = "order:freeze:o1" };
  payment = record { payment_intent_id = "pi1"; channel = "mock" };
  pay_method = PayMethod.mix;
  expire_at = 900;
  renew_count = 0;
  context = none;
  lines = [];
  promotions = [];
  ledger_legs = [];
  created_at = 0;
  updated_at = 0;
  paid_at = none;
  cancelled_at = none;
  completed_at = none;
}

abbrev paid_order : Order
paid_order = record (order_at paid) { version = pos 2 }

transition_iff_example : (transition (some (order_at pending_pay)) paid ≡ ok paid_order) ↔ (
    (pending_pay ⟶ paid)
    × (paid_order ≡ record (order_at pending_pay) {
      status = paid;
      version = add64 (order_at pending_pay).version (pos 1);
    }))
transition_iff_example = transition_iff (order_at pending_pay) paid paid_order

cancelled_only_unpaid_example : cancelled ∷ [] ≡ cancelled ∷ []
unfolding transition can_transition transitions wrap64 ◌+ℤ◌
cancelled_only_unpaid_example =
    cancelled_only_unpaid (order_at pending_pay) (cancelled ∷ [])
      {o' = record (order_at cancelled) { version = pos 2 }} refl refl refl
