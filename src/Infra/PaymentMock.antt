-- ===== src/Infra/PaymentMock.antt =====
-- internal/infra/payment/mock.go: the payments of a run without other programs. `show` is `%d`, `at`
-- the reading of the clock. Its `Refund` does nothing.
use order_hub.Prelude.{ℕ, suc, ◌+◌, ◌*◌, String, ◌<>◌, []}
use order_hub.Prelude.Dict.{Dict, insert, remove}
use order_hub.Domain.Scene.{minute}
use order_hub.Domain.Order.{Order}
use order_hub.Port.{PaymentIntent}

pub record PaymentMock : Type 0 where
  pub seq : ℕ
  pub intents : Dict PaymentIntent

abbrev pub new_mock : PaymentMock
new_mock = record { seq = 0; intents = [] }

abbrev pub mock_intent : String → ℕ → Order → PaymentIntent
mock_intent id at o = record {
  intent_id = id;
  channel = "mock";
  amount = o.amounts.channel_pay;
  currency = o.amounts.currency;
  pay_url = "mock://pay/" <> id;
  expires_at = at + 15 * minute;
}

unfoldable pub create_intent : (ℕ → String) → ℕ → Order → PaymentMock → PaymentIntent × PaymentMock
create_intent show at o m =
    let id = "pi_mock_" <> show (suc m.seq) in
    (
      mock_intent id at o,
      record m { seq = suc m.seq; intents = insert id (mock_intent id at o) m.intents },
    )

unfoldable pub close_intent : String → PaymentMock → PaymentMock
close_intent id m = record m { intents = remove id m.intents }
