-- ===== src/Application/Seed.antt =====
-- internal/application/seed.go: `SeedService`, the orders of a demonstration.
pub mod Cases
pub mod Counts
use order_hub.Prelude.{
  ℕ, suc, ◌+◌, ◌-◌, ◌*◌, String, ◌<>◌, ◌==◌, true, none, List, [], ◌∷◌, ◌++◌, if◌then◌else◌,
}
use order_hub.Prelude.Int.{pos}
use order_hub.Prelude.Dict.{Dict}
use order_hub.Prelude.GoText.{show, show_two}
use order_hub.Domain.Error.{Err, Result, ok, err}
use order_hub.Domain.Json.{end}
use order_hub.Domain.Status.{to_string, refunded, partial_refunded}
use order_hub.Domain.Scene.{SceneConfig}
use order_hub.Domain.Hash.{ContextDoc, CheckoutDoc}
use order_hub.Port.{Identity}
use order_hub.Application.Action.{Outside, Action, pure, attempt, ◌>>=◌, ◌>>◌}
use order_hub.Application.Checkout.Price.{CheckoutCmd}
use order_hub.Application.Checkout.Entry.{checkout}
use order_hub.Application.Payment.{PaymentCallback, on_payment_callback, complete, confirm_ledger}
use order_hub.Application.Cancel.{cancel}
use order_hub.Application.Refund.{RefundCmd, refund}
use Cases.{SeedCase, seed_cases}

pub record SeededOrder : Type 0 where
  pub order_id : String
  pub scene : String
  pub status : String
  pub buyer : String
  pub tenant_id : String
  pub note : String

pub record SeedResult : Type 0 where
  pub created : ℕ
  pub failed : ℕ
  pub orders : List SeededOrder
  pub errors : List String

abbrev pub seed_identity : SeedCase → Identity
seed_identity c = record {
  user_id = c.user;
  tenant_id = c.tenant;
  attributes = end;
  trace_id = "seed";
}

abbrev pub seed_callback : SeedCase → String → PaymentCallback
seed_callback c order_id = record {
  order_id = order_id;
  tenant_id = c.tenant;
  payment_intent_id = "";
  success = true;
  paid_amount = pos 0;
  channel = "";
  trace_id = "seed";
}

abbrev pub seed_checkout : String → SeedCase → CheckoutCmd
seed_checkout cli c = record {
  client_order_id = cli;
  scene = c.scene;
  channel = "app";
  quote_id = "";
  coupon_ids = c.coupons;
  items = c.items;
  pay_method = none;
  ledger_pay = c.ledger;
  ext = none;
  idempotency_key = cli;
  trace_id = "seed";
}

-- The result so far, with one more order or one more failure.
unfoldable pub tally : SeedCase → Result SeededOrder → SeedResult → SeedResult
tally c (ok o) done = record done { created = suc done.created; orders = done.orders ++ o ∷ [] }
tally c (err e) done = record done {
  failed = suc done.failed;
  errors = done.errors ++ (c.note <> ": " <> e.text) ∷ [];
}

module _ (out : Outside) (ctx : ContextDoc → String) (req : CheckoutDoc → String)
    (scenes : Dict SceneConfig) where
  -- A payment that succeeds, and the completion.
  unfoldable pub pay_and_complete : SeedCase → String → Action (Unit {0})
  pay_and_complete c order_id = do
    paid ← on_payment_callback out scenes (seed_callback c order_id)
    done ← complete out c.tenant order_id
    pure tt

  -- The `switch` of `runCase`: the status that the order is brought to.
  unfoldable pub bring_on : SeedCase → String → String → Action String
  bring_on c order_id status =
      if c.after == "pay"
      then (do
        o ← on_payment_callback out scenes (seed_callback c order_id)
        pure (to_string o.status))
      else if c.after == "complete"
      then (do
        paid ← on_payment_callback out scenes (seed_callback c order_id)
        o ← complete out c.tenant order_id
        pure (to_string o.status))
      else if c.after == "cancel"
      then (do o ← cancel out (seed_identity c) order_id; pure (to_string o.status))
      else if c.after == "refund"
      then (do
        pay_and_complete c order_id
        done ←
            refund out (seed_identity c) order_id
              (record { amount = pos 0; reason = "seed full refund"; lines = [] })
        pure (to_string refunded))
      else if c.after == "partial_refund"
      then (do
        pay_and_complete c order_id
        done ←
            refund out (seed_identity c) order_id
              (record { amount = pos 1000; reason = "seed partial"; lines = [] })
        pure (to_string partial_refunded))
      else if c.after == "confirm_ledger"
      then (do o ← confirm_ledger out scenes (seed_identity c) order_id; pure (to_string o.status))
      else pure status

  -- `runCase`.
  unfoldable pub run_case : ℕ → ℕ → SeedCase → Action SeededOrder
  run_case stamp i c = do
    let cli = "seed_" <> show stamp <> "_" <> show_two i
    created ← checkout out ctx req scenes (seed_identity c) (seed_checkout cli c)
    status ← bring_on c created.order_id (to_string created.status)
    pure (record {
      order_id = created.order_id;
      scene = c.scene;
      status = status;
      buyer = c.user;
      tenant_id = c.tenant;
      note = c.note;
    })

  -- The loop of `Seed`, from the `i`-th case on.
  unfoldable pub run_cases : ℕ → ℕ → List SeedCase → SeedResult → Action SeedResult
  run_cases stamp i [] done = pure done
  run_cases stamp i (c ∷ rest) done = do
    made ← attempt (run_case stamp i c)
    run_cases stamp (suc i) rest (tally c made done)

  -- `SeedService.Seed` at a time in nanoseconds since 1970.
  unfoldable pub seed : ℕ → Action SeedResult
  seed stamp =
      run_cases stamp 0 seed_cases (record { created = 0; failed = 0; orders = []; errors = [] })
