-- ===== src/Application/Checkout/Saga.antt =====
-- internal/application/checkout.go: the reservations, the order, and the rollback.
pub mod Holds
pub mod Stored
pub mod Outcome
use order_hub.Prelude.{
  ℕ, ◌+◌, String, ◌<>◌, ◌==◌, Bool, true, false, ◌&&◌, ◌||◌, not, Option, none, some, List, [], ◌∷◌,
  is_empty, length, if◌then◌else◌,
}
use order_hub.Prelude.Int.{ℤ, pos, ltb_ℤ, leb_ℤ}
use order_hub.Domain.Error.{
  Err, Result, ok, err, bare, wrapped, offer_reserve as offer_reserve_failed,
  ledger_freeze as ledger_freeze_failed, inventory_reserve, idempotency_conflict,
}
use order_hub.Domain.Status.{pending_pay}
use order_hub.Domain.Order.{Order, LedgerLeg, needs_channel_pay}
use order_hub.Domain.Scene.{SceneConfig, needs_offer, needs_ledger, needs_inventory}
use order_hub.Domain.Event.{EventType, new_event, order_event_data}
use order_hub.Port.{
  Identity, FreezeRequest, PaymentIntent, CheckoutResult, IdempotencyRecord, CheckoutPersist,
}
use order_hub.Memory
use order_hub.Application.Action.{
  Outside, World, Action, pure, raise, attempt, ignore, reads, on_repo, ask, ◌>>=◌, ◌>>◌, when,
  fresh_id, call_unit, call_text, offer_reserve, offer_release, ledger_freeze, ledger_release,
  fulfill_reserve, fulfill_rollback, pay_create_intent, new_event_id,
}
use order_hub.Application.Checkout.Price.{CheckoutCmd, Priced}

-- What has been reserved so far; an empty id is none.
pub record Held : Type 0 where
  pub reservation_id : String
  pub freeze_id : String
  pub inventory : Bool

abbrev pub nothing_held : Held
nothing_held = record { reservation_id = ""; freeze_id = ""; inventory = false }

unfoldable pub new_legs : Priced → String → List LedgerLeg
new_legs p freeze_id =
    if freeze_id == ""
    then []
    else record {
      command = "freeze";
      biz_no = "order:freeze:" <> p.order_id;
      freeze_id = freeze_id;
      asset_code = p.asset;
      amount = p.amounts.ledger_pay;
      status = "accepted";
    }
      ∷ []

unfoldable pub new_order : SceneConfig → Identity → CheckoutCmd → Priced → Held → Order
new_order scene ident cmd p held = record {
  order_id = p.order_id;
  tenant_id = ident.tenant_id;
  scene = scene.name;
  channel = cmd.channel;
  buyer_user_id = ident.user_id;
  client_order_id = cmd.client_order_id;
  status = pending_pay;
  version = pos 1;
  amounts = p.amounts;
  promotion = record {
    quote_id = p.quote.quote_id;
    reservation_id = held.reservation_id;
    redemption_id = "";
  };
  ledger = record {
    freeze_id = held.freeze_id;
    asset_code = p.asset;
    biz_no = "order:freeze:" <> p.order_id;
  };
  payment = record { payment_intent_id = ""; channel = "" };
  pay_method = p.pay_method;
  expire_at = p.at + scene.pay_timeout;
  renew_count = 0;
  context = p.resolved.ext;
  lines = p.items;
  promotions = if is_empty p.resolved.promotions then p.quote.promotions else p.resolved.promotions;
  ledger_legs = new_legs p held.freeze_id;
  created_at = p.at;
  updated_at = p.at;
  paid_at = none;
  cancelled_at = none;
  completed_at = none;
}

unfoldable pub new_result : Order → CheckoutResult
new_result o = record {
  order_id = o.order_id;
  status = o.status;
  reservation_id = o.promotion.reservation_id;
  freeze_id = o.ledger.freeze_id;
  payment_intent = none;
  payable_amount = o.amounts.payable;
  currency = o.amounts.currency;
  expire_at = o.expire_at;
}

unfoldable pub new_record :
    Identity → CheckoutCmd → String → Priced → CheckoutResult → IdempotencyRecord
new_record ident cmd req_hash p result = record {
  tenant_id = ident.tenant_id;
  actor = ident.user_id;
  key = cmd.idempotency_key;
  request_hash = req_hash;
  response = result;
  order_id = p.order_id;
  created_at = p.at;
}

-- What `place` gives the store, with a new event's id.
unfoldable pub new_persist :
    SceneConfig → Identity → CheckoutCmd → String → Priced → Held → String → CheckoutPersist
new_persist scene ident cmd req_hash p held event_id =
    let o = new_order scene ident cmd p held in
    record {
      order = o;
      idempotency = some (new_record ident cmd req_hash p (new_result o));
      event =
          new_event event_id EventType.created ident.tenant_id cmd.trace_id p.at
            (order_event_data o);
    }

abbrev pub is_idempotency_conflict : Err → Bool
is_idempotency_conflict e = elim e.kind [ idempotency_conflict ↦ true | _ ↦ false ]

-- The answer stored under the key, if there is one.
abbrev pub stored_answer : Err → Option IdempotencyRecord → Action CheckoutResult
stored_answer e (some rec) w = (ok rec.response, w)
stored_answer e none w = (err e, w)

module _ (out : Outside) (scene : SceneConfig) (ident : Identity) where
  -- `rollback`: what is held is released, the latest first; failures are passed over.
  unfoldable pub rollback : Priced → Held → Action (Unit {0})
  rollback p held = do
    when held.inventory
        (ignore (call_unit out (fulfill_rollback scene.name p.order_id ident.tenant_id p.items)))
    when (not (held.freeze_id == ""))
        (ignore (call_unit out (ledger_release held.freeze_id ("order:release:" <> p.order_id))))
    when (not (held.reservation_id == "")) (
        ignore (
          call_unit out (
            offer_release ident.tenant_id held.reservation_id p.order_id
              ("order:" <> p.order_id <> ":release"))))

  -- A step after the reservations began: its failure undoes them.
  unfoldable pub or_rollback : {A : Type 0} → Priced → Held → (Err → Err) → Action A → Action A
  or_rollback p held blame m = do
    result ← attempt m
    elim result [ ok a ↦ pure a | err e ↦ do rollback p held; raise (blame e) ]

  unfoldable pub hold_offer : Priced → Action Held
  hold_offer p =
      if not (
        needs_offer scene (not (p.quote.quote_id == "")) (length p.resolved.coupons)
        && leb_ℤ (pos 0) p.quote.discount_amount)
      then pure nothing_held
      else do
        answer ← attempt (
            ask out.reservation_reply (
              offer_reserve ident.tenant_id p.quote.quote_id p.order_id
                ("order:" <> p.order_id <> ":reserve")))
        elim answer [
          | ok res ↦
              pure
                (record { reservation_id = res.reservation_id; freeze_id = ""; inventory = false })
          | err e ↦ raise (wrapped offer_reserve_failed e.text)
        ]

  unfoldable pub hold_ledger : Priced → Held → Action Held
  hold_ledger p held =
      if not (needs_ledger scene p.amounts.ledger_pay && ltb_ℤ (pos 0) p.amounts.ledger_pay)
      then pure held
      else do
        fid ←
            or_rollback p held (λ e. wrapped ledger_freeze_failed e.text)
              (call_text out (
                ledger_freeze (record {
                  tenant_id = ident.tenant_id;
                  user_id = ident.user_id;
                  order_id = p.order_id;
                  asset_code = p.asset;
                  amount = p.amounts.ledger_pay;
                  biz_no = "order:freeze:" <> p.order_id;
                })))
        pure (record held { freeze_id = fid })

  unfoldable pub hold_inventory : CheckoutCmd → Priced → Held → Action Held
  hold_inventory cmd p held = if not (needs_inventory scene) then pure held else do
    or_rollback p held (λ e. wrapped inventory_reserve e.text)
        (call_unit out (fulfill_reserve scene.name (new_order scene ident cmd p held)))
    pure (record held { inventory = true })

  -- The order was not stored: another checkout under the same key may have come first, and its
  -- answer is returned.
  unfoldable pub insert_refused : CheckoutCmd → Err → Action CheckoutResult
  insert_refused cmd e = if not (is_idempotency_conflict e) then raise e else do
    found ←
        reads
          (λ r. ok (Memory.find_idempotency ident.tenant_id ident.user_id cmd.idempotency_key r))
    stored_answer e found

  -- The payment intent of a stored order; a failure leaves the result without one.
  unfoldable pub open_intent : CheckoutCmd → Order → CheckoutResult → Action CheckoutResult
  open_intent cmd o result = if not (needs_channel_pay o) then pure result else do
    answer ← attempt (ask out.intent_reply (pay_create_intent o))
    elim answer [
      | err _ ↦ pure result
      | ok intent ↦ do
        ignore (
            on_repo (
              Memory.update_payment_intent ident.tenant_id o.order_id intent.intent_id
                intent.channel))
        let result' = record result { payment_intent = some intent }
        ignore (
            on_repo (
              Memory.update_idempotency_response ident.tenant_id ident.user_id cmd.idempotency_key
                result'))
        pure result'
    ]

  -- What follows the writing of the order.
  abbrev pub after_insert :
      CheckoutCmd
      → Priced
      → Held
      → Order
      → CheckoutResult
      → Result (Unit {0})
      → Action CheckoutResult
  after_insert cmd p held o result (err e) = do rollback p held; insert_refused cmd e
  after_insert cmd p held o result (ok _) = open_intent cmd o result

  -- From the reservations to the stored order and its payment intent.
  unfoldable pub place : CheckoutCmd → String → Priced → Held → Action CheckoutResult
  place cmd req_hash p held = do
    let o = new_order scene ident cmd p held
    id ← fresh_id out new_event_id
    stored ←
        attempt (on_repo (Memory.insert_checkout (new_persist scene ident cmd req_hash p held id)))
    after_insert cmd p held o (new_result o) stored

  unfoldable pub saga : CheckoutCmd → String → Priced → Action CheckoutResult
  saga cmd req_hash p = do
    h₁ ← hold_offer p
    h₂ ← hold_ledger p h₁
    h₃ ← hold_inventory cmd p h₂
    place cmd req_hash p h₃
