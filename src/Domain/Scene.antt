-- ===== src/Domain/Scene.antt =====
-- internal/domain/scene.go: what each scene requires of an order.
use order_hub.Prelude.{ℕ, ◌*◌, String, Bool, true, false, ◌||◌, [], ◌∷◌, ltb, if◌then◌else◌}
use order_hub.Prelude.Int.{ℤ, pos, ltb_ℤ}
use order_hub.Prelude.Dict.{Dict}

pub data OfferMode : Type 0 where
  required_or_skip optional none unset : OfferMode

pub data LedgerMode : Type 0 where
  none optional freeze_capture unset : LedgerMode

pub data InventoryMode : Type 0 where
  none reserve_on_create unset : InventoryMode

pub data FulfillmentType : Type 0 where
  shipping virtual_grant entitlement none unset : FulfillmentType

-- Durations are nanoseconds.
pub record SceneConfig : Type 0 where
  pub name : String
  pub currency : String
  pub offer : OfferMode
  pub ledger : LedgerMode
  pub inventory : InventoryMode
  pub pay_timeout : ℕ
  pub auto_complete_on_paid : Bool
  pub fulfillment : FulfillmentType
  pub allow_close_after_paid : Bool

abbrev pub max_reservation_renew : ℕ
max_reservation_renew = 3

abbrev pub second : ℕ
second = 1_000_000_000

abbrev pub minute : ℕ
minute = 60_000_000_000

-- The zero value, which a missing key of the map yields.
abbrev pub zero_scene : SceneConfig
zero_scene = record {
  name = "";
  currency = "";
  offer = OfferMode.unset;
  ledger = LedgerMode.unset;
  inventory = InventoryMode.unset;
  pay_timeout = 0;
  auto_complete_on_paid = false;
  fulfillment = FulfillmentType.unset;
  allow_close_after_paid = false;
}

unfoldable pub default_scenes : Dict SceneConfig
default_scenes =
    (
      "mall_checkout",
      record {
        name = "mall_checkout";
        currency = "CNY";
        offer = required_or_skip;
        ledger = LedgerMode.optional;
        inventory = reserve_on_create;
        pay_timeout = 15 * minute;
        auto_complete_on_paid = false;
        fulfillment = shipping;
        allow_close_after_paid = false;
      },
    )
    ∷ (
      "point_mall",
      record {
        name = "point_mall";
        currency = "POINT";
        offer = OfferMode.optional;
        ledger = freeze_capture;
        inventory = InventoryMode.none;
        pay_timeout = 15 * minute;
        auto_complete_on_paid = true;
        fulfillment = virtual_grant;
        allow_close_after_paid = false;
      },
    )
    ∷ (
      "membership",
      record {
        name = "membership";
        currency = "CNY";
        offer = OfferMode.optional;
        ledger = LedgerMode.optional;
        inventory = InventoryMode.none;
        pay_timeout = 30 * minute;
        auto_complete_on_paid = true;
        fulfillment = entitlement;
        allow_close_after_paid = true;
      },
    )
    ∷ (
      "course",
      record {
        name = "course";
        currency = "CNY";
        offer = OfferMode.optional;
        ledger = LedgerMode.none;
        inventory = InventoryMode.none;
        pay_timeout = 30 * minute;
        auto_complete_on_paid = true;
        fulfillment = entitlement;
        allow_close_after_paid = true;
      },
    )
    ∷ (
      "saas_subscription",
      record {
        name = "saas_subscription";
        currency = "CNY";
        offer = OfferMode.optional;
        ledger = LedgerMode.none;
        inventory = InventoryMode.none;
        pay_timeout = 30 * minute;
        auto_complete_on_paid = true;
        fulfillment = entitlement;
        allow_close_after_paid = true;
      },
    )
    ∷ []

abbrev offer_is_none : OfferMode → Bool
offer_is_none OfferMode.none = true
offer_is_none _ = false

abbrev offer_is_required : OfferMode → Bool
offer_is_required required_or_skip = true
offer_is_required _ = false

unfoldable pub needs_offer : SceneConfig → Bool → ℕ → Bool
needs_offer s has_quote coupon_n =
    if offer_is_none s.offer
    then false
    else (has_quote || ltb 0 coupon_n || offer_is_required s.offer)

abbrev ledger_is_none : LedgerMode → Bool
ledger_is_none LedgerMode.none = true
ledger_is_none _ = false

-- `s.Ledger == LedgerFreezeCapture`.
abbrev pub ledger_is_freeze_capture : LedgerMode → Bool
ledger_is_freeze_capture freeze_capture = true
ledger_is_freeze_capture _ = false

unfoldable pub needs_ledger : SceneConfig → ℤ → Bool
needs_ledger s ledger_pay =
    if ledger_is_none s.ledger
    then false
    else if ledger_is_freeze_capture s.ledger
    then true
    else ltb_ℤ (pos 0) ledger_pay

abbrev inventory_is_reserve : InventoryMode → Bool
inventory_is_reserve reserve_on_create = true
inventory_is_reserve _ = false

unfoldable pub needs_inventory : SceneConfig → Bool
needs_inventory s = inventory_is_reserve s.inventory
