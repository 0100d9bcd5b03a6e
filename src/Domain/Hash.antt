-- ===== src/Domain/Hash.antt =====
-- internal/domain/hash.go: what the hashes of a checkout and of its context cover. The digest itself,
-- SHA-256 of the JSON text, is a parameter.
use order_hub.Prelude.{String, Bool, true, false, Option, List, [], ◌∷◌, map, if◌then◌else◌}
use order_hub.Prelude.Int.{ℤ}
use order_hub.Domain.Json.{Fields}
use order_hub.Domain.Order.{OrderLine}
use Prim.Native.Nat.{Ordering}
use Prim.Native.String.{compare}

pub record HashInput : Type 0 where
  pub scene : String
  pub channel : String
  pub currency : String
  pub coupon_ids : List String
  pub items : List OrderLine
  pub ledger_pay : ℤ
  pub asset_code : String
  pub ext : Option Fields

-- The fields of a line that are hashed: none of its amounts but the unit price.
pub record HashedItem : Type 0 where
  pub line_id : String
  pub object_type : String
  pub object_id : String
  pub quantity : ℤ
  pub unit_price : ℤ
  pub attributes : List (String × String)

abbrev pub hashed_item : OrderLine → HashedItem
hashed_item l = record {
  line_id = l.line_id;
  object_type = l.object_type;
  object_id = l.object_id;
  quantity = l.quantity;
  unit_price = l.unit_price;
  attributes = l.attributes;
}

-- The document that `ContextHash` encodes.
pub record ContextDoc : Type 0 where
  pub scene : String
  pub channel : String
  pub currency : String
  pub coupon_ids : List String
  pub items : List HashedItem
  pub ledger_pay : ℤ
  pub asset_code : String
  pub ext : Option Fields

-- The document that `CheckoutHash` encodes: it has no currency.
pub record CheckoutDoc : Type 0 where
  pub client_order_id : String
  pub quote_id : String
  pub scene : String
  pub channel : String
  pub coupon_ids : List String
  pub items : List HashedItem
  pub ledger_pay : ℤ
  pub asset_code : String
  pub ext : Option Fields

-- `sort.Strings`.
abbrev is_gt : Ordering → Bool
is_gt Ordering.gt = true
is_gt _ = false

unfoldable pub insert_sorted : String → List String → List String
insert_sorted s [] = s ∷ []
insert_sorted s (t ∷ ts) = if is_gt (compare s t) then t ∷ insert_sorted s ts else s ∷ t ∷ ts

unfoldable pub sort_strings : List String → List String
sort_strings [] = []
sort_strings (s ∷ ss) = insert_sorted s (sort_strings ss)

unfoldable pub context_hash : (ContextDoc → String) → HashInput → String
context_hash digest i = digest (record {
  scene = i.scene;
  channel = i.channel;
  currency = i.currency;
  coupon_ids = sort_strings i.coupon_ids;
  items = map hashed_item i.items;
  ledger_pay = i.ledger_pay;
  asset_code = i.asset_code;
  ext = i.ext;
})

unfoldable pub checkout_hash : (CheckoutDoc → String) → String → String → HashInput → String
checkout_hash digest client_order_id quote_id i = digest (record {
  client_order_id = client_order_id;
  quote_id = quote_id;
  scene = i.scene;
  channel = i.channel;
  coupon_ids = sort_strings i.coupon_ids;
  items = map hashed_item i.items;
  ledger_pay = i.ledger_pay;
  asset_code = i.asset_code;
  ext = i.ext;
})
