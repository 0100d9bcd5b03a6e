-- ===== src/Infra/Rows.antt =====
-- internal/infra/persistence/models.go: the rows of the tables, and orders as rows. Columns of JSON
-- are texts that a codec makes and reads, `encoding/json` at the types that the rows need. The status
-- and the pay method stand for their texts, and the JSON of an event for the event.
pub mod Reload
use order_hub.Prelude.{
  ℕ, String, ◌<>◌, ◌==◌, Bool, Option, none, some, List, [], ◌∷◌, map, nat_eq, if◌then◌else◌,
}
use order_hub.Prelude.Int.{ℤ}
use order_hub.Domain.Json.{Fields, end}
use order_hub.Domain.Status.{Status}
use order_hub.Domain.Order.{
  Order, OrderLine, PayMethod, PromotionDetail, LedgerLeg, Allocation, LineRefund, Refund,
}
use order_hub.Domain.Event.{Event}
use order_hub.Port.{CheckoutResult, CompensationTicket, IdempotencyRecord}

pub record OrderPo : Type 0 where
  pub order_id : String
  pub tenant_id : String
  pub scene : String
  pub channel : String
  pub buyer_user_id : String
  pub client_order_id : String
  pub status : Status
  pub version : ℤ
  pub currency : String
  pub original_amount : ℤ
  pub discount_amount : ℤ
  pub payable_amount : ℤ
  pub ledger_pay_amount : ℤ
  pub channel_pay_amount : ℤ
  pub paid_amount : ℤ
  pub refunded_amount : ℤ
  pub quote_id : String
  pub reservation_id : String
  pub redemption_id : String
  pub freeze_id : String
  pub asset_code : String
  pub pay_method : PayMethod
  pub payment_intent_id : String
  pub payment_channel : String
  pub expire_at : Option ℕ
  pub renew_count : ℕ
  pub context_json : String
  pub created_at : ℕ
  pub updated_at : ℕ
  pub paid_at : Option ℕ
  pub cancelled_at : Option ℕ
  pub completed_at : Option ℕ

pub record OrderLinePo : Type 0 where
  pub id : ℕ
  pub order_id : String
  pub line_id : String
  pub object_type : String
  pub object_id : String
  pub quantity : ℤ
  pub unit_price : ℤ
  pub original_amount : ℤ
  pub discount_amount : ℤ
  pub payable_amount : ℤ
  pub attributes_json : String
  pub snapshot_json : String
  pub created_at : ℕ

pub record OrderPromotionPo : Type 0 where
  pub order_id : String
  pub source_type : String
  pub source_id : String
  pub discount_amount : ℤ
  pub allocations_json : String
  pub rule_snapshot_version : String

pub record OrderLedgerLegPo : Type 0 where
  pub order_id : String
  pub command : String
  pub biz_no : String
  pub freeze_id : String
  pub asset_code : String
  pub amount : ℤ
  pub status : String
  pub created_at : ℕ

pub record OutboxPo : Type 0 where
  pub event_id : String
  pub event_type : String
  pub tenant_id : String
  pub payload : Event
  pub created_at : ℕ
  pub published_at : Option ℕ
  pub attempts : ℕ

pub record CompensationPo : Type 0 where
  pub id : ℕ
  pub kind : String
  pub tenant_id : String
  pub ref : String
  pub payload : String
  pub status : String
  pub attempts : ℕ
  pub last_error : String
  pub next_retry : Option ℕ
  pub created_at : ℕ
  pub done_at : Option ℕ

-- `json.Marshal` and `json.Unmarshal` at the types of the columns; where reading fails, the source
-- keeps the zero value.
pub record Codec : Type 0 where
  pub context_text : Option Fields → String
  pub context_of : String → Option Fields
  pub attributes_text : List (String × String) → String
  pub attributes_of : String → List (String × String)
  pub snapshot_text : Fields → String
  pub snapshot_of : String → Fields
  pub allocations_text : List Allocation → String

module _ (json : Codec) where
  -- `orderToPO`; the zero time has no row value.
  unfoldable pub order_to_po : Order → OrderPo
  order_to_po o = record {
    order_id = o.order_id;
    tenant_id = o.tenant_id;
    scene = o.scene;
    channel = o.channel;
    buyer_user_id = o.buyer_user_id;
    client_order_id = o.client_order_id;
    status = o.status;
    version = o.version;
    currency = o.amounts.currency;
    original_amount = o.amounts.original;
    discount_amount = o.amounts.discount;
    payable_amount = o.amounts.payable;
    ledger_pay_amount = o.amounts.ledger_pay;
    channel_pay_amount = o.amounts.channel_pay;
    paid_amount = o.amounts.paid;
    refunded_amount = o.amounts.refunded;
    quote_id = o.promotion.quote_id;
    reservation_id = o.promotion.reservation_id;
    redemption_id = o.promotion.redemption_id;
    freeze_id = o.ledger.freeze_id;
    asset_code = o.ledger.asset_code;
    pay_method = o.pay_method;
    payment_intent_id = o.payment.payment_intent_id;
    payment_channel = o.payment.channel;
    expire_at = if nat_eq o.expire_at 0 then none else some o.expire_at;
    renew_count = o.renew_count;
    context_json = json.context_text o.context;
    created_at = o.created_at;
    updated_at = o.updated_at;
    paid_at = o.paid_at;
    cancelled_at = o.cancelled_at;
    completed_at = o.completed_at;
  }

  -- The loops of `linesToPO`, and of `InsertCheckout` over the promotions and the ledger's legs.
  unfoldable pub line_to_po : Order → OrderLine → OrderLinePo
  line_to_po o l = record {
    id = 0;
    order_id = o.order_id;
    line_id = l.line_id;
    object_type = l.object_type;
    object_id = l.object_id;
    quantity = l.quantity;
    unit_price = l.unit_price;
    original_amount = l.original_amount;
    discount_amount = l.discount_amount;
    payable_amount = l.payable_amount;
    attributes_json = json.attributes_text l.attributes;
    snapshot_json = json.snapshot_text l.snapshot;
    created_at = o.created_at;
  }

  unfoldable pub lines_to_po : Order → List OrderLinePo
  lines_to_po o = map (line_to_po o) o.lines

  unfoldable pub promotion_to_po : Order → PromotionDetail → OrderPromotionPo
  promotion_to_po o p = record {
    order_id = o.order_id;
    source_type = p.source_type;
    source_id = p.source_id;
    discount_amount = p.discount_amount;
    allocations_json = json.allocations_text p.allocations;
    rule_snapshot_version = p.rule_snapshot_version;
  }

  -- The loop of `poToOrder` over the lines.
  unfoldable pub po_to_line : OrderLinePo → OrderLine
  po_to_line l = record {
    line_id = l.line_id;
    object_type = l.object_type;
    object_id = l.object_id;
    quantity = l.quantity;
    unit_price = l.unit_price;
    original_amount = l.original_amount;
    discount_amount = l.discount_amount;
    payable_amount = l.payable_amount;
    attributes = if l.attributes_json == "" then [] else json.attributes_of l.attributes_json;
    snapshot = if l.snapshot_json == "" then end else json.snapshot_of l.snapshot_json;
  }

  -- `poToOrder`; the promotions and the ledger's legs are not read.
  unfoldable pub po_to_order : OrderPo → List OrderLinePo → Order
  po_to_order po lines = record {
    order_id = po.order_id;
    tenant_id = po.tenant_id;
    scene = po.scene;
    channel = po.channel;
    buyer_user_id = po.buyer_user_id;
    client_order_id = po.client_order_id;
    status = po.status;
    version = po.version;
    amounts = record {
      currency = po.currency;
      original = po.original_amount;
      discount = po.discount_amount;
      payable = po.payable_amount;
      ledger_pay = po.ledger_pay_amount;
      channel_pay = po.channel_pay_amount;
      paid = po.paid_amount;
      refunded = po.refunded_amount;
    };
    promotion = record {
      quote_id = po.quote_id;
      reservation_id = po.reservation_id;
      redemption_id = po.redemption_id;
    };
    ledger = record {
      freeze_id = po.freeze_id;
      asset_code = po.asset_code;
      biz_no = "order:freeze:" <> po.order_id;
    };
    payment = record { payment_intent_id = po.payment_intent_id; channel = po.payment_channel };
    pay_method = po.pay_method;
    expire_at = elim po.expire_at [ none ↦ 0 | some at ↦ at ];
    renew_count = po.renew_count;
    context = if po.context_json == "" then none else json.context_of po.context_json;
    lines = map po_to_line lines;
    promotions = [];
    ledger_legs = [];
    created_at = po.created_at;
    updated_at = po.updated_at;
    paid_at = po.paid_at;
    cancelled_at = po.cancelled_at;
    completed_at = po.completed_at;
  }

unfoldable pub leg_to_po : Order → LedgerLeg → OrderLedgerLegPo
leg_to_po o lg = record {
  order_id = o.order_id;
  command = lg.command;
  biz_no = lg.biz_no;
  freeze_id = lg.freeze_id;
  asset_code = lg.asset_code;
  amount = lg.amount;
  status = lg.status;
  created_at = o.created_at;
}

-- `poToComp`.
unfoldable pub po_to_comp : CompensationPo → CompensationTicket
po_to_comp row = record {
  id = row.id;
  kind = row.kind;
  tenant_id = row.tenant_id;
  ref = row.ref;
  payload = row.payload;
  status = row.status;
  attempts = row.attempts;
  last_error = row.last_error;
  next_retry = row.next_retry;
  created_at = row.created_at;
}
