-- ===== src/Application/Seed/Cases.antt =====
-- internal/application/seed.go: the cases of the demonstration.
use order_hub.Prelude.{String, Option, none, some, List, [], ◌∷◌}
use order_hub.Prelude.Int.{ℤ, pos}
use order_hub.Domain.Json.{end}
use order_hub.Domain.Order.{OrderLine}
use order_hub.Application.Preview.{LedgerPay}

pub record SeedCase : Type 0 where
  pub user : String
  pub tenant : String
  pub scene : String
  pub channel : String
  pub note : String
  pub coupons : List String
  pub items : List OrderLine
  pub ledger : Option LedgerPay
  pub after : String

-- A line as its literal leaves it: the other fields are Go's zero values.
abbrev pub seed_line : String → String → String → ℤ → ℤ → OrderLine
seed_line line typ id qty price = record {
  line_id = line;
  object_type = typ;
  object_id = id;
  quantity = qty;
  unit_price = price;
  original_amount = pos 0;
  discount_amount = pos 0;
  payable_amount = pos 0;
  attributes = [];
  snapshot = end;
}

abbrev pub mall_sku : String → ℤ → ℤ → List OrderLine
mall_sku id qty price =
    seed_line "line_1" "sku" id qty price
    ∷ seed_line "line_2" "service" "delivery" (pos 1) (pos 6800)
    ∷ []

abbrev pub one_line : String → String → String → ℤ → ℤ → List OrderLine
one_line line typ id qty price = seed_line line typ id qty price ∷ []

-- A case that names no channel.
abbrev pub seed_case :
    String
    → String
    → String
    → String
    → List String
    → List OrderLine
    → Option LedgerPay
    → String
    → SeedCase
seed_case user tenant scene note coupons items ledger after = record {
  user = user;
  tenant = tenant;
  scene = scene;
  channel = "";
  note = note;
  coupons = coupons;
  items = items;
  ledger = ledger;
  after = after;
}

unfoldable pub seed_cases : List SeedCase
seed_cases =
    seed_case "u_123" "tenant_001" "mall_checkout" "商城待支付+券" ("coupon_001" ∷ [])
      (mall_sku "sku_1001" (pos 2) (pos 10000)) none "pending"
    ∷ seed_case "u_123" "tenant_001" "mall_checkout" "商城待支付无券" []
        (mall_sku "sku_1002" (pos 1) (pos 8900)) none "pending"
    ∷ seed_case "u_101" "tenant_001" "mall_checkout" "商城履约中" ("coupon_001" ∷ [])
        (mall_sku "sku_2001" (pos 1) (pos 15900)) none "pay"
    ∷ seed_case "u_101" "tenant_001" "mall_checkout" "商城已完成" []
        (mall_sku "sku_2002" (pos 3) (pos 3200)) none "complete"
    ∷ seed_case "u_888" "tenant_001" "mall_checkout" "商城已取消" []
        (mall_sku "sku_3001" (pos 1) (pos 12800)) none "cancel"
    ∷ seed_case "u_888" "tenant_001" "mall_checkout" "商城全额退" ("coupon_001" ∷ [])
        (mall_sku "sku_3002" (pos 1) (pos 19900)) none "refund"
    ∷ seed_case "u_123" "tenant_001" "mall_checkout" "商城部分退" []
        (mall_sku "sku_4001" (pos 2) (pos 9900)) none "partial_refund"
    ∷ seed_case "u_123" "tenant_001" "mall_checkout" "混合支付履约中" []
        (mall_sku "sku_5001" (pos 1) (pos 26800))
        (some (record { asset_code = "CNY"; amount = pos 8000 })) "pay"
    ∷ seed_case "u_101" "tenant_001" "point_mall" "积分商城已完成" []
        (one_line "l1" "sku_point" "point_sku_1" (pos 1) (pos 500)) none "confirm_ledger"
    ∷ seed_case "u_888" "tenant_001" "point_mall" "积分商城待确认" []
        (one_line "l1" "sku_point" "point_sku_2" (pos 2) (pos 200)) none "pending"
    ∷ seed_case "u_123" "tenant_001" "membership" "会员年卡已完成" []
        (one_line "l1" "membership" "mem_year" (pos 1) (pos 19900)) none "pay"
    ∷ seed_case "u_101" "tenant_001" "course" "课程已完成" []
        (one_line "l1" "course" "course_go" (pos 1) (pos 9900)) none "pay"
    ∷ seed_case "u_888" "tenant_001" "saas_subscription" "SaaS 订阅已完成" []
        (one_line "l1" "plan" "plan_pro" (pos 1) (pos 29900)) none "pay"
    ∷ seed_case "u_201" "tenant_002" "mall_checkout" "租户二待支付" ("coupon_001" ∷ [])
        (mall_sku "sku_8001" (pos 1) (pos 5600)) none "pending"
    ∷ seed_case "u_201" "tenant_002" "mall_checkout" "租户二已完成" []
        (mall_sku "sku_8002" (pos 2) (pos 4500)) none "complete"
    ∷ seed_case "u_123" "tenant_001" "mall_checkout" "小件待支付" []
        (mall_sku "sku_9001" (pos 1) (pos 1990)) none "pending"
    ∷ seed_case "u_101" "tenant_001" "mall_checkout" "配件待支付" []
        (mall_sku "sku_9002" (pos 4) (pos 1200)) none "pending"
    ∷ seed_case "u_888" "tenant_001" "mall_checkout" "数码履约中" []
        (mall_sku "sku_9003" (pos 1) (pos 49900)) none "pay"
    ∷ seed_case "u_123" "tenant_001" "course" "课程待支付" []
        (one_line "l1" "course" "course_rust" (pos 1) (pos 12900)) none "pending"
    ∷ seed_case "u_101" "tenant_001" "membership" "月卡已取消" []
        (one_line "l1" "membership" "mem_month" (pos 1) (pos 2900)) none "cancel"
    ∷ seed_case "u_888" "tenant_001" "saas_subscription" "基础版待支付" []
        (one_line "l1" "plan" "plan_basic" (pos 1) (pos 9900)) none "pending"
    ∷ seed_case "u_201" "tenant_002" "point_mall" "租户二积分已完成" []
        (one_line "l1" "sku_point" "point_sku_9" (pos 1) (pos 120)) none "confirm_ledger"
    ∷ seed_case "u_123" "tenant_001" "mall_checkout" "已完成大单" ("coupon_001" ∷ [])
        (mall_sku "sku_vip" (pos 1) (pos 89900)) none "complete"
    ∷ seed_case "u_101" "tenant_001" "mall_checkout" "已取消无券" []
        (mall_sku "sku_out" (pos 1) (pos 3300)) none "cancel"
    ∷ []
