-- ===== src/Application/Checkout/Price.antt =====
-- internal/application/checkout.go: what is ordered and what it costs, up to the amounts.
use order_hub.Prelude.{
  ℕ, String, ◌==◌, Bool, true, false, ◌&&◌, ◌||◌, not, Option, none, some, List, [], is_empty, ltb,
  if◌then◌else◌,
}
use order_hub.Prelude.Int.{ℤ, pos, int_eq}
use order_hub.Domain.Int64.{sub64}
use order_hub.Domain.Error.{Result, ok, err, bare, wrapped, invalid_argument, quote_stale}
use order_hub.Domain.Json.{Fields}
use order_hub.Domain.Order.{OrderLine, Amounts, PayMethod, PromotionDetail, resolve_pay_method}
use order_hub.Domain.Amount.{sum_original, allocate_discount, build_amounts}
use order_hub.Domain.Scene.{SceneConfig, ledger_is_freeze_capture}
use order_hub.Domain.Hash.{ContextDoc, context_hash}
use order_hub.Port.{Identity, QuoteResult, PreviewSnapshot}
use order_hub.Application.Action.{
  Outside, Action, pure, raise, lift, attempt, ask, ◌>>=◌, ◌>>◌, raise_if, now, fresh_id,
  offer_quote, cache_get, new_order_id,
}
use order_hub.Application.Preview.{LedgerPay, ledger_amount, ledger_asset, validate_lines}

-- `PayMethod` is `none` where the source has the empty string.
pub record CheckoutCmd : Type 0 where
  pub client_order_id : String
  pub scene : String
  pub channel : String
  pub quote_id : String
  pub coupon_ids : List String
  pub items : List OrderLine
  pub pay_method : Option PayMethod
  pub ledger_pay : Option LedgerPay
  pub ext : Option Fields
  pub idempotency_key : String
  pub trace_id : String

-- The results of `resolveSnapshot`.
pub record Resolved : Type 0 where
  pub items : List OrderLine
  pub quote_id : String
  pub coupons : List String
  pub ledger_pay : ℤ
  pub asset : String
  pub ext : Option Fields
  pub promotions : List PromotionDetail

-- A command without a quote stands for itself.
unfoldable pub own_request : CheckoutCmd → Resolved
own_request cmd = record {
  items = cmd.items;
  quote_id = cmd.quote_id;
  coupons = cmd.coupon_ids;
  ledger_pay = ledger_amount cmd.ledger_pay;
  asset = ledger_asset cmd.ledger_pay;
  ext = cmd.ext;
  promotions = [];
}

abbrev is_none : {A : Type 0} → Option A → Bool
is_none none = true
is_none (some _) = false

-- What a command leaves out is taken from the snapshot of its preview.
unfoldable pub from_snapshot : CheckoutCmd → PreviewSnapshot → Resolved
from_snapshot cmd snap = record {
  items = if is_empty cmd.items then snap.items else cmd.items;
  quote_id = cmd.quote_id;
  coupons = if is_empty cmd.coupon_ids then snap.coupon_ids else cmd.coupon_ids;
  ledger_pay = if is_none cmd.ledger_pay then snap.ledger_pay else ledger_amount cmd.ledger_pay;
  asset = if is_none cmd.ledger_pay then snap.asset_code else ledger_asset cmd.ledger_pay;
  ext = if is_none cmd.ext then snap.ext else cmd.ext;
  promotions = snap.promotions;
}

-- The tests of `resolveSnapshot` on the snapshot read at the time `at`.
unfoldable pub check_snapshot :
    (ContextDoc → String) → SceneConfig → CheckoutCmd → ℕ → PreviewSnapshot → Result Resolved
check_snapshot digest scene cmd at snap =
    let r = from_snapshot cmd snap in
    if ltb snap.expires_at at
    then err (bare quote_stale)
    else if not (cmd.scene == snap.scene)
    then err (bare quote_stale)
    else if not (
        context_hash digest (record {
          scene = cmd.scene;
          channel = cmd.channel;
          currency = scene.currency;
          coupon_ids = r.coupons;
          items = r.items;
          ledger_pay = r.ledger_pay;
          asset_code = r.asset;
          ext = r.ext;
        })
        == snap.context_hash)
    then err (bare quote_stale)
    else ok r

-- What the steps before the reservations make out.
pub record Priced : Type 0 where
  pub resolved : Resolved
  pub items : List OrderLine
  pub order_id : String
  pub at : ℕ
  pub quote : QuoteResult
  pub asset : String
  pub amounts : Amounts
  pub pay_method : PayMethod

-- The ledger's part of the payment and its asset: where the scene freezes, an order that names no
-- amount is paid from the ledger as a whole.
unfoldable pub ledger_part : SceneConfig → Resolved → ℤ → ℤ → ℤ × String
ledger_part scene r original discount =
    if ledger_is_freeze_capture scene.ledger && int_eq r.ledger_pay (pos 0)
    then (sub64 original discount, if r.asset == "" then scene.currency else r.asset)
    else (r.ledger_pay, r.asset)

module _ (out : Outside) (digest : ContextDoc → String) where
  unfoldable pub resolve_snapshot : SceneConfig → Identity → CheckoutCmd → Action Resolved
  resolve_snapshot scene ident cmd = do
    resolved ←
        (if cmd.quote_id == "" then pure (own_request cmd) else do
          found ← attempt (ask out.snapshot_reply (cache_get ident.tenant_id cmd.quote_id))
          elim found [
            | err _ ↦ raise (bare quote_stale)
            | ok snap ↦ do at ← now out; lift (check_snapshot digest scene cmd at snap)
          ])
    raise_if (is_empty resolved.items) (wrapped invalid_argument "items required")
    pure resolved

  -- A new quote under another id must still match the snapshot of the old one, if that is there.
  unfoldable pub check_requote : Identity → Resolved → QuoteResult → ℕ → Action (Unit {0})
  check_requote ident r quote at =
      if r.quote_id == "" || quote.quote_id == r.quote_id then pure tt else do
        found ← attempt (ask out.snapshot_reply (cache_get ident.tenant_id r.quote_id))
        elim found [
          | err _ ↦ pure tt
          | ok snap ↦
              raise_if
                (not (int_eq snap.discount_amount quote.discount_amount) || ltb snap.expires_at at)
                (bare quote_stale)
        ]

  unfoldable pub price : SceneConfig → Identity → CheckoutCmd → Action Priced
  price scene ident cmd = do
    resolved ← resolve_snapshot scene ident cmd
    lift (validate_lines resolved.items)
    summed ← lift (sum_original resolved.items)
    at ← now out
    order_id ← fresh_id out new_order_id
    quote ← ask out.quote_reply (
        offer_quote (record {
          tenant_id = ident.tenant_id;
          user_id = ident.user_id;
          order_id = order_id;
          scene = cmd.scene;
          channel = cmd.channel;
          currency = scene.currency;
          coupon_ids = resolved.coupons;
          auto_best = is_empty resolved.coupons;
          items = summed.0;
          attributes = ident.attributes;
          context = resolved.ext;
        }))
    raise_if (not (quote.currency == scene.currency) || not (int_eq quote.original_amount summed.1))
        (bare quote_stale)
    check_requote ident resolved quote at
    items ← lift (allocate_discount summed.0 quote.discount_amount)
    let part = ledger_part scene resolved summed.1 quote.discount_amount
    amounts ← lift (build_amounts scene.currency summed.1 quote.discount_amount part.0)
    pure (record {
      resolved = resolved;
      items = items;
      order_id = order_id;
      at = at;
      quote = quote;
      asset = part.1;
      amounts = amounts;
      pay_method = elim cmd.pay_method [
        | some m ↦ m
        | none ↦ resolve_pay_method amounts.ledger_pay amounts.channel_pay
      ];
    })
