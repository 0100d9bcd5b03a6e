-- ===== src/Application/Preview.antt =====
-- internal/application/preview.go: `PreviewService`.
use order_hub.Prelude.{
  ℕ, ◌+◌, ◌*◌, String, ◌<>◌, ◌==◌, Bool, ◌&&◌, ◌||◌, not, Option, none, some, List, [], ◌∷◌, any,
  is_empty, nat_eq, if◌then◌else◌,
}
use order_hub.Prelude.Int.{ℤ, pos, ltb_ℤ, leb_ℤ, int_eq}
use order_hub.Prelude.Dict.{Dict}
use order_hub.Domain.Error.{Result, ok, err, bare, wrapped, invalid_argument, quote_stale, fail_if}
use order_hub.Domain.Error
use order_hub.Domain.Json.{Fields}
use order_hub.Domain.Order.{OrderLine, Amounts, Allocation}
use order_hub.Domain.Amount.{sum_original, allocate_discount, build_amounts}
use order_hub.Domain.Scene.{SceneConfig, ledger_is_freeze_capture, minute}
use order_hub.Domain.Hash.{ContextDoc, context_hash}
use order_hub.Port.{Identity, QuoteResult}
use order_hub.Application.Action.{
  Outside, Action, pure, lift, attempt, ignore, ask, ◌>>=◌, ◌>>◌, raise_if, now, call_unit,
  offer_quote, ledger_balance, cache_put,
}
use order_hub.Application.Close.{find_scene}

pub record LedgerPay : Type 0 where
  pub asset_code : String
  pub amount : ℤ

pub record PreviewCmd : Type 0 where
  pub scene : String
  pub channel : String
  pub coupon_ids : List String
  pub auto_best : Bool
  pub items : List OrderLine
  pub ledger_pay : Option LedgerPay
  pub ext : Option Fields

pub record PreviewResult : Type 0 where
  pub quote_id : String
  pub original_amount : ℤ
  pub discount_amount : ℤ
  pub payable_amount : ℤ
  pub allocations : List Allocation
  pub ledger_pay_amount : ℤ
  pub channel_pay_amount : ℤ
  pub currency : String
  pub expires_at : ℕ
  pub ledger_balance : Option ℤ
  pub context_hash : String

-- One round of the loop of `validateLines`, with the ids seen so far.
unfoldable pub check_item : List String → OrderLine → Result (Unit {0})
check_item seen it =
    if it.line_id == "" || it.object_type == "" || it.object_id == ""
    then err (wrapped invalid_argument "line fields")
    else if any (λ id. id == it.line_id) seen
    then err (wrapped invalid_argument ("duplicate line_id " <> it.line_id))
    else fail_if (leb_ℤ it.quantity (pos 0) || ltb_ℤ it.unit_price (pos 0))
        (wrapped invalid_argument "quantity/unit_price")

unfoldable pub check_items : List String → List OrderLine → Result (Unit {0})
check_items seen [] = ok tt
check_items seen (it ∷ items) =
    Error.◌>>=◌ (check_item seen it) λ _. check_items (it.line_id ∷ seen) items

unfoldable pub validate_lines : List OrderLine → Result (Unit {0})
validate_lines items =
    if is_empty items then err (wrapped invalid_argument "items required") else check_items [] items

abbrev pub ledger_amount : Option LedgerPay → ℤ
ledger_amount none = pos 0
ledger_amount (some p) = p.amount

abbrev pub ledger_asset : Option LedgerPay → String
ledger_asset none = ""
ledger_asset (some p) = p.asset_code

-- The amounts of a preview: where the scene freezes, an order that names no ledger payment is paid
-- from the ledger as a whole.
unfoldable pub preview_amounts : SceneConfig → ℤ → ℤ → ℤ → Result Amounts
preview_amounts scene original discount ledger_pay =
    Error.◌>>=◌ (build_amounts scene.currency original discount ledger_pay) λ a.
      if ledger_is_freeze_capture scene.ledger && int_eq ledger_pay (pos 0)
      then build_amounts scene.currency original discount a.payable
      else ok a

module _ (out : Outside) (digest : ContextDoc → String) where
  -- The balance is asked for an asset that is named; a failure leaves it out.
  unfoldable pub ask_balance : Identity → String → Action (Option ℤ)
  ask_balance ident asset = if asset == "" then pure none else do
    answer ← attempt (ask out.balance_reply (ledger_balance ident.tenant_id ident.user_id asset))
    elim answer [ ok b ↦ pure (some b) | err _ ↦ pure none ]

  -- A quote that names no time expires in five minutes.
  unfoldable pub expiry : QuoteResult → Action ℕ
  expiry q =
      if not (nat_eq q.expires_at 0)
      then pure q.expires_at
      else do at ← now out; pure (at + 5 * minute)

  unfoldable pub preview : Dict SceneConfig → Identity → PreviewCmd → Action PreviewResult
  preview scenes ident cmd = do
    scene ← lift (find_scene scenes cmd.scene)
    let channel = if cmd.channel == "" then "app" else cmd.channel
    lift (validate_lines cmd.items)
    summed ← lift (sum_original cmd.items)
    quote ← ask out.quote_reply (
        offer_quote (record {
          tenant_id = ident.tenant_id;
          user_id = ident.user_id;
          order_id = "preview:" <> ident.user_id;
          scene = cmd.scene;
          channel = channel;
          currency = scene.currency;
          coupon_ids = cmd.coupon_ids;
          auto_best = cmd.auto_best;
          items = summed.0;
          attributes = ident.attributes;
          context = cmd.ext;
        }))
    raise_if (not (quote.currency == scene.currency) || not (int_eq quote.original_amount summed.1))
        (bare quote_stale)
    items ← lift (allocate_discount summed.0 quote.discount_amount)
    let asked = ledger_amount cmd.ledger_pay
    amounts ← lift (preview_amounts scene summed.1 quote.discount_amount asked)
    let whole = ledger_is_freeze_capture scene.ledger && int_eq asked (pos 0)
    let ledger_pay = if whole then amounts.ledger_pay else asked
    let named = ledger_asset cmd.ledger_pay
    let asset = if whole && named == "" then scene.currency else named
    balance ← ask_balance ident asset
    let hash = context_hash digest (record {
      scene = cmd.scene;
      channel = channel;
      currency = scene.currency;
      coupon_ids = cmd.coupon_ids;
      items = items;
      ledger_pay = ledger_pay;
      asset_code = asset;
      ext = cmd.ext;
    })
    expires ← expiry quote
    ignore (
        call_unit out (
          cache_put ident.tenant_id ident.user_id quote.quote_id (record {
            quote_id = quote.quote_id;
            context_hash = hash;
            scene = cmd.scene;
            channel = channel;
            currency = scene.currency;
            coupon_ids = cmd.coupon_ids;
            items = items;
            allocations = quote.allocations;
            promotions = quote.promotions;
            original_amount = amounts.original;
            discount_amount = amounts.discount;
            payable_amount = amounts.payable;
            ledger_pay = amounts.ledger_pay;
            asset_code = asset;
            channel_pay = amounts.channel_pay;
            ext = cmd.ext;
            expires_at = expires;
            subject_attrs = ident.attributes;
          })))
    pure (record {
      quote_id = quote.quote_id;
      original_amount = amounts.original;
      discount_amount = amounts.discount;
      payable_amount = amounts.payable;
      allocations = quote.allocations;
      ledger_pay_amount = amounts.ledger_pay;
      channel_pay_amount = amounts.channel_pay;
      currency = amounts.currency;
      expires_at = expires;
      ledger_balance = balance;
      context_hash = hash;
    })
