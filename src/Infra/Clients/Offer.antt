-- ===== src/Infra/Clients/Offer.antt =====
-- internal/infra/offerclient/client.go: `Client`.
use order_hub.Prelude.{
  String, ◌<>◌, Bool, true, false, Option, none, some, List, [], ◌∷◌, if◌then◌else◌,
}
use order_hub.Prelude.Int.{ℤ, pos, ltb_ℤ}
use order_hub.Prelude.Dict.{Dict}
use order_hub.Domain.Int64.{add64, mul64}
use order_hub.Domain.Json.{
  Json, null, bool, num, str, arr, obj, Items, nil, cons, Fields, end, field,
}
use order_hub.Domain.Error.{Result, ok, ◌>>=◌}
use order_hub.Domain.Order.{OrderLine}
use order_hub.Port.{QuoteRequest, QuoteResult, ReservationResult}
use order_hub.Infra.OfferMock.{RedemptionResult}
use order_hub.Infra.OfferWire.{QuoteWire, map_quote}
use order_hub.Infra.Clients.{HttpRequest, Wiring, set_header, exchange}

-- The readings of the answers.
pub record OfferJson : Type 0 where
  pub quote_wire : String → Result QuoteWire
  pub reservation : String → Result ReservationResult
  pub redemption : String → Result RedemptionResult

-- The headers that `do` sets.
unfoldable pub offer_headers : Bool → String → String → String → Dict String
offer_headers has_body tenant_id api_key idem_key =
    let content = if has_body then set_header "Content-Type" "application/json" [] else [] in
    set_header "Idempotency-Key" idem_key
      (set_header "X-API-Key" api_key (set_header "X-Tenant-Id" tenant_id content))

-- The request of `do`; its callers send a payload with POST and none with GET.
unfoldable pub offer_request :
    Wiring → String → String → String → String → Option Json → HttpRequest
offer_request hub method tenant_id idem_key path payload = record {
  method = method;
  url = hub.base <> path;
  headers =
      offer_headers (elim payload [ none ↦ false | some _ ↦ true ]) tenant_id hub.api_key idem_key;
  body = payload;
}

abbrev pub texts : List String → Items
texts [] = nil
texts (s ∷ rest) = cons (str s) (texts rest)

abbrev pub attributes : List (String × String) → Fields
attributes [] = end
attributes (entry ∷ rest) = field entry.0 (str entry.1) (attributes rest)

-- An item of the body of a quote; attributes are sent where there are any.
unfoldable pub quote_item : OrderLine → Json
quote_item it = obj (
    field "line_id" (str it.line_id) (
      field "object_type" (str it.object_type) (
        field "object_id" (str it.object_id) (
          field "quantity" (num it.quantity) (
            field "unit_price" (num it.unit_price) (elim it.attributes [
              | [] ↦ end
              | entry ∷ rest ↦ field "attributes" (obj (attributes (entry ∷ rest))) end
            ]))))))

unfoldable pub quote_items : List OrderLine → Items
quote_items [] = nil
quote_items (it ∷ rest) = cons (quote_item it) (quote_items rest)

-- `original`, the sum over the items.
unfoldable pub quoted_sum : ℤ → List OrderLine → ℤ
quoted_sum sum [] = sum
quoted_sum sum (it ∷ rest) = quoted_sum (add64 sum (mul64 it.unit_price it.quantity)) rest

abbrev pub context_json : Option Fields → Json
context_json none = null
context_json (some fields) = obj fields

unfoldable pub quote_body : QuoteRequest → Json
quote_body req = obj (
    field "scene" (str req.scene) (
      field "subject"
        (obj (
          field "type" (str "user")
            (field "id" (str req.user_id) (field "attributes" (obj req.attributes) end))))
        (field "transaction"
          (obj (
            field "id" (str req.order_id) (
              field "amount" (num (quoted_sum (pos 0) req.items))
                (field "currency" (str req.currency) (field "channel" (str req.channel) end)))))
          (field "items" (arr (quote_items req.items)) (
            field "auto_best" (bool req.auto_best) (
              field "selected_coupon_ids" (arr (texts req.coupon_ids))
                (field "context" (context_json req.context) end)))))))

-- A reading for a caller that wants no value.
abbrev pub any_text : String → Result (Unit {0})
any_text raw = ok tt

module _ (hub : Wiring) (reads : OfferJson) where
  unfoldable pub quote : QuoteRequest → Result QuoteResult
  quote req =
      exchange hub reads.quote_wire (
        offer_request hub "POST" req.tenant_id "" "/api/discount/v1/quotes" (some (quote_body req)))
      >>= λ wire. ok (map_quote wire)

  unfoldable pub reserve : String → String → String → String → Result ReservationResult
  reserve tenant_id quote_id order_id idem_key = exchange hub reads.reservation (
      offer_request hub "POST" tenant_id idem_key "/api/discount/v1/reservations" (
        some
          (obj (field "quote_id" (str quote_id) (field "business_order_id" (str order_id) end)))))

  -- A POST with an empty object under a reservation.
  abbrev pub on_reservation :
      {A : Type 0} → (String → Result A) → String → String → String → String → Result A
  on_reservation read tenant_id reservation_id idem_key verb = exchange hub read (
      offer_request hub "POST" tenant_id idem_key
        ("/api/discount/v1/reservations/" <> reservation_id <> verb) (some (obj end)))

  unfoldable pub commit : String → String → String → Result String
  commit tenant_id reservation_id idem_key =
      on_reservation reads.redemption tenant_id reservation_id idem_key "/commit" >>= λ out.
      ok out.redemption_id

  unfoldable pub release : String → String → String → Result (Unit {0})
  release tenant_id reservation_id idem_key =
      on_reservation any_text tenant_id reservation_id idem_key "/release"

  unfoldable pub renew : String → String → String → Result (Unit {0})
  renew tenant_id reservation_id idem_key =
      on_reservation any_text tenant_id reservation_id idem_key "/renew"

  -- An amount that is not positive is left out, and stands for all that is left.
  unfoldable pub reverse : String → String → ℤ → String → Result (Unit {0})
  reverse tenant_id redemption_id amount idem_key = exchange hub any_text (
      offer_request hub "POST" tenant_id idem_key
        ("/api/discount/v1/redemptions/" <> redemption_id <> "/reverse")
        (some (obj (if ltb_ℤ (pos 0) amount then field "amount" (num amount) end else end))))

  unfoldable pub get_reservation : String → String → Result ReservationResult
  get_reservation tenant_id reservation_id = exchange hub reads.reservation (
      offer_request hub "GET" tenant_id "" ("/api/discount/v1/reservations/" <> reservation_id)
        none)

  unfoldable pub get_redemption : String → String → Result RedemptionResult
  get_redemption tenant_id redemption_id =
      exchange hub reads.redemption (
        offer_request hub "GET" tenant_id "" ("/api/discount/v1/redemptions/" <> redemption_id)
          none)
