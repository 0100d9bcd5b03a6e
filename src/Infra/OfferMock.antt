-- ===== src/Infra/OfferMock.antt =====
-- internal/infra/offerclient/client.go: the offers of a run without other programs. `show` is `%d`,
-- `at` the reading of the clock.
pub mod Reversed
use order_hub.Prelude.{
  ℕ, suc, ◌+◌, ◌*◌, String, ◌<>◌, ◌==◌, Option, none, some, Bool, not, ◌||◌, List, [], ◌∷◌,
  if◌then◌else◌,
}
use order_hub.Prelude.Int.{ℤ, pos, ltb_ℤ, leb_ℤ, int_eq}
use order_hub.Prelude.Dict.{Dict, lookup, insert}
use order_hub.Domain.Int64.{add64, sub64, mul64, div64}
use order_hub.Domain.Error.{Result, ok, err, bare, offer_reserve, order_not_found, invalid_argument}
use order_hub.Domain.Scene.{minute}
use order_hub.Domain.Order.{OrderLine, Allocation, PromotionDetail}
use order_hub.Port.{QuoteRequest, QuoteResult, ReservationResult}

pub record MockReservation : Type 0 where
  pub quote_id : String
  pub order_id : String
  pub status : String
  pub expires : ℕ
  pub redemption_id : String

pub record RedemptionResult : Type 0 where
  pub redemption_id : String
  pub reservation_id : String
  pub discount_amount : ℤ
  pub reversed_amount : ℤ

pub record OfferMock : Type 0 where
  pub seq : ℕ
  pub quotes : Dict QuoteResult
  pub reservations : Dict MockReservation
  pub redemptions : Dict RedemptionResult
  pub renews : Dict ℕ

abbrev pub new_mock : OfferMock
new_mock = record { seq = 0; quotes = []; reservations = []; redemptions = []; renews = [] }

abbrev pub line_price : OrderLine → ℤ
line_price it = mul64 it.unit_price it.quantity

unfoldable pub price_from : ℤ → List OrderLine → ℤ
price_from original [] = original
price_from original (it ∷ items) = price_from (add64 original (line_price it)) items

-- The loop over the items, with the discount used so far: the last one takes the rest.
unfoldable pub share_out : ℤ → ℤ → ℤ → List OrderLine → List Allocation
share_out original discount used [] = []
share_out original discount used (it ∷ []) =
    record { line_id = it.line_id; discount_amount = sub64 discount used } ∷ []
share_out original discount used (it ∷ next ∷ rest) =
    let share =
      if ltb_ℤ (pos 0) original then div64 (mul64 (line_price it) discount) original else pos 0 in
    let used' = if ltb_ℤ (pos 0) original then add64 used share else used in
    record { line_id = it.line_id; discount_amount = share }
    ∷ share_out original discount used' (next ∷ rest)

-- The discount is a tenth where the request names a coupon.
unfoldable pub mock_discount : List String → ℤ → ℤ
mock_discount [] original = pos 0
mock_discount (_ ∷ _) original = div64 original (pos 10)

unfoldable pub mock_promotions : List String → ℤ → List Allocation → List PromotionDetail
mock_promotions [] discount shares = []
mock_promotions (coupon ∷ _) discount shares =
    record {
      source_type = "coupon";
      source_id = coupon;
      discount_amount = discount;
      allocations = shares;
      rule_snapshot_version = "";
    }
    ∷ []

unfoldable pub quote : (ℕ → String) → ℕ → QuoteRequest → OfferMock → QuoteResult × OfferMock
quote show at req m =
    let original = price_from (pos 0) req.items in
    let discount = mock_discount req.coupon_ids original in
    let id = "quote_" <> show (suc m.seq) in
    let shares = share_out original discount (pos 0) req.items in
    let result : QuoteResult = record {
      quote_id = id;
      currency = req.currency;
      original_amount = original;
      discount_amount = discount;
      payable_amount = sub64 original discount;
      allocations = shares;
      promotions = mock_promotions req.coupon_ids discount shares;
      expires_at = at + 5 * minute;
      context_hash = "";
    } in
    (result, record m { seq = suc m.seq; quotes = insert id result m.quotes })

unfoldable pub reserve : ℕ → String → String → OfferMock → Result ReservationResult × OfferMock
reserve at quote_id order_id m = elim (lookup quote_id m.quotes) [
  | none ↦ (err (bare offer_reserve), m)
  | some _ ↦
      let id = "rsv_" <> order_id in
      let expires = at + 15 * minute in
      (
        ok (record {
          reservation_id = id;
          quote_id = quote_id;
          expires_at = expires;
          status = "ACTIVE";
        }),
        record m {
          reservations =
              insert id
                (record {
                  quote_id = quote_id;
                  order_id = order_id;
                  status = "ACTIVE";
                  expires = expires;
                  redemption_id = "";
                })
                m.reservations;
        },
      )
]

-- The discount of the quote of a reservation, 0 for a quote that is not there.
unfoldable pub quoted_discount : String → OfferMock → ℤ
quoted_discount quote_id m = elim (lookup quote_id m.quotes) [
  | none ↦ pos 0
  | some q ↦ q.discount_amount
]

-- What the first `Commit` of a reservation leaves.
unfoldable pub redeemed : String → MockReservation → OfferMock → OfferMock
redeemed id rsv m =
    let redemption = "rd_" <> id in
    record m {
      reservations =
          insert id (record rsv { status = "COMMITTED"; redemption_id = redemption })
            m.reservations;
      redemptions =
          insert redemption
            (record {
              redemption_id = redemption;
              reservation_id = id;
              discount_amount = quoted_discount rsv.quote_id m;
              reversed_amount = pos 0;
            })
            m.redemptions;
    }

-- `Commit` on a reservation that is there.
unfoldable pub commit_on : String → MockReservation → OfferMock → Result String × OfferMock
commit_on id rsv m =
    if rsv.status == "RELEASED"
    then (err (bare offer_reserve), m)
    else if not (rsv.redemption_id == "")
    then (ok rsv.redemption_id, m)
    else (ok ("rd_" <> id), redeemed id rsv m)

unfoldable pub commit : String → OfferMock → Result String × OfferMock
commit id m = elim (lookup id m.reservations) [
  | none ↦ (err (bare offer_reserve), m)
  | some rsv ↦ commit_on id rsv m
]

-- `ForceStatus`.
unfoldable pub force_status : String → String → OfferMock → OfferMock
force_status id status m = elim (lookup id m.reservations) [
  | none ↦ m
  | some rsv ↦ record m { reservations = insert id (record rsv { status = status }) m.reservations }
]

unfoldable pub release : String → OfferMock → OfferMock
release id m = elim (lookup id m.reservations) [
  | none ↦ m
  | some rsv ↦ record m {
    reservations = insert id (record rsv { status = "RELEASED" }) m.reservations;
  }
]

-- `RenewCount`: `m.renews[id]`, with the zero value for a missing key.
unfoldable pub renew_count : String → OfferMock → ℕ
renew_count id m = elim (lookup id m.renews) [ none ↦ 0 | some n ↦ n ]

unfoldable pub renew : ℕ → String → OfferMock → Result (Unit {0}) × OfferMock
renew at id m = elim (lookup id m.reservations) [
  | none ↦ (err (bare offer_reserve), m)
  | some rsv ↦ if not (rsv.status == "ACTIVE") then (err (bare offer_reserve), m) else (
    ok tt,
    record m {
      renews = insert id (suc (renew_count id m)) m.renews;
      reservations = insert id (record rsv { expires = at + 15 * minute }) m.reservations;
    },
  )
]

-- `Reverse` on a redemption that is there, whose amount is settled.
unfoldable pub reverse_on :
    String → RedemptionResult → ℤ → OfferMock → Result (Unit {0}) × OfferMock
reverse_on id rd amount m =
    if int_eq amount (pos 0)
    then (ok tt, m)
    else if ltb_ℤ amount (pos 0) || ltb_ℤ (sub64 rd.discount_amount rd.reversed_amount) amount
    then (err (bare invalid_argument), m)
    else (
      ok tt,
      record m {
        redemptions =
            insert id (record rd { reversed_amount = add64 rd.reversed_amount amount })
              m.redemptions;
      },
    )

-- `Reverse`: an amount of 0 or less means all that is left.
unfoldable pub reverse : String → ℤ → OfferMock → Result (Unit {0}) × OfferMock
reverse id amount m = elim (lookup id m.redemptions) [
  | none ↦ (err (bare order_not_found), m)
  | some rd ↦
      reverse_on id rd
        (if leb_ℤ amount (pos 0) then sub64 rd.discount_amount rd.reversed_amount else amount) m
]

unfoldable pub get_reservation : String → OfferMock → Result ReservationResult
get_reservation id m = elim (lookup id m.reservations) [
  | none ↦ err (bare order_not_found)
  | some rsv ↦ ok (record {
    reservation_id = id;
    quote_id = rsv.quote_id;
    expires_at = rsv.expires;
    status = rsv.status;
  })
]

unfoldable pub get_redemption : String → OfferMock → Result RedemptionResult
get_redemption id m = elim (lookup id m.redemptions) [
  | none ↦ err (bare order_not_found)
  | some rd ↦ ok rd
]
