-- ===== src/Infra/OfferMock/Reversed.antt =====
-- internal/infra/offerclient/client.go: how far a redemption can be reversed.
use mathlib.Core.Option.{some-injective}
use order_hub.Prelude.{
  Option-cases, String, some, false, ◌≡◌, ◌∙◌, sym, ◌==◌, arith, subst, inl, inr, Bool-cases,
}
use order_hub.Prelude.Int.{ℤ, pos, negsuc, ◌+ℤ◌, ◌-ℤ◌, ltb_ℤ, int_eq, ◌≤ℤ◌}
use order_hub.Prelude.Dict.{lookup, insert, lookup-insert}
use order_hub.Infra.OfferMock.{RedemptionResult, OfferMock, reverse_on, reverse}
use order_hub.Domain.Int64.{add64, sub64, wrap64, InRange}

-- Adding an amount that is at most the rest stays within the discount.
add64-within :
    (discount reversed amount : ℤ)
    → InRange discount
    → pos 0 ≤ℤ reversed
    → reversed ≤ℤ discount
    → pos 0 ≤ℤ amount
    → ltb_ℤ (sub64 discount reversed) amount ≡ false
    → (pos 0 ≤ℤ add64 reversed amount) × (add64 reversed amount ≤ℤ discount)
unfolding wrap64 ◌+ℤ◌ ◌-ℤ◌
add64-within (pos d) (pos r) (pos a) hd h0 h1 h2 h = ground arith
add64-within (pos d) (pos r) (negsuc a) hd h0 h1 h2 h = absurd (omega arith)
add64-within d (negsuc r) a hd h0 h1 h2 h = absurd (omega arith)
add64-within (negsuc d) (pos r) a hd h0 h1 h2 h = absurd (omega arith)

-- What has been reversed lies between nothing and the discount, an int64 value.
abbrev pub IsWithin : RedemptionResult → Type 0
IsWithin rd =
    InRange rd.discount_amount
    × (pos 0 ≤ℤ rd.reversed_amount)
    × (rd.reversed_amount ≤ℤ rd.discount_amount)

abbrev pub AllWithin : OfferMock → Type 0
AllWithin m =
    (id : String) (rd : RedemptionResult) → lookup id m.redemptions ≡ some rd → IsWithin rd

-- A stored redemption that is within its discount keeps all of them so.
pub AllWithin-insert :
    (id : String) (rd : RedemptionResult) (m : OfferMock)
    → IsWithin rd
    → AllWithin m
    → AllWithin (record m { redemptions = insert id rd m.redemptions })
AllWithin-insert id rd m within all other rd' found = elim (Bool-cases (id == other)) [
  | inl same ↦
      subst IsWithin
        (some-injective _ _ (rw (same) at (sym (lookup-insert id other rd m.redemptions) ∙ found)))
        within
  | inr apart ↦
      all other rd' (rw (apart) at (sym (lookup-insert id other rd m.redemptions) ∙ found))
]

nonneg : (a : ℤ) → ltb_ℤ a (pos 0) ≡ false → pos 0 ≤ℤ a
nonneg a h = ground arith

reverse_on-AllWithin :
    (id : String) (rd : RedemptionResult) (amount : ℤ) (m : OfferMock)
    → IsWithin rd
    → AllWithin m
    → AllWithin (reverse_on id rd amount m).1
unfolding reverse_on
reverse_on-AllWithin id rd amount m within all = elim (Bool-cases (int_eq amount (pos 0))) [
  | inl nothing ↦ rw (nothing, reverse_on) all
  | inr something ↦ elim (Bool-cases (ltb_ℤ amount (pos 0))) [
    | inl below ↦ rw (something, below, reverse_on) all
    | inr from_zero ↦
        elim (Bool-cases (ltb_ℤ (sub64 rd.discount_amount rd.reversed_amount) amount)) [
          | inl above ↦ rw (something, from_zero, above, reverse_on) all
          | inr fits ↦
              let (low, high) =
                add64-within rd.discount_amount rd.reversed_amount amount within.0 within.1 within.2
                  (nonneg amount from_zero) fits in
              rw (something, from_zero, fits, reverse_on)
                (AllWithin-insert id
                  (record rd { reversed_amount = add64 rd.reversed_amount amount }) m
                  (within.0, low, high) all)
        ]
  ]
]

-- If every redemption of the offers in memory has reversed an amount between nothing and its
-- discount, an int64 value, then this holds after any reversal, of any amount and of any redemption,
-- there or not.
pub reverse-AllWithin :
    (id : String) (amount : ℤ) (m : OfferMock) → AllWithin m → AllWithin (reverse id amount m).1
unfolding reverse
reverse-AllWithin id amount m all = elim (Option-cases (lookup id m.redemptions)) [
  | inl missing ↦ rw (missing, reverse) all
  | inr (rd, found) ↦ rw (found, reverse) (reverse_on-AllWithin id rd _ m (all id rd found) all)
]
