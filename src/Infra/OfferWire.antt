-- ===== src/Infra/OfferWire.antt =====
-- internal/infra/offerclient/client.go: a quote as the offers' program sends it, read into the port's.
use order_hub.Prelude.{
  ℕ, String, none, some, List, [], ◌∷◌, map, ◌==◌, ◌≡◌, refl, ap, ◌∙◌, inl, inr, Bool-cases, eq_iff,
  if◌then◌else◌,
}
use order_hub.Prelude.Int.{ℤ, pos}
use order_hub.Prelude.Dict.{Dict, lookup, insert, lookup-insert}
use order_hub.Domain.Int64.{add64}
use order_hub.Domain.Order.{Allocation, PromotionDetail}
use order_hub.Port.{QuoteResult}

pub record WireApplication : Type 0 where
  pub source_type : String
  pub source_id : String
  pub discount_amount : ℤ
  pub allocations : List Allocation

pub record QuoteWire : Type 0 where
  pub quote_id : String
  pub currency : String
  pub original_amount : ℤ
  pub discount_amount : ℤ
  pub payable_amount : ℤ
  pub expires_at : ℕ
  pub context_hash : String
  pub applications : List WireApplication

-- `byLine[id]`, with the zero value for a missing key.
unfoldable pub line_discount : String → Dict ℤ → ℤ
line_discount id by_line = elim (lookup id by_line) [ none ↦ pos 0 | some d ↦ d ]

-- `byLine[a.LineID] += a.DiscountAmount` for each of the allocations.
unfoldable pub add_allocations : Dict ℤ → List Allocation → Dict ℤ
add_allocations by_line [] = by_line
add_allocations by_line (a ∷ rest) =
    add_allocations
      (insert a.line_id (add64 (line_discount a.line_id by_line) a.discount_amount) by_line) rest

unfoldable pub add_applications : Dict ℤ → List WireApplication → Dict ℤ
add_applications by_line [] = by_line
add_applications by_line (app ∷ rest) =
    add_applications (add_allocations by_line app.allocations) rest

abbrev pub promotion_of : WireApplication → PromotionDetail
promotion_of app = record {
  source_type = app.source_type;
  source_id = app.source_id;
  discount_amount = app.discount_amount;
  allocations = app.allocations;
  rule_snapshot_version = "";
}

abbrev pub line_allocation : String × ℤ → Allocation
line_allocation entry = record { line_id = entry.0; discount_amount = entry.1 }

unfoldable pub map_quote : QuoteWire → QuoteResult
map_quote wire = record {
  quote_id = wire.quote_id;
  currency = wire.currency;
  original_amount = wire.original_amount;
  discount_amount = wire.discount_amount;
  payable_amount = wire.payable_amount;
  allocations = map line_allocation (add_applications [] wire.applications);
  promotions = map promotion_of wire.applications;
  expires_at = wire.expires_at;
  context_hash = wire.context_hash;
}

-- All that is allocated to a line, wrapped to an int64 at each step.
unfoldable pub allocated : String → ℤ → List Allocation → ℤ
allocated id sum [] = sum
allocated id sum (a ∷ rest) =
    allocated id (if a.line_id == id then add64 sum a.discount_amount else sum) rest

added :
    (id : String) (a : Allocation) (by_line : Dict ℤ)
    → line_discount id
        (insert a.line_id (add64 (line_discount a.line_id by_line) a.discount_amount) by_line)
      ≡ (if a.line_id == id
          then add64 (line_discount id by_line) a.discount_amount
          else line_discount id by_line)
unfolding line_discount
added id a by_line = elim (Bool-cases (a.line_id == id)) [
  | inl same ↦
      rw (lookup-insert a.line_id id _ by_line, same, line_discount)
        (ap (λ k. add64 (line_discount k by_line) a.discount_amount) ((eq_iff a.line_id id).0 same))
  | inr apart ↦ rw (lookup-insert a.line_id id _ by_line, apart, line_discount) refl
]

-- What the map holds for a line is the sum of the line's allocations.
line_discount-add_allocations :
    (id : String) (allocations : List Allocation) (by_line : Dict ℤ)
    → line_discount id (add_allocations by_line allocations)
      ≡ allocated id (line_discount id by_line) allocations
unfolding add_allocations allocated
line_discount-add_allocations id [] by_line = refl
line_discount-add_allocations id (a ∷ rest) by_line =
    line_discount-add_allocations id rest _ ∙ ap (λ d. allocated id d rest) (added id a by_line)
