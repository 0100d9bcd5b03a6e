-- ===== src/Infra/Rows/Reload.antt =====
-- internal/infra/persistence/models.go: an order that was written to rows and read again.
use mathlib.Core.Path.{ap₂}
use order_hub.Prelude.{
  if◌then◌else◌, ℕ, ◌≡◌, ◌≢◌, refl, ◌<>◌, text-differs, none, some, All, List, [], ◌∷◌, map, nat_eq,
  Bool-cases, inl, inr, arith,
}
use order_hub.Domain.Order.{Order, OrderLine}
use order_hub.Infra.Rows.{Codec, order_to_po, line_to_po, lines_to_po, po_to_line, po_to_order}

-- What the codec writes of a line is not empty and reads back as it was.
abbrev pub LineReadsBack : Codec → OrderLine → Type 0
LineReadsBack json l =
    (json.attributes_text l.attributes ≢ "")
    × (json.attributes_of (json.attributes_text l.attributes) ≡ l.attributes)
    × (json.snapshot_text l.snapshot ≢ "")
    × (json.snapshot_of (json.snapshot_text l.snapshot) ≡ l.snapshot)

-- The same of an order's context and of its lines.
pub record ReadsBack (json : Codec) (o : Order) : Type 0 where
  pub context_written : json.context_text o.context ≢ ""
  pub context_read : json.context_of (json.context_text o.context) ≡ o.context
  pub lines_read : All (LineReadsBack json) o.lines

po_to_line-line_to_po :
    (json : Codec) (o : Order) (l : OrderLine)
    → LineReadsBack json l
    → po_to_line json (line_to_po json o l) ≡ l
unfolding po_to_line line_to_po
po_to_line-line_to_po json o l (written, read, written', read') =
    rw (text-differs written, text-differs written', read, read', po_to_line, line_to_po) refl

lines_back :
    (json : Codec) (o : Order) (ls : List OrderLine)
    → All (LineReadsBack json) ls
    → map (po_to_line json) (map (line_to_po json o) ls) ≡ ls
lines_back json o [] law = refl
lines_back json o (l ∷ ls) law =
    ap₂ ◌∷◌ (po_to_line-line_to_po json o l law.0) (lines_back json o ls law.1)

expire_back :
    (at : ℕ) → (elim (if nat_eq at 0 then none else some at) [ none ↦ 0 | some t ↦ t ]) ≡ at
expire_back at = elim (Bool-cases (nat_eq at 0)) [
  | inl zero_time ↦ rw zero_time (ground arith)
  | inr set ↦ rw set refl
]

-- If the codec reads back what it writes of an order, then that order, when it is written to rows and read again, is the
-- order with the business number of its freeze made anew from its id, and without its promotions and
-- its ledger legs.
pub po_to_order-order_to_po :
    (json : Codec) (o : Order)
    → ReadsBack json o
    → po_to_order json (order_to_po json o) (lines_to_po json o) ≡ record o {
      ledger = record (o.ledger) { biz_no = "order:freeze:" <> o.order_id };
      promotions = [];
      ledger_legs = [];
    }
unfolding po_to_order order_to_po lines_to_po
po_to_order-order_to_po json o law =
    rw
      (
        text-differs law.context_written,
        law.context_read,
        lines_back json o o.lines law.lines_read,
        po_to_order,
        order_to_po,
        lines_to_po,
        expire_back o.expire_at,
      )
      refl
