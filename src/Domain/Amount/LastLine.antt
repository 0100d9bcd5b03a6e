-- ===== src/Domain/Amount/LastLine.antt =====
-- internal/domain/amount.go: what the last line bears when the other shares round down to nothing.
use order_hub.Prelude.{
  ℕ, ◌+◌, ◌*◌, ◌/◌, ◌^◌, ◌≤◌, ◌<◌, ◌≡◌, refl, sym, ap, ◌∙◌, arith, List, [], ◌∷◌, ◌++◌, map, All,
}
use order_hub.Prelude.Int.{pos, pos_part, ◌<ℤ◌, int_laws}
use order_hub.Domain.Error.{ok}
use order_hub.Domain.Order.{OrderLine}
use order_hub.Domain.Amount.{fill_originals, charge_line, allocate_from, allocate_discount}
use order_hub.Domain.Amount.Build.{wrap64-sub}
use order_hub.Domain.Amount.Allocate.{HasOriginal, last_charged, next_charged}

-- The line's share of the discount `t` of the sum `o` rounds down to 0.
abbrev pub RoundsToZero : ℕ → ℕ → OrderLine → Type 0
RoundsToZero t o l = HasOriginal l × (pos_part l.original_amount * t < o)

below_div : (n o : ℕ) → n < o → n / o ≡ 0
below_div n o h = grind arith

snoc-cons :
    (ls : List OrderLine) (l : OrderLine)
    → (m : OrderLine) × (rest : List OrderLine) × (ls ++ l ∷ [] ≡ m ∷ rest)
snoc-cons [] l = (l, [], refl)
snoc-cons (m ∷ ls) l = (m, ls ++ l ∷ [], refl)

module _ (t o : ℕ) (o_pos : 0 < o) (o_ranged : o < 2 ^ 63) (t_ranged : t < 2 ^ 63) where
  next_rounded :
      (l m : OrderLine) (ls : List OrderLine)
      → RoundsToZero t o l
      → allocate_from (pos t) (pos o) (pos 0) (l ∷ m ∷ ls)
        ≡ charge_line (pos 0) l ∷ allocate_from (pos t) (pos o) (pos 0) (m ∷ ls)
  next_rounded l m ls h =
      let none = below_div (pos_part l.original_amount * t) o h.1 in
      let given : pos_part l.original_amount * t / o ≡ 0 = none in
      let so_far : 0 + pos_part l.original_amount * t / o ≡ 0 = omega arith in
      next_charged t o o_pos t_ranged 0 l m ls h.0.1 (omega arith) (omega arith) ∙ (λ i.
        charge_line (pos (given i)) l ∷ allocate_from (pos t) (pos o) (pos (so_far i)) (m ∷ ls))

  allocate_from-rounded :
      (init : List OrderLine) (last : OrderLine)
      → All (RoundsToZero t o) init
      → allocate_from (pos t) (pos o) (pos 0) (init ++ last ∷ [])
        ≡ map (charge_line (pos 0)) init ++ charge_line (pos t) last ∷ []
  allocate_from-rounded [] last h =
      last_charged t o o_pos t_ranged 0 last (omega arith)
      ∙ ap (λ (d : ℕ). charge_line (pos d) last ∷ []) (omega arith)
  allocate_from-rounded (l ∷ init) last h =
      let (m, rest, e) = snoc-cons init last in
      ap (λ ls. allocate_from (pos t) (pos o) (pos 0) (l ∷ ls)) e
      ∙ next_rounded l m rest h.0
      ∙ ap (λ ls. charge_line (pos 0) l ∷ allocate_from (pos t) (pos o) (pos 0) ls) (sym e)
      ∙ ap (◌∷◌ (charge_line (pos 0) l)) (allocate_from-rounded init last h.1)

  charge_line-negative :
      (l : OrderLine)
      → HasOriginal l
      → pos_part l.original_amount < t
      → (charge_line (pos t) l).payable_amount <ℤ pos 0
  unfolding charge_line
  charge_line-negative l h k =
      rw (wrap64-sub l.original_amount (pos t) h.0 (omega arith) h.1 (omega arith)) (omega int_laws)

  -- For lines whose original amounts are filled in and int64 values that are not negative, with a sum
  -- that is positive and below 2^63, and a discount that is at most this sum: if the share of every
  -- line but the last rounds down to 0, and the last line's original amount is below the discount,
  -- `AllocateDiscount` succeeds, puts the whole discount on the last line, and leaves it a negative
  -- payable amount.
  pub last_line_negative :
      (init : List OrderLine) (last : OrderLine)
      → All (RoundsToZero t o) init
      → HasOriginal last
      → fill_originals (pos 0) (init ++ last ∷ []) ≡ ok (init ++ last ∷ [], pos o)
      → t ≤ o
      → pos_part last.original_amount < t
      → (allocate_discount (init ++ last ∷ []) (pos t)
          ≡ ok (map (charge_line (pos 0)) init ++ charge_line (pos t) last ∷ []))
        × ((charge_line (pos t) last).payable_amount <ℤ pos 0)
  unfolding allocate_discount
  last_line_negative init last h k f le small =
      (ground (arith, allocate_from-rounded init last h), charge_line-negative last k small)
