-- ===== src/Domain/Amount/Allocate.antt =====
-- internal/domain/amount.go: how `AllocateDiscount` spreads a discount over the lines.
use order_hub.Prelude.{
  ℕ, ◌+◌, ◌-◌, ◌*◌, ◌/◌, ◌^◌, ◌≤◌, ◌<◌, ◌≡◌, refl, ap, ◌∙◌, arith, List, [], ◌∷◌, map, All,
  if◌then◌else◌, Bool-cases, inl, inr, dec_lt, true, false,
}
use order_hub.Prelude.Int.{
  ℤ, pos, negsuc, pos_part, ◌+ℤ◌, ◌-ℤ◌, ◌*ℤ◌, quot_ℤ, ◌≤ℤ◌, int_eq, int_laws,
}
use order_hub.Domain.Int64.{wrap64, add64, sub64, mul64, div64, InRange}
use order_hub.Domain.Error.{ok, >>=-ok_inv}
use order_hub.Domain.Order.{OrderLine}
use order_hub.Domain.Amount.{
  add, fill_amount, fill_originals, charge_line, clear_line, allocate_from, allocate_discount,
}
use order_hub.Domain.Amount.Arith.{div-le, add-ok_inv, line_original-ok_inv}
use order_hub.Domain.Amount.Build.{wrap64-sub}

-- The sum of a field over the lines, as an integer.
abbrev pub total_of : (OrderLine → ℤ) → List OrderLine → ℤ
total_of f [] = pos 0
total_of f (l ∷ ls) = f l +ℤ total_of f ls

-- The line's amount before the discount is an int64 that is not negative.
abbrev pub HasOriginal : OrderLine → Type 0
HasOriginal l = InRange l.original_amount × (pos 0 ≤ℤ l.original_amount)

-- The discount is not negative, and what is left to pay is the rest of the line's amount.
abbrev pub IsCharged : OrderLine → Type 0
IsCharged l =
    (pos 0 ≤ℤ l.discount_amount) × (l.discount_amount +ℤ l.payable_amount ≡ l.original_amount)

-- The lines' amounts as a natural number.
abbrev weight : List OrderLine → ℕ
weight [] = 0
weight (l ∷ ls) = pos_part l.original_amount + weight ls

share-eq : (n t o : ℕ) → n * t < 2 ^ 63 → div64 (mul64 (pos n) (pos t)) (pos o) ≡ pos (n * t / o)
unfolding wrap64 ◌*ℤ◌ quot_ℤ
share-eq n t o h = ground (arith, div-le (n * t) o)

nonneg-pos : (z : ℤ) → pos 0 ≤ℤ z → z ≡ pos (pos_part z)
nonneg-pos (pos n) h = refl
nonneg-pos (negsuc n) h = absurd (omega arith)

charge_line-IsCharged :
    (d : ℕ) (l : OrderLine) → d < 2 ^ 63 → HasOriginal l → IsCharged (charge_line (pos d) l)
unfolding charge_line
charge_line-IsCharged d l h k = (
  omega arith,
  rw (wrap64-sub l.original_amount (pos d) k.0 (omega arith) k.1 (omega arith)) (omega int_laws),
)

-- What the loop keeps: with `a` given out, the rest gets no more than its share of `t`.
step_bound :
    (a n w t o : ℕ) → 0 < o → a * o + (n + w) * t ≤ o * t → ((a + n * t / o) * o + w * t ≤ o * t)
step_bound a n w t o h k = grind arith

le_of_bound : (a w t o : ℕ) → 0 < o → a * o + w * t ≤ o * t → a ≤ t
le_of_bound a w t o h k = grind arith

part_bound : (n w t : ℕ) → (n + w) * t < 2 ^ 63 → (n * t < 2 ^ 63) × (w * t < 2 ^ 63)
part_bound n w t h = grind arith

sub64-pos : (t a : ℕ) → a ≤ t → t < 2 ^ 63 → sub64 (pos t) (pos a) ≡ pos (t - a)
unfolding wrap64 ◌-ℤ◌
sub64-pos t a h k = ground arith

add64-pos : (a d : ℕ) → a + d < 2 ^ 63 → add64 (pos a) (pos d) ≡ pos (a + d)
unfolding wrap64 ◌+ℤ◌
add64-pos a d h = ground arith

abbrev pub originals : List OrderLine → List ℤ
originals = map λ (l : OrderLine). l.original_amount

-- The discounts given out from `a` on make up the rest of the total `t`.
record Spread (t a : ℕ) (ls out : List OrderLine) : Type 0 where
  total : total_of (λ l. l.discount_amount) out ≡ pos (t - a)
  charged : All IsCharged out
  kept : originals out ≡ originals ls

module _ (t o : ℕ) (o_pos : 0 < o) (t_ranged : t < 2 ^ 63) where
  pub last_charged :
      (a : ℕ) (l : OrderLine)
      → a ≤ t
      → allocate_from (pos t) (pos o) (pos a) (l ∷ []) ≡ charge_line (pos (t - a)) l ∷ []
  unfolding allocate_from
  last_charged a l h = rw (sub64-pos t a h t_ranged)

  pub next_charged :
      (a : ℕ) (l m : OrderLine) (ls : List OrderLine)
      → pos 0 ≤ℤ l.original_amount
      → pos_part l.original_amount * t < 2 ^ 63
      → a + pos_part l.original_amount * t / o < 2 ^ 63
      → allocate_from (pos t) (pos o) (pos a) (l ∷ m ∷ ls)
        ≡ charge_line (pos (pos_part l.original_amount * t / o)) l
          ∷ allocate_from (pos t) (pos o) (pos (a + pos_part l.original_amount * t / o)) (m ∷ ls)
  unfolding allocate_from
  next_charged a l m ls h k r =
      let d = pos_part l.original_amount * t / o in
      let share : div64 (mul64 l.original_amount (pos t)) (pos o) ≡ pos d =
        ap (λ z. div64 (mul64 z (pos t)) (pos o)) (nonneg-pos l.original_amount h)
        ∙ share-eq (pos_part l.original_amount) t o k in
      rw (share, add64-pos a d r)

  allocate_from-Spread :
      (a : ℕ) (l : OrderLine) (ls : List OrderLine)
      → All HasOriginal (l ∷ ls)
      → weight (l ∷ ls) * t < 2 ^ 63
      → a * o + weight (l ∷ ls) * t ≤ o * t
      → Spread t a (l ∷ ls) (allocate_from (pos t) (pos o) (pos a) (l ∷ ls))
  unfolding charge_line
  allocate_from-Spread a l [] h w b =
      let fits = le_of_bound a (weight (l ∷ [])) t o o_pos b in
      rw (last_charged a l fits) (record {
        total = omega int_laws;
        charged = (charge_line-IsCharged (t - a) l (omega arith) h.0, tt);
        kept = refl;
      })
  allocate_from-Spread a l (m ∷ ls) h w b =
      let n = pos_part l.original_amount in
      let d = n * t / o in
      let parts = part_bound n (weight (m ∷ ls)) t w in
      let bound = step_bound a n (weight (m ∷ ls)) t o o_pos b in
      let fits = le_of_bound (a + d) (weight (m ∷ ls)) t o o_pos bound in
      let rest = allocate_from-Spread (a + d) m ls h.1 parts.1 bound in
      rw (next_charged a l m ls h.0.1 parts.0 (omega arith)) (record {
        total = rw rest.total (omega int_laws);
        charged = (charge_line-IsCharged d l (omega arith) h.0, rest.charged);
        kept = ap (◌∷◌ l.original_amount) rest.kept;
      })

-- What the callers have checked of a line: its fields are int64 values, and its amount, where it
-- is given, is not negative.
abbrev pub IsPriced : OrderLine → Type 0
IsPriced l = InRange l.unit_price × InRange l.quantity × HasOriginal l

-- The amounts that the first loop fills in are int64 values that are not negative, and its result
-- is their exact sum.
record Filled (s : ℕ) (r : List OrderLine × ℤ) : Type 0 where
  originals : All HasOriginal r.0
  sum : r.1 ≡ pos (s + weight r.0)
  small : s + weight r.0 < 2 ^ 63

fill_amount-HasOriginal :
    (l : OrderLine) {r : ℤ} → IsPriced l → fill_amount l ≡ ok r → InRange r × (pos 0 ≤ℤ r)
unfolding fill_amount
fill_amount-HasOriginal l {r} p h = elim (Bool-cases (int_eq l.original_amount (pos 0))) [
  | inl absent ↦
      let q = line_original-ok_inv l.unit_price l.quantity p.0 p.1 (rw absent at h) in (q.3, q.4)
  | inr given ↦ let same : l.original_amount ≡ r = (let h' = rw given at h in cc) in rw (← same) p.2
]

fill_originals-cons :
    (s : ℤ) (l : OrderLine) (ls : List OrderLine) {r : List OrderLine × ℤ}
    → fill_originals s (l ∷ ls) ≡ ok r
    → (o s' : ℤ) × (rest : List OrderLine × ℤ) × (fill_amount l ≡ ok o)
      × (add s o ≡ ok s')
      × (fill_originals s' ls ≡ ok rest)
      × (r ≡ (record l { original_amount = o } ∷ rest.0, rest.1))
unfolding fill_originals
fill_originals-cons s l ls h =
    let (o, e, h₁) = >>=-ok_inv (fill_amount l) _ h in
    let (s', f, h₂) = >>=-ok_inv (add s o) _ h₁ in
    let (rest, g, h₃) = >>=-ok_inv (fill_originals s' ls) _ h₂ in (o, s', rest, e, f, g, cc)

fill_originals-Filled :
    (s : ℕ) (ls : List OrderLine) {r : List OrderLine × ℤ}
    → s < 2 ^ 63
    → All IsPriced ls
    → fill_originals (pos s) ls ≡ ok r
    → Filled s r
unfolding fill_originals
fill_originals-Filled s [] {r} k p h =
    let same : ([], pos s) ≡ r = cc in
    rw (← same) (record { originals = tt; sum = ap pos (omega arith); small = omega arith })
fill_originals-Filled s (l ∷ ls) {r} k p h =
    let (o, s', rest, e, f, g, same) = fill_originals-cons (pos s) l ls h in
    let (ranged, nonneg) = fill_amount-HasOriginal l p.0 e in
    let o_eq = nonneg-pos o nonneg in
    let (s_eq, small) = add-ok_inv s (pos_part o) k ranged.0 (rw o_eq at f) in
    let tail = fill_originals-Filled (s + pos_part o) ls small p.1 (rw s_eq at g) in
    rw same (record {
      originals = ((ranged, nonneg), tail.originals);
      sum = tail.sum ∙ ap pos (omega arith);
      small = omega (arith, tail.small);
    })

-- Every amount is zero if the sum is.
clear_line-Spread :
    (ls : List OrderLine) → All HasOriginal ls → weight ls ≡ 0 → Spread 0 0 ls (map clear_line ls)
unfolding clear_line
clear_line-Spread [] h w = record { total = refl; charged = tt; kept = refl }
clear_line-Spread (l ∷ ls) h w =
    let rest = clear_line-Spread ls h.1 (omega arith) in
    let free = nonneg-pos l.original_amount h.0.1 in
    record {
      total = rw rest.total (omega int_laws);
      charged = ((omega arith, rw free (omega int_laws)), rest.charged);
      kept = ap (◌∷◌ l.original_amount) rest.kept;
    }

-- The tests of `AllocateDiscount`, and its result.
allocate_discount-ok_inv :
    (lines : List OrderLine) (t : ℤ) {r : List OrderLine × ℤ} {out : List OrderLine}
    → fill_originals (pos 0) lines ≡ ok r
    → allocate_discount lines t ≡ ok out
    → (pos 0 ≤ℤ t)
      × (t ≤ℤ r.1)
      × (out ≡ (if int_eq r.1 (pos 0) then map clear_line r.0 else allocate_from t r.1 (pos 0) r.0))
unfolding allocate_discount
allocate_discount-ok_inv lines t f h = ground arith

shares-Spread :
    (ls : List OrderLine) (t : ℕ)
    → All HasOriginal ls
    → t ≤ weight ls
    → weight ls < 2 ^ 63
    → weight ls * t < 2 ^ 63
    → Spread t 0 ls (
        if int_eq (pos (weight ls)) (pos 0)
        then map clear_line ls
        else allocate_from (pos t) (pos (weight ls)) (pos 0) ls)
shares-Spread [] t h le small w = record { total = ap pos (omega arith); charged = tt; kept = refl }
shares-Spread (l ∷ ls) t h le small w = elim (dec_lt 0 (weight (l ∷ ls))) [
  | yes some_left ↦
      let test : int_eq (pos (weight (l ∷ ls))) (pos 0) ≡ false = ground arith in
      rw test
        (allocate_from-Spread t (weight (l ∷ ls)) some_left (omega arith) 0 l ls h w (omega arith))
  | no free ↦
      let test : int_eq (pos (weight (l ∷ ls))) (pos 0) ≡ true = ground arith in
      let none_given : t ≡ 0 = omega arith in
      rw (test, none_given) (clear_line-Spread (l ∷ ls) h (omega arith))
]

-- `AllocateDiscount` on lines whose fields are int64 values and whose amounts are not negative:
-- if it succeeds, and the product of the sum of the amounts with the discount fits an int64, then
-- the lines' discounts sum to exactly the discount, none is negative, each line's payable amount
-- is its original amount less its discount, and the original amounts are those filled in.
pub allocate_discount_spreads :
    (lines : List OrderLine) (total : ℤ) {r : List OrderLine × ℤ} {out : List OrderLine}
    → All IsPriced lines
    → fill_originals (pos 0) lines ≡ ok r
    → pos_part r.1 * pos_part total < 2 ^ 63
    → allocate_discount lines total ≡ ok out
    → (total_of (λ l. l.discount_amount) out ≡ total)
      × All IsCharged out
      × (originals out ≡ originals r.0)
allocate_discount_spreads lines total {r} {out} p f w h =
    let filled = fill_originals-Filled 0 lines (omega arith) p f in
    let (nonneg, le, same) = allocate_discount-ok_inv lines total f h in
    let sum : r.1 ≡ pos (weight r.0) = filled.sum ∙ ap pos (omega arith) in
    let given = nonneg-pos total nonneg in
    let spread =
      shares-Spread r.0 (pos_part total) filled.originals
        (omega (arith, rw sum at (rw given at le))) (omega (arith, filled.small)) (rw sum at w) in
    rw (same, sum, given) (spread.total ∙ ap pos (omega arith), spread.charged, spread.kept)
