-- ===== src/Domain/Amount/Arith.antt =====
-- internal/domain/amount.go: the checked operations against the integers.
use order_hub.Prelude.{
  ℕ, suc, ◌+◌, ◌-◌, ◌*◌, ◌/◌, ◌%◌, ◌^◌, ◌≤◌, ◌<◌, ◌≡◌, refl, ap, ◌∙◌, arith, dec_lt,
}
use order_hub.Prelude.Int.{
  ℤ, pos, negsuc, neg_part, ◌+ℤ◌, ◌-ℤ◌, int_laws, ◌*ℤ◌, ◌≤ℤ◌, *ℤ-pos, quot_ℤ, +ℤ_parts,
}
use order_hub.Domain.Int64.{wrap64, InRange, wrap64-eq_of_InRange}
use order_hub.Domain.Error.{ok, err, bare, overflow}
use order_hub.Domain.Amount.{add, sub, mul, line_original}

-- A sum of two int64 values that is representable is returned exactly.
pub add-eq_ok : (a b : ℤ) → InRange a → InRange b → InRange (a +ℤ b) → add a b ≡ ok (a +ℤ b)
unfolding add
add-eq_ok a b ha hb h = ground (arith, wrap64-eq_of_InRange (a +ℤ b) h, +ℤ_parts a b)

pub add-eq_overflow :
    (a b : ℤ) → InRange a → InRange b → ¬ InRange (a +ℤ b) → add a b ≡ err (bare overflow)
unfolding add wrap64 ◌+ℤ◌
add-eq_overflow (pos a) (pos b) ha hb h = ground arith
add-eq_overflow (pos a) (negsuc b) ha hb h = ground arith
add-eq_overflow (negsuc a) (pos b) ha hb h = ground arith
add-eq_overflow (negsuc a) (negsuc b) ha hb h = ground arith

mul-le_of_div : (u a b : ℕ) → u / a ≡ b → a * b ≤ u
mul-le_of_div u a b h = grind arith

div-eq_of_mul : (a b : ℕ) → 0 < a → a * b / a ≡ b
div-eq_of_mul a b h = grind arith

pub div-le : (u a : ℕ) → u / a ≤ u
div-le u a = grind arith

-- The two int64 values whose product `mul` lets wrap: -1 and -2^63.
abbrev pub WrapsUnseen : ℤ → ℤ → Type 0
WrapsUnseen a b = (a ≡ negsuc 0) × (b ≡ negsuc (2 ^ 63 - 1))

mul-eq_ok : (a b : ℤ) → InRange a → InRange b → InRange (a *ℤ b) → mul a b ≡ ok (a *ℤ b)
unfolding mul wrap64 ◌*ℤ◌ quot_ℤ
mul-eq_ok (pos a) (pos b) ha hb h = ground (arith, div-eq_of_mul a b)
mul-eq_ok (pos a) (negsuc b) ha hb h = ground (arith, div-eq_of_mul a (suc b))
mul-eq_ok (negsuc a) (pos b) ha hb h = ground (arith, div-eq_of_mul (suc a) b)
mul-eq_ok (negsuc a) (negsuc b) ha hb h = ground (arith, div-eq_of_mul (suc a) (suc b))

mul-eq_overflow :
    (a b : ℤ)
    → InRange a
    → InRange b
    → ¬ WrapsUnseen a b
    → ¬ InRange (a *ℤ b)
    → mul a b ≡ err (bare overflow)
unfolding mul wrap64 ◌*ℤ◌ quot_ℤ
mul-eq_overflow (pos a) (pos b) ha hb n h = ground (arith, mul-le_of_div (a * b % 2 ^ 64) a b)
mul-eq_overflow (pos a) (negsuc b) ha hb n h = ground (
  arith,
  mul-le_of_div (a * suc b % 2 ^ 64) a (suc b),
  div-le ((2 ^ 64 - a * suc b % 2 ^ 64) % 2 ^ 64) a,
)
mul-eq_overflow (negsuc a) (pos b) ha hb n h = ground (
  arith,
  mul-le_of_div (suc a * b % 2 ^ 64) (suc a) b,
  div-le ((2 ^ 64 - suc a * b % 2 ^ 64) % 2 ^ 64) (suc a),
)
mul-eq_overflow (negsuc a) (negsuc b) ha hb n h = ground (
  arith,
  mul-le_of_div (suc a * suc b % 2 ^ 64) (suc a) (suc b),
  div-le (2 ^ 64 - suc a * suc b % 2 ^ 64) (suc a),
)

-- For two int64 values, `Add` returns the sum if an int64 holds it, and reports an overflow if not.
pub add_exact :
    (a b : ℤ)
    → InRange a
    → InRange b
    → (InRange (a +ℤ b) → add a b ≡ ok (a +ℤ b))
      × (¬ InRange (a +ℤ b) → add a b ≡ err (bare overflow))
add_exact a b ha hb = (add-eq_ok a b ha hb, add-eq_overflow a b ha hb)

-- For two int64 values, except -1 times -2^63, `Mul` returns the product if an int64 holds it,
-- and reports an overflow if not.
pub mul_exact :
    (a b : ℤ)
    → InRange a
    → InRange b
    → ¬ WrapsUnseen a b
    → (InRange (a *ℤ b) → mul a b ≡ ok (a *ℤ b))
      × (¬ InRange (a *ℤ b) → mul a b ≡ err (bare overflow))
mul_exact a b ha hb n = (mul-eq_ok a b ha hb, mul-eq_overflow a b ha hb n)

-- The excepted product wraps, and `Mul` reports no overflow.
mul_wraps_unseen : mul (negsuc 0) (negsuc (2 ^ 63 - 1)) ≡ ok (negsuc (2 ^ 63 - 1))
unfolding mul wrap64 ◌*ℤ◌ quot_ℤ
mul_wraps_unseen = refl

neg64-eq : (b : ℤ) → neg_part b < 2 ^ 63 → InRange b → wrap64 (pos 0 -ℤ b) ≡ pos 0 -ℤ b
unfolding wrap64 ◌-ℤ◌
neg64-eq (pos b) h hb = ground arith
neg64-eq (negsuc b) h hb = ground arith

neg-InRange : (b : ℤ) → neg_part b < 2 ^ 63 → InRange b → InRange (pos 0 -ℤ b)
unfolding ◌-ℤ◌
neg-InRange (pos b) h hb = ground arith
neg-InRange (negsuc b) h hb = ground arith

add-neg : (a b : ℤ) → a +ℤ (pos 0 -ℤ b) ≡ a -ℤ b
unfolding ◌+ℤ◌ ◌-ℤ◌
add-neg a b = ground arith

sub-eq_add : (a b : ℤ) → neg_part b < 2 ^ 63 → InRange b → sub a b ≡ add a (pos 0 -ℤ b)
unfolding sub
sub-eq_add a b h hb = ap (add a) (neg64-eq b h hb)

abbrev min64 : ℤ
min64 = negsuc (2 ^ 63 - 1)

neg64-min64 : wrap64 (pos 0 -ℤ min64) ≡ min64
unfolding wrap64 ◌-ℤ◌
neg64-min64 = refl

min64-InRange : (a : ℤ) → InRange a → pos 0 ≤ℤ a → InRange (a +ℤ min64)
unfolding ◌+ℤ◌
min64-InRange (pos a) ha h = ground arith
min64-InRange (negsuc a) ha h = absurd (omega arith)

sub-min64 : (a : ℤ) → InRange a → pos 0 ≤ℤ a → sub a min64 ≡ ok (a -ℤ min64 -ℤ pos (2 ^ 64))
unfolding sub
sub-min64 a ha h =
    ap (add a) neg64-min64
    ∙ add-eq_ok a min64 ha (omega arith) (min64-InRange a ha h)
    ∙ ap ok (omega int_laws)

-- For two int64 values whose second is not -2^63, `Sub` returns the difference if an int64 holds
-- it, and reports an overflow if not. With -2^63 as the second and a first that is not negative,
-- it returns a value that is too small by 2^64.
pub sub_exact :
    (a b : ℤ)
    → InRange a
    → InRange b
    → (neg_part b < 2 ^ 63 → InRange (a -ℤ b) → sub a b ≡ ok (a -ℤ b))
      × (neg_part b < 2 ^ 63 → ¬ InRange (a -ℤ b) → sub a b ≡ err (bare overflow))
      × (pos 0 ≤ℤ a → b ≡ negsuc (2 ^ 63 - 1) → sub a b ≡ ok (a -ℤ b -ℤ pos (2 ^ 64)))
unfolding sub
sub_exact a b ha hb = (
  λ h r.
      sub-eq_add a b h hb
      ∙ add-eq_ok a (pos 0 -ℤ b) ha (neg-InRange b h hb) (rw (add-neg a b) r)
      ∙ ap ok (add-neg a b),
  λ h r.
      sub-eq_add a b h hb
      ∙ add-eq_overflow a (pos 0 -ℤ b) ha (neg-InRange b h hb) (rw (add-neg a b) r),
  λ h e. rw e (sub-min64 a ha h),
)

-- The checked operations on numbers that are not negative, read from their results.
pub add-ok_inv :
    (a b : ℕ) {r : ℤ}
    → a < 2 ^ 63
    → b < 2 ^ 63
    → add (pos a) (pos b) ≡ ok r
    → (r ≡ pos (a + b)) × (a + b < 2 ^ 63)
unfolding add wrap64 ◌+ℤ◌
add-ok_inv a b ha hb h = ground arith

pub mul-ok_inv :
    (a b : ℕ) {r : ℤ}
    → a < 2 ^ 63
    → b < 2 ^ 63
    → mul (pos a) (pos b) ≡ ok r
    → (r ≡ pos (a * b)) × (a * b < 2 ^ 63)
mul-ok_inv a b ha hb h = elim (dec_lt (a * b) (2 ^ 63)) [
  | yes small ↦ (
    cc (
      mul-eq_ok (pos a) (pos b) (omega arith) (omega arith) (rw *ℤ-pos (omega arith)),
      *ℤ-pos a b,
    ),
    small,
  )
  | no large ↦ cc (
      mul-eq_overflow (pos a) (pos b) (omega arith) (omega arith) (λ w. cc w.0)
        (rw *ℤ-pos (omega arith)))
]

-- `LineOriginal` succeeds only on a price that is not negative and a quantity of one or more,
-- and then returns their exact product, which an int64 holds.
pub line_original-ok_inv :
    (price quantity : ℤ) {r : ℤ}
    → InRange price
    → InRange quantity
    → line_original price quantity ≡ ok r
    → (pos 0 ≤ℤ price) × (pos 1 ≤ℤ quantity) × (r ≡ price *ℤ quantity) × InRange r × (pos 0 ≤ℤ r)
unfolding line_original
line_original-ok_inv (negsuc p) q hp hq h = ground arith
line_original-ok_inv (pos p) (negsuc q) hp hq h = ground arith
line_original-ok_inv (pos p) (pos q) {r} hp hq h =
    let large : 0 < q = ground arith in
    let product : mul (pos p) (pos q) ≡ ok r = ground arith in
    let (e, small) = mul-ok_inv p q hp.0 hq.0 product in
    rw (e, *ℤ-pos p q) (omega arith, omega arith, refl, omega arith, omega arith)
