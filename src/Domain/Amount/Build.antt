-- ===== src/Domain/Amount/Build.antt =====
-- internal/domain/amount.go: what `Validate` accepts and what `BuildAmounts` returns.
use order_hub.Prelude.{◌^◌, ◌<◌, ◌≡◌, ◌≢◌, sym, ap, ◌∙◌, arith, String, eq_iff, false, ◌↔◌}
use order_hub.Prelude.Int.{ℤ, pos, negsuc, neg_part, ◌+ℤ◌, ◌-ℤ◌, ◌≤ℤ◌, int_laws, eq_of_parts}
use order_hub.Domain.Int64.{wrap64, InRange, wrap64-eq_of_InRange}
use order_hub.Domain.Error.{ok}
use order_hub.Domain.Order.{Amounts}
use order_hub.Domain.Amount.{has_negative, sub, validate, build_amounts}
use order_hub.Domain.Amount.Arith.{sub_exact}

-- Every field holds an int64.
pub record IsRanged (a : Amounts) : Type 0 where
  pub original_ranged : InRange a.original
  pub discount_ranged : InRange a.discount
  pub payable_ranged : InRange a.payable
  pub ledger_ranged : InRange a.ledger_pay
  pub channel_ranged : InRange a.channel_pay
  pub paid_ranged : InRange a.paid
  pub refunded_ranged : InRange a.refunded

-- The equations and orders that tie an order's amounts together, over the integers.
pub record IsConsistent (a : Amounts) : Type 0 where
  pub discount_nonneg : pos 0 ≤ℤ a.discount
  pub ledger_nonneg : pos 0 ≤ℤ a.ledger_pay
  pub channel_nonneg : pos 0 ≤ℤ a.channel_pay
  pub refunded_nonneg : pos 0 ≤ℤ a.refunded
  pub payable_eq : a.discount +ℤ a.payable ≡ a.original
  pub split_eq : a.ledger_pay +ℤ a.channel_pay ≡ a.payable
  pub paid_le : a.paid ≤ℤ a.payable
  pub refunded_le : a.refunded ≤ℤ a.paid

-- A difference of two non-negative int64 values does not wrap.
pub wrap64-sub :
    (a b : ℤ) → InRange a → InRange b → pos 0 ≤ℤ a → pos 0 ≤ℤ b → wrap64 (a -ℤ b) ≡ a -ℤ b
unfolding wrap64 ◌-ℤ◌
wrap64-sub (pos a) (pos b) ha hb h k = ground arith
wrap64-sub (pos a) (negsuc b) ha hb h k = absurd (omega arith)
wrap64-sub (negsuc a) b ha hb h k = absurd (omega arith)

-- A sum of two non-negative int64 values that wraps is negative.
pub wrap64-add :
    (a b : ℤ)
    → InRange a
    → InRange b
    → pos 0 ≤ℤ a
    → pos 0 ≤ℤ b
    → pos 0 ≤ℤ wrap64 (a +ℤ b)
    → wrap64 (a +ℤ b) ≡ a +ℤ b
unfolding wrap64 ◌+ℤ◌
wrap64-add (pos a) (pos b) ha hb h k n = ground arith
wrap64-add (pos a) (negsuc b) ha hb h k n = absurd (omega arith)
wrap64-add (negsuc a) b ha hb h k n = absurd (omega arith)

-- The conditions that `Validate` tests, as it computes them.
record Passes (a : Amounts) : Type 0 where
  nonneg : has_negative a ≡ false
  discount_le : a.discount ≤ℤ a.original
  payable_eq : wrap64 (a.original -ℤ a.discount) ≡ a.payable
  split_eq : wrap64 (a.ledger_pay +ℤ a.channel_pay) ≡ a.payable
  paid_le : a.paid ≤ℤ a.payable
  refunded_le : a.refunded ≤ℤ a.paid

validate-Passes : (a : Amounts) → validate a ≡ ok tt → Passes a
unfolding validate
validate-Passes a h = ground (
  arith,
  eq_of_parts (wrap64 (a.original -ℤ a.discount)) a.payable,
  eq_of_parts (wrap64 (a.ledger_pay +ℤ a.channel_pay)) a.payable,
)

Passes-validate : (a : Amounts) → Passes a → validate a ≡ ok tt
unfolding validate
Passes-validate a h = ground arith

record IsNonneg (a : Amounts) : Type 0 where
  original_nonneg : pos 0 ≤ℤ a.original
  discount_nonneg : pos 0 ≤ℤ a.discount
  payable_nonneg : pos 0 ≤ℤ a.payable
  ledger_nonneg : pos 0 ≤ℤ a.ledger_pay
  channel_nonneg : pos 0 ≤ℤ a.channel_pay
  paid_nonneg : pos 0 ≤ℤ a.paid
  refunded_nonneg : pos 0 ≤ℤ a.refunded

has_negative-IsNonneg : (a : Amounts) → has_negative a ≡ false → IsNonneg a
unfolding has_negative
has_negative-IsNonneg a h = ground arith

IsNonneg-has_negative : (a : Amounts) → IsNonneg a → has_negative a ≡ false
unfolding has_negative
IsNonneg-has_negative a h = ground arith

Passes-IsConsistent : (a : Amounts) → IsRanged a → Passes a → IsConsistent a
Passes-IsConsistent a r p =
    let n = has_negative-IsNonneg a p.nonneg in
    let d =
      wrap64-sub a.original a.discount r.original_ranged r.discount_ranged n.original_nonneg
        n.discount_nonneg in
    let s =
      wrap64-add a.ledger_pay a.channel_pay r.ledger_ranged r.channel_ranged n.ledger_nonneg
        n.channel_nonneg (rw p.split_eq n.payable_nonneg) in
    record {
      discount_nonneg = n.discount_nonneg;
      ledger_nonneg = n.ledger_nonneg;
      channel_nonneg = n.channel_nonneg;
      refunded_nonneg = n.refunded_nonneg;
      payable_eq = rw (← p.payable_eq, d) (omega int_laws);
      split_eq = sym s ∙ p.split_eq;
      paid_le = p.paid_le;
      refunded_le = p.refunded_le;
    }

pub sub_of_sum : (a b c : ℤ) → a +ℤ b ≡ c → c -ℤ a ≡ b
sub_of_sum a b c e = rw (← e) (omega int_laws)

pub le_of_sum : (a b c : ℤ) → a +ℤ b ≡ c → pos 0 ≤ℤ b → a ≤ℤ c
le_of_sum a b c e h = rw (← e) (omega int_laws)

pub nonneg_of_sum : (a b c : ℤ) → a +ℤ b ≡ c → pos 0 ≤ℤ a → pos 0 ≤ℤ b → pos 0 ≤ℤ c
nonneg_of_sum a b c e h k = rw (← e) (omega int_laws)

IsConsistent-IsNonneg : (a : Amounts) → IsConsistent a → IsNonneg a
IsConsistent-IsNonneg a c =
    let payable =
      nonneg_of_sum a.ledger_pay a.channel_pay a.payable c.split_eq c.ledger_nonneg
        c.channel_nonneg in
    let original =
      nonneg_of_sum a.discount a.payable a.original c.payable_eq c.discount_nonneg payable in
    omega (arith, payable, original)

IsConsistent-Passes : (a : Amounts) → IsRanged a → IsConsistent a → Passes a
IsConsistent-Passes a r c =
    let n = IsConsistent-IsNonneg a c in
    record {
      nonneg = IsNonneg-has_negative a n;
      discount_le = le_of_sum a.discount a.payable a.original c.payable_eq n.payable_nonneg;
      payable_eq =
          ap wrap64 (sub_of_sum a.discount a.payable a.original c.payable_eq)
          ∙ wrap64-eq_of_InRange a.payable r.payable_ranged;
      split_eq = ap wrap64 c.split_eq ∙ wrap64-eq_of_InRange a.payable r.payable_ranged;
      paid_le = c.paid_le;
      refunded_le = c.refunded_le;
    }

-- On amounts that are int64 values, `Validate` accepts exactly the consistent ones: nothing is
-- negative, original = discount + payable, payable = ledger + channel, and
-- refunded ≤ paid ≤ payable, all over the integers.
pub validate_iff : (a : Amounts) → IsRanged a → (validate a ≡ ok tt) ↔ IsConsistent a
validate_iff a r = (
  λ h. Passes-IsConsistent a r (validate-Passes a h),
  λ c. Passes-validate a (IsConsistent-Passes a r c),
)

sub-InRange : (a b : ℤ) → InRange a → InRange b → pos 0 ≤ℤ b → b ≤ℤ a → InRange (a -ℤ b)
unfolding ◌-ℤ◌
sub-InRange (pos a) (pos b) ha hb h k = ground arith
sub-InRange (negsuc a) (pos b) ha hb h k = absurd (omega arith)
sub-InRange a (negsuc b) ha hb h k = absurd (omega arith)

neg_part-lt : (b : ℤ) → pos 0 ≤ℤ b → neg_part b < 2 ^ 63
neg_part-lt (pos b) h = omega arith
neg_part-lt (negsuc b) h = absurd (omega arith)

-- A difference of int64 values with 0 ≤ b ≤ a is exact, and is not negative.
pub sub_le :
    (a b : ℤ)
    → InRange a
    → InRange b
    → pos 0 ≤ℤ b
    → b ≤ℤ a
    → (sub a b ≡ ok (a -ℤ b)) × InRange (a -ℤ b) × (pos 0 ≤ℤ a -ℤ b)
sub_le a b ha hb h k =
    let r = sub-InRange a b ha hb h k in
    ((sub_exact a b ha hb).0 (neg_part-lt b h) r, r, omega int_laws)

-- What `BuildAmounts` returns on success.
abbrev pub built : String → ℤ → ℤ → ℤ → Amounts
built currency original discount ledger_pay = record {
  currency = currency;
  original = original;
  discount = discount;
  payable = original -ℤ discount;
  ledger_pay = ledger_pay;
  channel_pay = original -ℤ discount -ℤ ledger_pay;
  paid = pos 0;
  refunded = pos 0;
}

module _ (currency : String) (o d l : ℤ) (ho : InRange o) (hd : InRange d) (hl : InRange l) where
  built_valid : pos 0 ≤ℤ d → pos 0 ≤ℤ l → d +ℤ l ≤ℤ o → validate (built currency o d l) ≡ ok tt
  built_valid h k e =
      let first = sub_le o d ho hd h (omega int_laws) in
      let second = sub_le (o -ℤ d) l first.1 hl k (omega int_laws) in
      let ranged : IsRanged (built currency o d l) = record {
        original_ranged = ho;
        discount_ranged = hd;
        payable_ranged = first.1;
        ledger_ranged = hl;
        channel_ranged = second.1;
        paid_ranged = omega arith;
        refunded_ranged = omega arith;
      } in
      (validate_iff (built currency o d l) ranged).1 (record {
        discount_nonneg = h;
        ledger_nonneg = k;
        channel_nonneg = second.2;
        refunded_nonneg = omega arith;
        payable_eq = omega int_laws;
        split_eq = omega int_laws;
        paid_le = first.2;
        refunded_le = omega arith;
      })

  built_ok :
      currency ≢ ""
      → pos 0 ≤ℤ d
      → pos 0 ≤ℤ l
      → d +ℤ l ≤ℤ o
      → build_amounts currency o d l ≡ ok (built currency o d l)
  unfolding build_amounts
  built_ok c h k e =
      let first = sub_le o d ho hd h (omega int_laws) in
      let second = sub_le (o -ℤ d) l first.1 hl k (omega int_laws) in
      let fits : l ≤ℤ o -ℤ d = omega int_laws in
      let below : d ≤ℤ o = omega int_laws in
      ground (arith, first.0, second.0, built_valid h k e, eq_iff currency "")

  ok_needs :
      {a : Amounts}
      → build_amounts currency o d l ≡ ok a
      → (currency ≢ "") × (pos 0 ≤ℤ d) × (pos 0 ≤ℤ l) × (d ≤ℤ o)
  unfolding build_amounts
  ok_needs h = ground (arith, eq_iff currency "")

  ok_fits : {a : Amounts} → build_amounts currency o d l ≡ ok a → l ≤ℤ o -ℤ d
  unfolding build_amounts
  ok_fits h = let n = ok_needs h in ground (arith, (sub_le o d ho hd n.1 n.3).0)

-- `BuildAmounts` on int64 arguments succeeds exactly if a currency is given, nothing is negative
-- and discount + ledger_pay ≤ original; the amounts that it then returns are the arguments, with
-- payable = original - discount, channel = payable - ledger_pay, and nothing paid or refunded.
pub build_amounts_iff :
    (currency : String) (original discount ledger_pay : ℤ) (a : Amounts)
    → InRange original
    → InRange discount
    → InRange ledger_pay
    → (build_amounts currency original discount ledger_pay ≡ ok a) ↔ (
        (currency ≢ "")
        × (pos 0 ≤ℤ discount)
        × (pos 0 ≤ℤ ledger_pay)
        × (discount +ℤ ledger_pay ≤ℤ original)
        × (a ≡ built currency original discount ledger_pay))
build_amounts_iff currency o d l a ho hd hl = (
  λ h.
      let n = ok_needs currency o d l ho hd hl h in
      let fits = ok_fits currency o d l ho hd hl h in
      let sum : d +ℤ l ≤ℤ o = omega int_laws in
      (n.0, n.1, n.2, sum, cc (built_ok currency o d l ho hd hl n.0 n.1 n.2 sum)),
  λ (c, h, k, e, same). rw same (built_ok currency o d l ho hd hl c h k e),
)
