-- ===== src/Domain/Int64.antt =====
-- Go's int64: an integer with the wrap-around of the machine written out.
use order_hub.Prelude.{ℕ, ◌+◌, ◌-◌, ◌%◌, ◌^◌, ◌≤◌, ◌<◌, ◌≡◌, arith, ltb, if◌then◌else◌}
use order_hub.Prelude.Int.{ℤ, pos, negsuc, pos_part, neg_part, ◌+ℤ◌, ◌-ℤ◌, ◌*ℤ◌, quot_ℤ}

-- The signed value of a 64-bit pattern.
abbrev from_bits : ℕ → ℤ
from_bits u = if ltb u (2 ^ 63) then pos u else negsuc (2 ^ 64 - 1 - u)

-- The int64 that is congruent to an integer modulo 2^64.
unfoldable pub wrap64 : ℤ → ℤ
wrap64 z = from_bits ((pos_part z + (2 ^ 64 - neg_part z % 2 ^ 64)) % 2 ^ 64)

abbrev pub add64 : ℤ → ℤ → ℤ
add64 a b = wrap64 (a +ℤ b)

abbrev pub sub64 : ℤ → ℤ → ℤ
sub64 a b = wrap64 (a -ℤ b)

abbrev pub neg64 : ℤ → ℤ
neg64 a = wrap64 (pos 0 -ℤ a)

abbrev pub mul64 : ℤ → ℤ → ℤ
mul64 a b = wrap64 (a *ℤ b)

-- Division truncates; the one quotient out of range, -2^63 / -1, wraps.
abbrev pub div64 : ℤ → ℤ → ℤ
div64 a b = wrap64 (quot_ℤ a b)

-- What an int64 holds.
abbrev pub InRange : ℤ → Type 0
InRange z = (pos_part z < 2 ^ 63) × (neg_part z ≤ 2 ^ 63)

pub wrap64-eq_of_InRange : (z : ℤ) → InRange z → wrap64 z ≡ z
unfolding wrap64
wrap64-eq_of_InRange (pos n) h = ground arith
wrap64-eq_of_InRange (negsuc n) h = ground arith

pub wrap64-InRange : (z : ℤ) → InRange (wrap64 z)
unfolding wrap64
wrap64-InRange (pos n) = ground arith
wrap64-InRange (negsuc n) = ground arith

-- Above the range by less than one turn, the wrapped value is too small by 2^64.
pub wrap64-above :
    (z : ℤ) → 2 ^ 63 ≤ pos_part z → pos_part z < 2 ^ 64 → wrap64 z +ℤ pos (2 ^ 64) ≡ z
unfolding wrap64 ◌+ℤ◌
wrap64-above (pos n) h k = ground arith
wrap64-above (negsuc n) h k = ground arith

-- Below the range by less than one turn, it is too large by 2^64.
pub wrap64-below :
    (z : ℤ) → 2 ^ 63 < neg_part z → neg_part z ≤ 2 ^ 64 → wrap64 z ≡ z +ℤ pos (2 ^ 64)
unfolding wrap64 ◌+ℤ◌
wrap64-below (pos n) h k = ground arith
wrap64-below (negsuc n) h k = ground arith
