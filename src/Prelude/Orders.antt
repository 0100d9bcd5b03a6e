-- ===== src/Prelude/Orders.antt =====
-- The order of numbers and of texts: what the comparison says the other way round.
use Prim.Native.Nat.{ℕ, Ordering, compare as compare_ℕ}
use Prim.Native.Char.{code}
use Prim.Native.String.compare
use Prim.Native.String.{String, [], ◌∷◌, then, compare as compare_text}
use mathlib.Core.Path.{◌≡◌, refl, sym, ap, ◌∙◌}
use native.Mathlib.Omega.{arith}

abbrev pub flip : Ordering → Ordering
flip Ordering.lt = Ordering.gt
flip Ordering.eq = Ordering.eq
flip Ordering.gt = Ordering.lt

flip-then : (a b : Ordering) → flip (then a b) ≡ then (flip a) (flip b)
flip-then Ordering.lt b = refl
flip-then Ordering.eq b = refl
flip-then Ordering.gt b = refl

pub compare-flip : (a b : ℕ) → compare_ℕ b a ≡ flip (compare_ℕ a b)
compare-flip a b = ground arith

pub compare_text-flip : (s t : String) → compare_text t s ≡ flip (compare_text s t)
compare_text-flip [] [] = compare.nil-nil ∙ ap flip (sym compare.nil-nil)
compare_text-flip [] (d ∷ t) = compare.cons-nil d t ∙ ap flip (sym (compare.nil-cons d t))
compare_text-flip (c ∷ s) [] = compare.nil-cons c s ∙ ap flip (sym (compare.cons-nil c s))
compare_text-flip (c ∷ s) (d ∷ t) =
    rw
      (
        compare.cons-cons c d s t,
        compare.cons-cons d c t s,
        compare_text-flip s t,
        compare-flip (code c) (code d),
        flip-then (compare_ℕ (code c) (code d)) (compare_text s t),
      )
      refl
