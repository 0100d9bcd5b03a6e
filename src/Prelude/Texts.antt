-- ===== src/Prelude/Texts.antt =====
-- The test of equality on texts.
use Prim.Native.String.{String}
use mathlib.Core.Path.{◌≡◌, sym, ◌∙◌}
use mathlib.Core.Logic.{◌≢◌, ◌⊎◌, inl, inr}
use mathlib.Core.Bool.{false, true≢false}
use text.Mathlib.Text.{◌==◌}
use text.Mathlib.TextEquality.{eq_iff}
use order_hub.Prelude.Tests.{Bool-cases}

pub text-differs : {a b : String} → a ≢ b → (a == b) ≡ false
text-differs {a} {b} differ = elim (Bool-cases (a == b)) [
  | inl same ↦ elim (differ ((eq_iff a b).0 same)) [ ]
  | inr other ↦ other
]

pub text-apart : (a b : String) → (a == b) ≡ false → a ≢ b
text-apart a b differ same = true≢false (sym ((eq_iff a b).1 same) ∙ differ)

pub text-cases : (a b : String) → (a ≡ b) ⊎ (a ≢ b)
text-cases a b = elim (Bool-cases (a == b)) [
  | inl same ↦ inl ((eq_iff a b).0 same)
  | inr other ↦ inr (text-apart a b other)
]
