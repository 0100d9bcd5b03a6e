-- ===== src/Prelude/Dict.antt =====
-- A Go map keyed by strings, as an association list. The order of the list stands for the
-- order in which `range` meets the entries, which Go leaves open.
use order_hub.Prelude.Tests.{if◌then◌else◌}
use Prim.Native.String.{String}
use mathlib.Core.Path.{◌≡◌}
use mathlib.Core.Bool.{true, false}
use mathlib.Core.Option.{Option, none, some}
use mathlib.Core.List.{List, [], ◌∷◌}
use native.Mathlib.Omega.{arith}
use text.Mathlib.Text.{◌==◌}
use text.Mathlib.TextEquality.{eq_iff}
use text.Mathlib.TextPositions.{eq_refl}

abbrev pub Dict {ℓ} : Type ℓ → Type ℓ
Dict V = List (String × V)

-- `m[key]`; the first entry of a key counts.
unfoldable pub lookup {ℓ} : {V : Type ℓ} → String → Dict V → Option V
lookup key [] = none
lookup key (entry ∷ rest) = elim (entry.0 == key) [ true ↦ some entry.1 | false ↦ lookup key rest ]

-- `m[key] = value`.
unfoldable pub insert {ℓ} : {V : Type ℓ} → String → V → Dict V → Dict V
insert key value [] = (key, value) ∷ []
insert key value (entry ∷ rest) = elim (entry.0 == key) [
  | true ↦ (key, value) ∷ rest
  | false ↦ entry ∷ insert key value rest
]

pub lookup-insert {ℓ} :
    {V : Type ℓ} (key other : String) (value : V) (dict : Dict V)
    → lookup other (insert key value dict)
      ≡ (if key == other then some value else lookup other dict)
unfolding insert lookup
lookup-insert key other value [] = ground arith
lookup-insert key other value ((first, w) ∷ rest) = ground (
  arith,
  lookup-insert key other value rest,
  eq_iff key other,
  eq_iff first other,
  eq_iff first key,
)

pub lookup-insert_self {ℓ} :
    {V : Type ℓ} (key : String) (value : V) (dict : Dict V)
    → lookup key (insert key value dict) ≡ some value
lookup-insert_self key value dict = simp (eq_refl, lookup-insert)

-- `delete(m, key)`.
unfoldable pub remove {ℓ} : {V : Type ℓ} → String → Dict V → Dict V
remove key [] = []
remove key (entry ∷ rest) = elim (entry.0 == key) [
  | true ↦ remove key rest
  | false ↦ entry ∷ remove key rest
]

pub lookup-remove {ℓ} :
    {V : Type ℓ} (key other : String) (dict : Dict V)
    → lookup other (remove key dict) ≡ (if key == other then none else lookup other dict)
unfolding remove lookup
lookup-remove key other [] = ground arith
lookup-remove key other ((first, w) ∷ rest) =
    ground
      (arith, lookup-remove key other rest, eq_iff key other, eq_iff first other, eq_iff first key)
