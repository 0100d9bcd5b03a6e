-- ===== src/Memory/Newest.antt =====
-- internal/infra/memory/order_repo.go: the order of the list of `AdminList`.
use Prim.Native.Nat.{compare as compare_ℕ, Ordering}
use Prim.Native.String.{compare as compare_text}
use mathlib.Core.List.{Permᴰ}
use mathlib.Core.List.Permᴰ
use order_hub.Prelude.{
  ◌≡◌, ◌≢◌, ◌↔◌, ◌⊎◌, ◌<◌, refl, sym, subst, ◌∙◌, arith, String, eq_iff, Bool, true, false, List,
  [], ◌∷◌, Bool-cases, inl, inr,
}
use mathlib.Core.Bool.{false≢true}
use order_hub.Prelude.Orders.{flip, compare-flip, compare_text-flip}
use order_hub.Prelude.Dict.{Dict}
use order_hub.Domain.Status.{to_string}
use order_hub.Domain.Order.{Order}
use order_hub.Port.{AdminListFilter}
use order_hub.Memory.{Repo}
use order_hub.Memory.Queries.{select, is_wanted, accepts, newer, insert_newer, newest_first}

-- The test of `newer` on the two comparisons.
abbrev later : Ordering → Ordering → Bool
later times ids = elim times [
  | Ordering.gt ↦ true
  | Ordering.lt ↦ false
  | Ordering.eq ↦ elim ids [ Ordering.gt ↦ true | _ ↦ false ]
]

swapped : (times ids : Ordering) → later times ids ≡ true → later (flip times) (flip ids) ≡ false
swapped Ordering.gt ids h = refl
swapped Ordering.lt ids h = cc
swapped Ordering.eq Ordering.gt h = refl
swapped Ordering.eq Ordering.eq h = refl
swapped Ordering.eq Ordering.lt h = cc

-- Of two orders, at most one is newer than the other.
newer_asym : (a b : Order) → newer a b ≡ true → newer b a ≡ false
unfolding newer
newer_asym a b h =
    subst (λ times. later times (compare_text b.order_id a.order_id) ≡ false)
      (sym (compare-flip a.created_at b.created_at))
      (subst (λ ids. later (flip (compare_ℕ a.created_at b.created_at)) ids ≡ false)
        (sym (compare_text-flip a.order_id b.order_id))
        (swapped (compare_ℕ a.created_at b.created_at) (compare_text a.order_id b.order_id) h))

-- The second order was made before the first one, or at the same time with an id that is not greater.
abbrev pub IsNotNewer : Order → Order → Type 0
IsNotNewer o p =
    (p.created_at < o.created_at)
    ⊎ ((p.created_at ≡ o.created_at) × (compare_text p.order_id o.order_id ≢ Ordering.gt))

-- Each order is followed by one that is not newer.
abbrev pub IsNewestFirst : List Order → Type 0
IsNewestFirst [] = Unit
IsNewestFirst (o ∷ []) = Unit
IsNewestFirst (o ∷ p ∷ os) = IsNotNewer o p × IsNewestFirst (p ∷ os)

-- A text of a filter that is empty, or the one that was found.
abbrev pub Allows : String → String → Type 0
Allows wanted found = (wanted ≡ "") ⊎ (found ≡ wanted)

-- A query that is empty, or one of three ids of the order.
abbrev pub IsAsked : String → Order → Type 0
IsAsked query o =
    (query ≡ "")
    ⊎ ((o.order_id ≡ query) ⊎ ((o.client_order_id ≡ query) ⊎ (o.buyer_user_id ≡ query)))

-- What the filter of `AdminList` asks of an order.
pub record Passes (f : AdminListFilter) (o : Order) : Type 0 where
  pub of_tenant : Allows f.tenant_id o.tenant_id
  pub in_status : Allows f.status (to_string o.status)
  pub in_scene : Allows f.scene o.scene
  pub in_query : IsAsked f.query o

-- The orders of the store that pass the filter, in the store's order.
pub data Passing (f : AdminListFilter) : Dict Order → List Order → Type 0 where
  none_left : Passing f [] []
  passed :
      {k : String} {o : Order} {m : Dict Order} {os : List Order}
      → Passes f o
      → Passing f m os
      → Passing f ((k, o) ∷ m) (o ∷ os)
  dropped :
      {k : String} {o : Order} {m : Dict Order} {os : List Order}
      → ¬ Passes f o
      → Passing f m os
      → Passing f ((k, o) ∷ m) os

not_newer : (o p : Order) → newer p o ≡ false → IsNotNewer o p
unfolding newer
not_newer o p h = ground arith

accepts_iff : (wanted found : String) → (accepts wanted found ≡ true) ↔ Allows wanted found
unfolding accepts
accepts_iff wanted found = ground (arith, eq_iff wanted "", eq_iff found wanted)

is_wanted-tests :
    (f : AdminListFilter) (o : Order)
    → (is_wanted f o ≡ true) ↔ (
        Allows f.tenant_id o.tenant_id
        × Allows f.status (to_string o.status)
        × Allows f.scene o.scene
        × IsAsked f.query o)
unfolding is_wanted
is_wanted-tests f o = ground (
  arith,
  accepts_iff f.tenant_id o.tenant_id,
  accepts_iff f.status (to_string o.status),
  accepts_iff f.scene o.scene,
  eq_iff f.query "",
  eq_iff o.order_id f.query,
  eq_iff o.client_order_id f.query,
  eq_iff o.buyer_user_id f.query,
)

is_wanted-Passes : (f : AdminListFilter) (o : Order) → is_wanted f o ≡ true → Passes f o
is_wanted-Passes f o h =
    let (tenant, status, scene, query) = (is_wanted-tests f o).0 h in
    record { of_tenant = tenant; in_status = status; in_scene = scene; in_query = query }

not-Passes : (f : AdminListFilter) (o : Order) → is_wanted f o ≡ false → ¬ Passes f o
not-Passes f o unwanted p =
    false≢true
      (sym unwanted ∙ (is_wanted-tests f o).1 (p.of_tenant, p.in_status, p.in_scene, p.in_query))

select-Passing : (f : AdminListFilter) (m : Dict Order) → Passing f m (select (is_wanted f) m)
unfolding select
select-Passing f [] = none_left
select-Passing f ((k, o) ∷ m) = elim (Bool-cases (is_wanted f o)) [
  | inl wanted_one ↦
      rw (wanted_one, select) (passed (is_wanted-Passes f o wanted_one) (select-Passing f m))
  | inr unwanted ↦ rw (unwanted, select) (dropped (not-Passes f o unwanted) (select-Passing f m))
]

insert_newer-perm : (o : Order) (os : List Order) → Permᴰ (o ∷ os) (insert_newer o os)
unfolding insert_newer
insert_newer-perm o [] = Permᴰ.refl (o ∷ [])
insert_newer-perm o (x ∷ xs) = elim (Bool-cases (newer x o)) [
  | inr behind ↦ rw (behind, insert_newer) (Permᴰ.refl (o ∷ x ∷ xs))
  | inl before ↦
      rw (before, insert_newer)
        (Permᴰ.trans (Permᴰ.swap refl refl) (Permᴰ.cons refl (insert_newer-perm o xs)))
]

newest_first-perm : (os : List Order) → Permᴰ os (newest_first os)
unfolding newest_first
newest_first-perm [] = Permᴰ.nil
newest_first-perm (o ∷ os) =
    Permᴰ.trans (Permᴰ.cons refl (newest_first-perm os)) (insert_newer-perm o (newest_first os))

insert_newer-IsNewestFirst :
    (o : Order) (os : List Order) → IsNewestFirst os → IsNewestFirst (insert_newer o os)
unfolding insert_newer
insert_newer-IsNewestFirst o [] h = tt
insert_newer-IsNewestFirst o (x ∷ []) h = elim (Bool-cases (newer x o)) [
  | inl before ↦ rw (before, insert_newer) (not_newer x o (newer_asym x o before), tt)
  | inr behind ↦ rw (behind, insert_newer) (not_newer o x behind, tt)
]
insert_newer-IsNewestFirst o (x ∷ y ∷ ys) h = elim (Bool-cases (newer x o)) [
  | inr behind ↦ rw (behind, insert_newer) (not_newer o x behind, h)
  | inl before ↦
      let rest = insert_newer-IsNewestFirst o (y ∷ ys) h.1 in
      elim (Bool-cases (newer y o)) [
        | inl both ↦ rw (before, both, insert_newer) (h.0, rw (both, insert_newer) at rest)
        | inr between ↦
            rw (before, between, insert_newer)
              (not_newer x o (newer_asym x o before), (not_newer o y between, h.1))
      ]
]

newest_first-IsNewestFirst : (os : List Order) → IsNewestFirst (newest_first os)
unfolding newest_first
newest_first-IsNewestFirst [] = tt
newest_first-IsNewestFirst (o ∷ os) =
    insert_newer-IsNewestFirst o (newest_first os) (newest_first-IsNewestFirst os)

-- The orders that a filter wants, in the order of `AdminList`.
abbrev pub wanted : AdminListFilter → Repo → List Order
wanted f r = newest_first (select (is_wanted f) r.orders)

-- Whatever the filter and the store, the list that `AdminList` cuts its pages from has the orders of
-- the store whose tenant, status and scene are those of the filter, where it names one, and of whose
-- three ids - its own, the client's and the buyer's - one is the query, if there is one; each as often
-- as the store has it. No order is followed by one that was made later or, made at the same time, has
-- a greater id.
pub wanted-IsNewestFirst :
    (f : AdminListFilter) (r : Repo)
    → (os : List Order) × Passing f r.orders os × Permᴰ os (wanted f r) × IsNewestFirst (wanted f r)
wanted-IsNewestFirst f r =
    let os = select (is_wanted f) r.orders in
    (os, select-Passing f r.orders, newest_first-perm os, newest_first-IsNewestFirst os)
