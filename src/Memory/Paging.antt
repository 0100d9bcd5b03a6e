-- ===== src/Memory/Paging.antt =====
-- internal/infra/memory/order_repo.go: the pages of `AdminList`, each asked for with the cursor that
-- the page before it came with.
use mathlib.Core.Path.{ap₂}
use mathlib.Core.List.{append-nil, append_assoc}
use order_hub.Prelude.{
  ◌≡◌, ◌≢◌, refl, sym, ap, subst, ◌∙◌, arith, ℕ, zero, suc, ◌-◌, ◌≤◌, ◌<◌, String, ◌==◌, eq_refl,
  false, some, List, [], ◌∷◌, ◌++◌, All, if◌then◌else◌, dec_lt, text-differs, take, length,
  get_elem?, ltb-true, ltb-false,
}
use order_hub.Prelude.Int.{pos}
use order_hub.Domain.Order.{Order}
use order_hub.Port.{AdminListFilter}
use order_hub.Memory.{Repo}
use order_hub.Memory.Queries.{is_wanted, is_cursor, behind, from_cursor, id_at, page, admin_list}
use order_hub.Memory.Newest.{wanted}

-- Every order has an id, and the id of one names no order that stands before it.
abbrev pub Apart : List Order → Type 0
Apart [] = Unit
Apart (o ∷ os) =
    (o.order_id ≢ "") × All (λ (p : Order). is_cursor p.order_id o ≡ false) os × Apart os

-- The pages that follow a cursor, `fuel` of them at most.
abbrev pub pages : ℕ → AdminListFilter → Repo → List Order
pages zero f r = []
pages (suc fuel) f r =
    let (rows, next) = admin_list f r in
    let rest = pages fuel (record f { cursor = next }) r in
    rows ++ (if next == "" then [] else rest)

named_at : (xs : List Order) (o : Order) (ys : List Order) → Apart (xs ++ o ∷ ys) → o.order_id ≢ ""
named_at [] o ys h = h.0
named_at (x ∷ xs) o ys h = named_at xs o ys h.2

All-tail :
    (P : Order → Type 0) (xs : List Order) (o : Order) (ys : List Order)
    → All P (xs ++ o ∷ ys)
    → P o
All-tail P [] o ys h = h.0
All-tail P (x ∷ xs) o ys h = All-tail P xs o ys h.1

-- The cursor made of an order's id leads behind that order.
behind-lem :
    (xs : List Order) (o : Order) (ys : List Order)
    → Apart (xs ++ o ∷ ys)
    → behind o.order_id (xs ++ o ∷ ys) ≡ some ys
unfolding behind is_cursor
behind-lem [] o ys h = rw (eq_refl o.order_id, behind, is_cursor) refl
behind-lem (x ∷ xs) o ys h =
    rw (All-tail (λ p. is_cursor p.order_id x ≡ false) xs o ys h.1, behind) (behind-lem xs o ys h.2)

-- A list that is longer than `n` at its element with the index `n`.
split_at :
    (n : ℕ) (os : List Order)
    → n < length os
    → (xs : List Order) × (o : Order) × (ys : List Order) × (os ≡ xs ++ o ∷ ys)
      × (take (suc n) os ≡ xs ++ o ∷ [])
      × (get_elem? os n ≡ some o)
      × (length ys < length os)
split_at n [] h = ground arith
split_at zero (o ∷ os) h = ([], o, os, refl, refl, refl, omega arith)
split_at (suc n) (x ∷ os) h =
    let (xs, o, ys, parts, front, at, shorter) = split_at n os (omega arith) in
    (x ∷ xs, o, ys, ap (λ t. x ∷ t) parts, ap (λ t. x ∷ t) front, at, omega arith)

back_one : (n : ℕ) → suc n - 1 ≡ n
back_one n = omega arith

page-whole : (n : ℕ) (os : List Order) → length os ≤ suc n → page (pos (suc n)) os ≡ (os, "")
unfolding page
page-whole n os h =
    rw (ltb-true 0 (suc n) (omega arith), ltb-false (suc n) (length os) h, page) refl

page-cut :
    (n : ℕ) (os : List Order)
    → suc n < length os
    → (xs : List Order) × (o : Order) × (ys : List Order) × (page (pos (suc n)) os
        ≡ (xs ++ o ∷ [], o.order_id))
      × (os ≡ xs ++ o ∷ ys)
      × (length ys < length os)
unfolding page id_at
page-cut n os h =
    let (xs, o, ys, parts, front, at, shorter) = split_at n os (omega arith) in
    (
      xs,
      o,
      ys,
      rw
          (
            ltb-true 0 (suc n) (omega arith),
            ltb-true (suc n) (length os) h,
            back_one n,
            front,
            at,
            page,
            id_at,
          )
          refl,
      parts,
      shorter,
    )

module _ (f : AdminListFilter) (r : Repo) (n : ℕ) (limited : f.limit ≡ pos (suc n)) where
  one_page :
      (cursor : String) (os : List Order)
      → from_cursor cursor (wanted f r) ≡ os
      → admin_list (record f { cursor = cursor }) r ≡ page (pos (suc n)) os
  unfolding admin_list is_wanted
  one_page cursor os from = ap₂ page limited from

  -- Behind the cursor of a page comes what follows the page's last order.
  from_next :
      (xs : List Order) (o : Order) (ys : List Order)
      → wanted f r ≡ xs ++ o ∷ ys
      → Apart (wanted f r)
      → (o.order_id ≢ "") × (from_cursor o.order_id (wanted f r) ≡ ys)
  unfolding from_cursor
  from_next xs o ys parts apart =
      let named = subst Apart parts apart in
      (
        named_at xs o ys named,
        rw (parts, text-differs (named_at xs o ys named), behind-lem xs o ys named, from_cursor)
            refl,
      )

  pages-step :
      (fuel : ℕ) (cursor next : String) (rows ys : List Order)
      → admin_list (record f { cursor = cursor }) r ≡ (rows, next)
      → next ≢ ""
      → pages fuel (record f { cursor = next }) r ≡ ys
      → pages (suc fuel) (record f { cursor = cursor }) r ≡ rows ++ ys
  pages-step fuel cursor next rows ys listed more rest =
      rw (listed, text-differs more) (ap (λ t. rows ++ t) rest)

  pages-from :
      (fuel : ℕ) (cursor : String) (xs ys : List Order)
      → length ys ≤ fuel
      → wanted f r ≡ xs ++ ys
      → Apart (wanted f r)
      → from_cursor cursor (wanted f r) ≡ ys
      → pages fuel (record f { cursor = cursor }) r ≡ ys
  pages-from zero cursor xs [] few parts apart from = refl
  pages-from zero cursor xs (y ∷ ys) few parts apart from = ground arith
  pages-from (suc fuel) cursor xs os few parts apart from = elim (dec_lt (suc n) (length os)) [
    | no short ↦ rw (one_page cursor os from, page-whole n os (omega arith)) (append-nil os)
    | yes long ↦
        let (zs, o, ys, cut, split, shorter) = page-cut n os long in
        let whole = parts ∙ ap (λ t. xs ++ t) split ∙ sym (append_assoc xs zs (o ∷ ys)) in
        let (named, next) = from_next (xs ++ zs) o ys whole apart in
        let front = whole ∙ sym (append_assoc (xs ++ zs) (o ∷ []) ys) in
        let rest =
          pages-from fuel o.order_id ((xs ++ zs) ++ o ∷ []) ys (omega arith) front apart next in
        pages-step fuel cursor o.order_id (zs ++ o ∷ []) ys (one_page cursor os from ∙ cut) named
          rest
        ∙ append_assoc zs (o ∷ []) ys
        ∙ sym split
  ]

-- If the limit is positive, every order has an id, and no id names an order that stands before its
-- own in the list, then a client that starts without a cursor and asks for one page after the other,
-- each with the cursor that came with the page before, gets every order that the filter wants once
-- and in the order of the list; as many requests as there are such orders are enough.
pub pages_whole :
    (f : AdminListFilter) (r : Repo) (n fuel : ℕ)
    → f.limit ≡ pos (suc n)
    → f.cursor ≡ ""
    → Apart (wanted f r)
    → length (wanted f r) ≤ fuel
    → pages fuel f r ≡ wanted f r
unfolding from_cursor
pages_whole f r n fuel limited start apart few =
    ap (λ (c : String). pages fuel (record f { cursor = c }) r) start
    ∙ pages-from f r n limited fuel "" [] (wanted f r) few refl apart refl
