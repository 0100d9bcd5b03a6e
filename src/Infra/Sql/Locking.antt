-- ===== src/Infra/Sql/Locking.antt =====
-- internal/infra/persistence/order_repo.go: the version of an order as an optimistic lock.
use order_hub.Prelude.{
  ℕ, suc, ◌≤◌, ◌≡◌, refl, sym, ap, subst, ◌∙◌, inl, inr, arith, Bool, true, false, ◌&&◌, List, [],
  ◌∷◌, Bool-cases,
}
use order_hub.Prelude.Int.{ℤ, pos, ◌+ℤ◌, +ℤ_parts, int_eq}
use order_hub.Domain.Error.{Err, Result, ok, err}
use order_hub.Domain.Order.{Order}
use order_hub.Port.{TransitionCmd}
use order_hub.Infra.Rows.{Codec, OrderPo}
use order_hub.Infra.Sql.{Db}
use order_hub.Infra.Sql.Writes.{is_row, at_command, is_target, transition_updates, transition}
use order_hub.Infra.Sql.Atomic.{count, updated, Laws, err≢ok, transition_atomic}

never : 1 ≤ 0 → ⊥
never h = omega arith

suc≢zero : {n : ℕ} → suc n ≡ 0 → ⊥
suc≢zero h = omega arith

none_left : (n : ℕ) → suc n ≤ 1 → n ≡ 0
none_left n h = omega arith

-- Two commands on one order at one version.
abbrev pub IsRival : TransitionCmd → TransitionCmd → Type 0
IsRival a b = (a.tenant_id ≡ b.tenant_id) × (a.order_id ≡ b.order_id) × (a.version ≡ b.version)

int_eq-suc : (v w : ℤ) → int_eq v w ≡ true → int_eq (v +ℤ pos 1) w ≡ false
int_eq-suc v w h = let parts = +ℤ_parts v (pos 1) in ground arith

and-split : (a b : Bool) → (a && b) ≡ true → (a ≡ true) × (b ≡ true)
and-split true b h = (refl, h)
and-split false b h = cc

is_target-other :
    (cmd : TransitionCmd) (row : OrderPo)
    → is_row cmd.tenant_id cmd.order_id row ≡ false
    → is_target cmd row ≡ false
unfolding is_target
is_target-other cmd row h = rw (h, is_target) refl

is_target-moved_on :
    (cmd : TransitionCmd) (row : OrderPo) → at_command cmd row ≡ false → is_target cmd row ≡ false
unfolding is_target
is_target-moved_on cmd row h = elim (Bool-cases (is_row cmd.tenant_id cmd.order_id row)) [
  | inl mine ↦ rw (mine, h, is_target) refl
  | inr other ↦ is_target-other cmd row other
]

module _ (first second : TransitionCmd) (rival : IsRival first second) (now : ℕ) where
  -- A row that the first command moved is at another version than the second command's.
  moved-done :
      (row : OrderPo)
      → is_target first row ≡ true
      → is_target second (transition_updates first now row) ≡ false
  unfolding is_target at_command transition_updates
  moved-done row h =
      let command = (and-split _ (at_command first row) h).1 in
      let version = (and-split (int_eq row.version first.version) _ command).0 in
      let other = int_eq-suc row.version first.version version in
      is_target-moved_on second _
        (rw (subst (λ v. int_eq (row.version +ℤ pos 1) v ≡ false) rival.2 other, at_command) refl)

  is_row-rival :
      (row : OrderPo)
      → is_row second.tenant_id second.order_id row ≡ is_row first.tenant_id first.order_id row
  is_row-rival row = rw (rival.0, rival.1) refl

  -- Of rows of other orders, none is a target of either command.
  others-done :
      (rows : List OrderPo)
      → count (is_row first.tenant_id first.order_id) rows ≡ 0
      → (count (is_target first) rows ≡ 0)
        × (count (is_target second) (updated (is_target first) (transition_updates first now) rows)
            ≡ 0)
  others-done [] h = (refl, refl)
  others-done (row ∷ rows) h = elim (Bool-cases (is_row first.tenant_id first.order_id row)) [
    | inl mine ↦ absurd (suc≢zero (rw (mine, count) at h))
    | inr other ↦
        let rest = others-done rows (rw (other, count) at h) in
        let passed = is_target-other first row other in
        let passed' = is_target-other second row (is_row-rival row ∙ other) in
        (rw (passed, count) rest.0, rw (passed, passed', count, updated) rest.1)
  ]

  -- If one row has the order's key and the first command moved a row, nothing is left for the second.
  rival-done :
      (rows : List OrderPo)
      → count (is_row first.tenant_id first.order_id) rows ≤ 1
      → 1 ≤ count (is_target first) rows
      → count (is_target second) (updated (is_target first) (transition_updates first now) rows) ≡ 0
  rival-done [] one met = refl
  rival-done (row ∷ rows) one met = elim (Bool-cases (is_row first.tenant_id first.order_id row)) [
    | inr other ↦
        let passed = is_target-other first row other in
        let passed' = is_target-other second row (is_row-rival row ∙ other) in
        rw (passed, passed', count, updated)
          (rival-done rows (rw (other, count) at one) (rw (passed, count) at met))
    | inl mine ↦
        let left = others-done rows (none_left _ (rw (mine, count) at one)) in
        elim (Bool-cases (is_target first row)) [
          | inl moved ↦ rw (moved, moved-done row moved, count, updated) left.1
          | inr kept ↦ absurd (never (rw (kept, left.0, count) at met))
        ]
  ]

-- If the database is as the store expects it and has one row of an order, then after a `Transition`
-- of the order has succeeded every further one at the same version fails and changes nothing.
pub sql_transition_once :
    (S : Type 0) (db : Db S) (json : Codec)
    → Laws db
    → (first second : TransitionCmd) (now later : ℕ) (s : S) (o : Order) (s' : S)
    → IsRival first second
    → count (is_row first.tenant_id first.order_id) (db.orders.rows s) ≤ 1
    → transition db json first now s ≡ (ok o, s')
    → (e : Err) × (transition db json second later s' ≡ (err e, s'))
sql_transition_once S db json law first second now later s o s' rival one moved =
    elim (transition_atomic db json law first now s) [
      | inr (e, failed) ↦ absurd (err≢ok (sym failed ∙ moved))
      | inl (o', t, whole, met, rows) ↦
          let same = ap (λ (x : Result Order × S). x.1) (sym whole ∙ moved) in
          let none_met = rival-done first second rival now (db.orders.rows s) one met in
          elim (transition_atomic db json law second later s') [
            | inr refused ↦ refused
            | inl (o'', t', whole', met', rows') ↦ absurd (
                never (
                  subst (λ n. 1 ≤ n)
                    (ap (λ (x : S). count (is_target second) (db.orders.rows x)) (sym same)
                      ∙ ap (count (is_target second)) rows
                      ∙ none_met)
                    met'))
          ]
    ]
