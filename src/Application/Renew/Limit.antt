-- ===== src/Application/Renew/Limit.antt =====
-- internal/application/renew.go: how often an order is renewed.
use order_hub.Prelude.{
  ℕ, suc, ◌≤◌, ◌<◌, ◌≡◌, refl, arith, subst, sym, ◌⊎◌, inl, inr, String, ◌<>◌, ◌==◌, not, List, [],
  ◌∷◌, leb, nat_eq, ◌||◌, Bool-cases, Option-cases, All,
}
use order_hub.Prelude.Dict.{Dict, insert, lookup}
use order_hub.Prelude.GoText.{show}
use order_hub.Domain.Error.{Result-cases}
use order_hub.Domain.Status.{pending_pay, status_eq}
use order_hub.Domain.Scene.{max_reservation_renew}
use order_hub.Domain.Order.{Order}
use order_hub.Memory.{Repo, order_key, bump_renew}
use order_hub.Application.Action.{Outside, World, offer_renew}
use order_hub.Application.Renew.{renew_one, renew_each, renew_tick}

-- No order was renewed more often than the limit.
abbrev pub IsLimited : Repo → Type 0
IsLimited r = All (λ (e : String × Order). e.1.renew_count ≤ max_reservation_renew) r.orders

All-insert :
    {V : Type 0} (P : String × V → Type 0) (k : String) (v : V) (m : Dict V)
    → P (k, v)
    → All P m
    → All P (insert k v m)
unfolding insert
All-insert P k v [] p h = (p, tt)
All-insert P k v (e ∷ m) p h = elim (Bool-cases (e.0 == k)) [
  | inl same ↦ rw (same, insert, All) (p, h.1)
  | inr other ↦ rw (other, insert, All) (h.0, All-insert P k v m p h.1)
]

bump_renew-IsLimited :
    (tenant id : String) (n : ℕ) (r : Repo)
    → n < max_reservation_renew
    → IsLimited r
    → IsLimited (bump_renew tenant id n r).1
unfolding bump_renew
bump_renew-IsLimited tenant id n r h limited =
    elim (Option-cases (lookup (order_key tenant id) r.orders)) [
      | inl missing ↦ rw (missing, bump_renew) limited
      | inr (o, found) ↦
          elim (Bool-cases (not (status_eq o.status pending_pay) || not (nat_eq o.renew_count n))) [
            | inl stale ↦ rw (found, stale, bump_renew) limited
            | inr current ↦
                rw (found, current, bump_renew)
                  (All-insert (λ (e : String × Order). e.1.renew_count ≤ max_reservation_renew)
                    (order_key tenant id) (record o { renew_count = suc o.renew_count }) r.orders
                    (ground arith) limited)
          ]
    ]

module _ (out : Outside) where
  renew_one-repo :
      (o : Order) (w : World)
      → ((renew_one out o w).1.repo ≡ w.repo)
        ⊎ ((o.renew_count < max_reservation_renew)
            × ((renew_one out o w).1.repo
                ≡ (bump_renew o.tenant_id o.order_id o.renew_count w.repo).1))
  unfolding renew_one
  renew_one-repo o w = elim (Bool-cases (status_eq o.status pending_pay)) [
    | inr moved_on ↦ rw moved_on (inl refl)
    | inl pending ↦ elim (Bool-cases (o.promotion.reservation_id == "")) [
      | inl unreserved ↦ rw (pending, unreserved) (inl refl)
      | inr reserved ↦ elim (Bool-cases (leb max_reservation_renew o.renew_count)) [
        | inl at_limit ↦ rw (pending, reserved, at_limit) (inl refl)
        | inr below ↦
            elim (Result-cases (
              out.unit_reply w.calls (
                offer_renew o.tenant_id o.promotion.reservation_id o.order_id
                  ("order:" <> o.order_id <> ":renew:" <> show (suc o.renew_count))))) [
                    | inl (u, renewed) ↦
                        rw (pending, reserved, below, renewed) (inr (ground arith, refl))
                    | inr (e, refused) ↦ rw (pending, reserved, below, refused) (inl refl)
                  ]
      ]
    ]
  ]

  -- A renewal of an order keeps the limit, whatever the offer hub answers.
  renew_one-IsLimited :
      (o : Order) (w : World) → IsLimited w.repo → IsLimited (renew_one out o w).1.repo
  renew_one-IsLimited o w h = elim (renew_one-repo o w) [
    | inl same ↦ subst IsLimited (sym same) h
    | inr (below, bumped) ↦
        subst IsLimited (sym bumped)
          (bump_renew-IsLimited o.tenant_id o.order_id o.renew_count w.repo below h)
  ]

  renew_each-IsLimited :
      (os : List Order) (n : ℕ) (w : World)
      → IsLimited w.repo
      → IsLimited (renew_each out n os w).1.repo
  unfolding renew_each
  renew_each-IsLimited [] n w h = h
  renew_each-IsLimited (o ∷ os) n w h =
      renew_each-IsLimited os _ (renew_one out o w).1 (renew_one-IsLimited o w h)

  -- If no order of the store was renewed more than three times, then this holds after a round of the
  -- renewal worker, whatever the clock and the offer hub answer.
  pub renew_tick-IsLimited : (w : World) → IsLimited w.repo → IsLimited (renew_tick out w).1.repo
  unfolding renew_tick
  renew_tick-IsLimited w h = renew_each-IsLimited _ 0 _ h
