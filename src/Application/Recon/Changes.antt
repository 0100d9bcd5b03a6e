-- ===== src/Application/Recon/Changes.antt =====
-- internal/application/recon.go: what a reconciliation changes in the store.
use order_hub.Prelude.{
  ◌≡◌, refl, suc, String, ◌==◌, ◌<>◌, ◌&&◌, ◌||◌, Bool, true, false, List, [], ◌∷◌, ◌++◌,
}
use order_hub.Domain.Error.{Result, ok, err}
use order_hub.Domain.Status.{cancelled, closed, status_eq}
use order_hub.Domain.Order.{Order, has_offer_reservation}
use order_hub.Port.{ReservationResult}
use order_hub.Memory.{Repo, update_redemption}
use order_hub.Application.Action.{
  Outside, World, pure, ask, attempt, call_text, offer_commit, offer_get_reservation, ◌>>=◌,
}
use order_hub.Application.Keeps.{Keeps, Keeps-bind, Keeps-if}
use order_hub.Application.Recon.{
  ReconDiff, ReconResult, ensure_ticket, with_ticket, after_commit, fill_redemption, commit_missing,
  release_missing, redemption_missing, check_reservation, check_found, check_offer, check_order,
  recon_each, run, ledger_diffs, offer_diff, paid_like, offer_reservation_active,
  offer_reservation_committed,
}

-- The cases of the `switch` keep `P`.
abbrev pub CasesKeep : Outside → (Repo → Type 0) → Bool → Order → String → Type 0
CasesKeep out P apply o status =
    Keeps P (commit_missing out o apply status)
    × Keeps P (release_missing out o apply status)
    × Keeps P (redemption_missing out o apply status)

-- What a reconciliation keeps of the store, if its two writes keep it.
module _ (out : Outside) (P : Repo → Type 0)
    (ticket : (kind tenant_id ref payload : String)
      → Keeps P (ensure_ticket out kind tenant_id ref payload))
    (redeem : (tenant_id order_id rid : String) (r : Repo)
      → P r
      → P (update_redemption tenant_id order_id rid r).1) where
  ensured :
      (kind tenant_id ref payload : String) (f : Bool → List ReconDiff)
      → Keeps P (ensure_ticket out kind tenant_id ref payload >>= λ made. pure (f made))
  ensured kind tenant_id ref payload f =
      Keeps-bind P (ensure_ticket out kind tenant_id ref payload) (λ made. pure (f made))
        (ticket kind tenant_id ref payload) λ made w h. h

  after_commit-Keeps :
      (o : Order) (d : ReconDiff) (committed : Result String)
      → Keeps P (after_commit out o d committed)
  unfolding after_commit
  after_commit-Keeps o d (err e) =
      ensured "after_paid" o.tenant_id o.order_id o.promotion.reservation_id
        λ made. record d { message = e.text; ticket_created = made } ∷ []
  after_commit-Keeps o d (ok rid) =
      Keeps-if P (rid == "") (pure (d ∷ [])) _ (λ w h. h)
        λ w h. redeem o.tenant_id o.order_id rid w.repo h

  with_ticket-Keeps :
      (kind tenant_id ref payload : String) (d : ReconDiff)
      → Keeps P (with_ticket out true (ensure_ticket out kind tenant_id ref payload) d)
  unfolding with_ticket
  with_ticket-Keeps kind tenant_id ref payload d =
      ensured kind tenant_id ref payload λ made. record d { ticket_created = made } ∷ []

  pub cases-Keep : (o : Order) (status : String) → CasesKeep out P true o status
  unfolding commit_missing release_missing redemption_missing fill_redemption
  cases-Keep o status = (
    with_ticket-Keeps "after_paid" o.tenant_id o.order_id o.promotion.reservation_id
        (offer_diff o "offer_commit_missing" status "已付订单优惠占用仍为 ACTIVE，应 commit"),
    with_ticket-Keeps "offer_release" o.tenant_id o.promotion.reservation_id o.order_id
        (offer_diff o "offer_release_missing" status "已取消/关闭订单优惠占用仍为 ACTIVE，应 release"),
    Keeps-bind P
        (attempt (
          call_text out (
            offer_commit o.tenant_id o.promotion.reservation_id o.order_id
              ("order:" <> o.order_id <> ":commit"))))
        (after_commit out o
          (offer_diff o "offer_redemption_missing" status "占用已 COMMITTED 但订单缺少 redemption_id"))
        (λ w h. h) (after_commit-Keeps o _),
  )

-- A reconciliation keeps what its `switch` keeps.
module _ (out : Outside) (P : Repo → Type 0) (apply : Bool)
    (cases : (o : Order) (status : String) → CasesKeep out P apply o status) where
  check_reservation-Keeps :
      (o : Order) (status : String) → Keeps P (check_reservation out o apply status)
  unfolding check_reservation
  check_reservation-Keeps o status =
      let (commit, release, redemption) = cases o status in
      let others =
        Keeps-if P (status == offer_reservation_committed && o.promotion.redemption_id == "")
          (redemption_missing out o apply status) (pure []) redemption λ w h. h in
      let unpaid =
        Keeps-if P
          ((status_eq o.status cancelled || status_eq o.status closed)
            && status == offer_reservation_active)
          (release_missing out o apply status) _ release others in
      Keeps-if P (paid_like o.status && status == offer_reservation_active)
        (commit_missing out o apply status) _ commit unpaid

  check_found-Keeps :
      (o : Order) (answer : Result ReservationResult) → Keeps P (check_found out o apply answer)
  unfolding check_found
  check_found-Keeps o (err e) w h = h
  check_found-Keeps o (ok rsv) w h = check_reservation-Keeps o rsv.status w h

  check_offer-Keeps : (o : Order) → Keeps P (check_offer out o apply)
  unfolding check_offer
  check_offer-Keeps o =
      Keeps-bind P
        (attempt (
          ask out.reservation_reply (offer_get_reservation o.tenant_id o.promotion.reservation_id)))
        (check_found out o apply) (λ w h. h) (check_found-Keeps o)

  check_order-Keeps : (o : Order) → Keeps P (check_order out o apply)
  unfolding check_order
  check_order-Keeps o =
      Keeps-if P (has_offer_reservation o) _ (pure (ledger_diffs o))
        (Keeps-bind P (check_offer out o apply) (λ diffs. pure (diffs ++ ledger_diffs o))
          (check_offer-Keeps o) λ diffs w h. h)
        λ w h. h

  recon_each-Keeps : (os : List Order) (done : ReconResult) → Keeps P (recon_each out apply os done)
  unfolding recon_each
  recon_each-Keeps [] done w h = h
  recon_each-Keeps (o ∷ os) done w h =
      Keeps-bind P (check_order out o apply)
        (λ diffs.
          recon_each out apply os
            (record { scanned = suc done.scanned; diffs = done.diffs ++ diffs }))
        (check_order-Keeps o) (λ diffs. recon_each-Keeps os _) w h

  pub run-Keeps : (tenant_id : String) → Keeps P (run out tenant_id apply)
  unfolding run
  run-Keeps tenant_id w = recon_each-Keeps _ _ w

-- A reconciliation that is not told to apply anything leaves the store as it is, whatever the offer
-- hub answers.
pub run-reads :
    (out : Outside) (tenant_id : String) (w : World) → (run out tenant_id false w).1.repo ≡ w.repo
unfolding commit_missing release_missing redemption_missing with_ticket
run-reads out tenant_id w =
    run-Keeps out (λ r. r ≡ w.repo) false (λ o status. (λ w h. h, λ w h. h, λ w h. h)) tenant_id w
      refl
