-- ===== src/Application/Recon.antt =====
-- internal/application/recon.go: `ReconService`, which compares the orders with the offer hub.
pub mod Changes
pub mod Tickets
use order_hub.Prelude.{
  ℕ, suc, String, ◌<>◌, ◌==◌, Bool, true, false, ◌&&◌, ◌||◌, not, List, [], ◌∷◌, ◌++◌,
  if◌then◌else◌,
}
use order_hub.Prelude.Int.{ℤ, pos, ltb_ℤ}
use order_hub.Domain.Error.{Err, Result, ok, err, order_not_found}
use order_hub.Domain.Status.{
  Status, paid, fulfilling, completed, compensating, cancelled, closed, refunding, refunded,
  partial_refunded, status_eq, to_string,
}
use order_hub.Domain.Order.{Order, has_offer_reservation}
use order_hub.Port.{ReservationResult, new_ticket}
use order_hub.Memory
use order_hub.Memory.Queries.{list_for_reconcile}
use order_hub.Application.Action.{
  Outside, Action, pure, attempt, ignore, reads, on_repo, ask, ◌>>=◌, ◌>>◌, call_text,
  store_compensation, offer_get_reservation, offer_commit,
}

pub record ReconDiff : Type 0 where
  pub order_id : String
  pub tenant_id : String
  pub scene : String
  pub order_status : String
  pub kind : String
  pub reservation_id : String
  pub reservation_status : String
  pub redemption_id : String
  pub freeze_id : String
  pub ledger_pay : ℤ
  pub ticket_created : Bool
  pub message : String

pub record ReconResult : Type 0 where
  pub scanned : ℕ
  pub diffs : List ReconDiff

abbrev pub offer_reservation_active : String
offer_reservation_active = "ACTIVE"

abbrev pub offer_reservation_committed : String
offer_reservation_committed = "COMMITTED"

-- `paidLike`.
unfoldable pub paid_like : Status → Bool
paid_like paid = true
paid_like fulfilling = true
paid_like completed = true
paid_like compensating = true
paid_like refunding = true
paid_like refunded = true
paid_like partial_refunded = true
paid_like _ = false

-- A literal with the fields that each `ReconDiff` fills.
unfoldable pub diff_of : Order → String → String → ReconDiff
diff_of o kind message = record {
  order_id = o.order_id;
  tenant_id = o.tenant_id;
  scene = o.scene;
  order_status = to_string o.status;
  kind = kind;
  reservation_id = "";
  reservation_status = "";
  redemption_id = "";
  freeze_id = "";
  ledger_pay = pos 0;
  ticket_created = false;
  message = message;
}

-- The literals of `checkOffer`, with the reservation of the order and its status.
unfoldable pub offer_diff : Order → String → String → String → ReconDiff
offer_diff o kind status message = record (diff_of o kind message) {
  reservation_id = o.promotion.reservation_id;
  reservation_status = status;
}

-- The second test of the loop of `Run`.
unfoldable pub ledger_diffs : Order → List ReconDiff
ledger_diffs o =
    if ltb_ℤ (pos 0) o.amounts.ledger_pay && o.ledger.freeze_id == "" && paid_like o.status
    then record (diff_of o "ledger_freeze_missing" "已付订单账本金额>0 但缺少 freeze_id") {
      ledger_pay = o.amounts.ledger_pay;
    }
      ∷ []
    else []

module _ (out : Outside) where
  unfoldable pub ensure_ticket : String → String → String → String → Action Bool
  ensure_ticket kind tenant_id ref payload = do
    open_ ← reads λ r. ok (Memory.has_open_compensation kind tenant_id ref r)
    if open_ then pure false else do
      made ← attempt (store_compensation out (new_ticket kind tenant_id ref payload))
      elim made [ ok _ ↦ pure true | err _ ↦ pure false ]

  -- `if apply { d.TicketCreated = … }`.
  unfoldable pub with_ticket : Bool → Action Bool → ReconDiff → Action (List ReconDiff)
  with_ticket apply ticket d =
      if not apply
      then pure (d ∷ [])
      else do made ← ticket; pure (record d { ticket_created = made } ∷ [])

  -- The third case of the `switch` when changes are to be made: after the commit, and as a whole.
  unfoldable pub after_commit : Order → ReconDiff → Result String → Action (List ReconDiff)
  after_commit o d (ok rid) = if rid == "" then pure (d ∷ []) else do
    ignore (on_repo (Memory.update_redemption o.tenant_id o.order_id rid))
    pure (record d { redemption_id = rid; message = "已回填 redemption_id" } ∷ [])
  after_commit o d (err e) = do
    made ← ensure_ticket "after_paid" o.tenant_id o.order_id o.promotion.reservation_id
    pure (record d { message = e.text; ticket_created = made } ∷ [])

  unfoldable pub fill_redemption : Order → ReconDiff → Action (List ReconDiff)
  fill_redemption o d =
      attempt (
        call_text out (
          offer_commit o.tenant_id o.promotion.reservation_id o.order_id
            ("order:" <> o.order_id <> ":commit")))
      >>= after_commit o d

  -- The cases of the `switch` of `checkOffer`: a paid order whose reservation is not committed, a
  -- cancelled one whose reservation is not released, and a redemption that the order does not know.
  unfoldable pub commit_missing : Order → Bool → String → Action (List ReconDiff)
  commit_missing o apply status =
      with_ticket apply
        (ensure_ticket "after_paid" o.tenant_id o.order_id o.promotion.reservation_id)
        (offer_diff o "offer_commit_missing" status "已付订单优惠占用仍为 ACTIVE，应 commit")

  unfoldable pub release_missing : Order → Bool → String → Action (List ReconDiff)
  release_missing o apply status =
      with_ticket apply
        (ensure_ticket "offer_release" o.tenant_id o.promotion.reservation_id o.order_id)
        (offer_diff o "offer_release_missing" status "已取消/关闭订单优惠占用仍为 ACTIVE，应 release")

  unfoldable pub redemption_missing : Order → Bool → String → Action (List ReconDiff)
  redemption_missing o apply status =
      let d = offer_diff o "offer_redemption_missing" status "占用已 COMMITTED 但订单缺少 redemption_id" in
      if apply then fill_redemption o d else pure (d ∷ [])

  -- The `switch` of `checkOffer` on the reservation's status.
  unfoldable pub check_reservation : Order → Bool → String → Action (List ReconDiff)
  check_reservation o apply status =
      if paid_like o.status && status == offer_reservation_active
      then commit_missing o apply status
      else if (status_eq o.status cancelled || status_eq o.status closed)
          && status == offer_reservation_active
      then release_missing o apply status
      else if status == offer_reservation_committed && o.promotion.redemption_id == ""
      then redemption_missing o apply status
      else pure []

  -- `errors.Is(err, domain.ErrOrderNotFound)`.
  abbrev pub is_not_found : Err → Bool
  is_not_found e = elim e.kind [ order_not_found ↦ true | _ ↦ false ]

  unfoldable pub lookup_diff : Order → Err → ReconDiff
  lookup_diff o e =
      if is_not_found e
      then offer_diff o "offer_reservation_missing" "" "订单有 reservation_id，OfferHub 查无此占用"
      else offer_diff o "offer_lookup_error" "" e.text

  unfoldable pub check_found : Order → Bool → Result ReservationResult → Action (List ReconDiff)
  check_found o apply (err e) = pure (lookup_diff o e ∷ [])
  check_found o apply (ok rsv) = check_reservation o apply rsv.status

  unfoldable pub check_offer : Order → Bool → Action (List ReconDiff)
  check_offer o apply =
      attempt
        (ask out.reservation_reply (offer_get_reservation o.tenant_id o.promotion.reservation_id))
      >>= check_found o apply

  -- One round of the loop of `Run`.
  unfoldable pub check_order : Order → Bool → Action (List ReconDiff)
  check_order o apply =
      if has_offer_reservation o
      then (do diffs ← check_offer o apply; pure (diffs ++ ledger_diffs o))
      else pure (ledger_diffs o)

  unfoldable pub recon_each : Bool → List Order → ReconResult → Action ReconResult
  recon_each apply [] done = pure done
  recon_each apply (o ∷ os) done = do
    diffs ← check_order o apply
    recon_each apply os (record { scanned = suc done.scanned; diffs = done.diffs ++ diffs })

  -- `ReconService.Run`.
  unfoldable pub run : String → Bool → Action ReconResult
  run tenant_id apply = do
    orders ← reads λ r. ok (list_for_reconcile tenant_id (pos 200) r)
    recon_each apply orders (record { scanned = 0; diffs = [] })
