-- ===== src/Iface/Admin.antt =====
-- internal/iface/http/admin.go: the handlers of the operators. An operator has no user id.
use order_hub.Prelude.{
  String, ◌==◌, Bool, true, false, ◌||◌, not, none, some, [], map, if◌then◌else◌,
}
use order_hub.Prelude.GoText.{atoi}
use order_hub.Domain.Error.{Err, other, bare, invalid_argument, not_implemented}
use order_hub.Domain.Json.{Json, null, Fields, end, field}
use order_hub.Domain.Status.{parse_status, to_string}
use order_hub.Domain.Order.{Order}
use order_hub.Port.{Identity, OutboxRow}
use order_hub.Application.Action.{Action, raise, ◌>>=◌, ◌>>◌}
use order_hub.Application.Query
use order_hub.Application.Cancel
use order_hub.Application.Payment
use order_hub.Application.Refund
use order_hub.Application.Close
use order_hub.Application.Renew
use order_hub.Application.Recon
use order_hub.Application.Seed
use order_hub.Iface.Dto.{refund_cmd, view_order}
use order_hub.Iface.Wire.{
  Request, Response, Reply, Payload, OutboxItem, page, value_of, app_error, answer, refuse,
}
use order_hub.Iface.Server.{Server}
use order_hub.Iface.Handlers.{order_param}

-- `adminOperator`.
unfoldable pub admin_operator : String → String → Identity
admin_operator id tenant_id = record {
  user_id = "";
  tenant_id = tenant_id;
  attributes = end;
  trace_id = id;
}

-- `AdminPage`: the page that the program embeds.
abbrev pub admin_page : Response
admin_page = record { status = 200; body = page; headers = [] }

-- What `Recover` answers to a panic, as an error.
abbrev pub recovered : Err
recovered = record { kind = other; text = "internal error" }

-- `m[key]` of a decoded object; `null` for a missing key.
unfoldable pub entry_of : String → Fields → Json
entry_of key end = null
entry_of key (field k v rest) = elim (k == key) [ true ↦ v | false ↦ entry_of key rest ]

abbrev pub outbox_item : OutboxRow → OutboxItem
outbox_item row = record {
  event_id = row.event_id;
  attempts = row.attempts;
  event_type = row.payload.event_type;
  tenant_id = row.payload.tenant_id;
  occurred_at = row.payload.occurred_at;
  order_id = entry_of "order_id" row.payload.payload;
}

module _ (srv : Server) (id : String) (req : Request) where
  unfoldable pub admin_stats : Reply
  admin_stats = answer id Payload.stats (Query.admin_stats (value_of req.query "tenant_id"))

  -- The filter of `AdminListOrders` with its status.
  unfoldable pub list_with : String → Reply
  list_with status =
      answer id (λ found. Payload.orders (map view_order found.0) found.1)
        (Query.admin_list (record {
          tenant_id = value_of req.query "tenant_id";
          status = status;
          scene = value_of req.query "scene";
          query = value_of req.query "q";
          cursor = value_of req.query "cursor";
          limit = atoi (value_of req.query "limit");
        }))

  unfoldable pub admin_list_orders : Reply
  admin_list_orders =
      if value_of req.query "status" == ""
      then list_with ""
      else elim (parse_status (value_of req.query "status")) [
        | none ↦ refuse (app_error id (bare invalid_argument))
        | some parsed ↦ list_with (to_string parsed)
      ]

  unfoldable pub admin_get_order : Reply
  admin_get_order =
      answer id (λ o. Payload.order (view_order o))
        (Query.get_internal (value_of req.query "tenant_id") (order_param req))

  -- What the handlers of one order begin with: the order, of whatever tenant.
  abbrev pub on_order : {A : Type 0} → (Order → Action A) → Action A
  on_order act = Query.get_internal "" (order_param req) >>= act

  unfoldable pub admin_cancel : Reply
  admin_cancel =
      answer id (λ o. Payload.order (view_order o))
        (on_order λ o. Cancel.cancel srv.out (admin_operator id o.tenant_id) o.order_id)

  unfoldable pub admin_complete : Reply
  admin_complete =
      answer id (λ o. Payload.order (view_order o))
        (on_order λ o. Payment.complete srv.out o.tenant_id o.order_id)

  unfoldable pub admin_confirm_ledger : Reply
  admin_confirm_ledger =
      answer id (λ o. Payload.order (view_order o))
        (on_order
          λ o. Payment.confirm_ledger srv.out srv.scenes (admin_operator id o.tenant_id) o.order_id)

  -- The handler does not test for the service: without it, it panics, and `Recover` answers.
  unfoldable pub admin_renew : Reply
  admin_renew =
      answer id (λ o. Payload.order (view_order o))
        (on_order λ o.
          if srv.has_renew
          then Renew.renew srv.out (admin_operator id o.tenant_id) o.order_id
          else raise recovered)

  unfoldable pub admin_retry_paid : Reply
  admin_retry_paid =
      answer id (λ o. Payload.order (view_order o))
        (on_order λ o. do
          Payment.retry_after_paid srv.out srv.scenes o.tenant_id o.order_id
          Query.get_internal o.tenant_id o.order_id)

  unfoldable pub admin_refund : Reply
  admin_refund = answer id Payload.refunded (
      on_order λ o.
        Refund.refund srv.out (admin_operator id o.tenant_id) o.order_id
          (refund_cmd (srv.binder.refund_req req.body)))

  unfoldable pub admin_close : Reply
  admin_close =
      if not srv.has_close
      then refuse (app_error id (bare not_implemented))
      else answer id (λ o. Payload.order (view_order o))
          (on_order λ o. Close.close srv.out srv.scenes (admin_operator id o.tenant_id) o.order_id)

  -- `apply` of `AdminReconcileOffer`.
  unfoldable pub is_applied : Bool
  is_applied =
      req.method == "POST"
      || value_of req.query "apply" == "true"
      || value_of req.query "apply" == "1"

  unfoldable pub admin_reconcile_offer : Reply
  admin_reconcile_offer =
      if not srv.has_recon
      then refuse (app_error id (bare not_implemented))
      else answer id Payload.reconciled
          (Recon.run srv.out (value_of req.query "tenant_id") is_applied)

  unfoldable pub admin_outbox : Reply
  admin_outbox =
      answer id (λ rows. Payload.outbox (map outbox_item rows))
        (Query.list_outbox (atoi (value_of req.query "limit")))

  unfoldable pub admin_seed : Reply
  admin_seed =
      if not srv.has_seed
      then refuse (app_error id (bare not_implemented))
      else answer id Payload.seeded
          (Seed.seed srv.out srv.context_digest srv.checkout_digest srv.scenes srv.stamp)
