-- ===== src/Application/Query.antt =====
-- internal/application/query_cancel.go: `QueryService`, and `CompensateWorker.List`.
use order_hub.Prelude.{ℕ, String, ◌==◌, ◌||◌, none, some, List, ltb, leb, if◌then◌else◌}
use order_hub.Prelude.Int.{ℤ, pos, negsuc}
use order_hub.Prelude.Dict.{Dict}
use order_hub.Domain.Error.{ok, wrapped, invalid_argument}
use order_hub.Domain.Status.{parse_status, to_string}
use order_hub.Domain.Order.{Order}
use order_hub.Port.{Identity, AdminListFilter, OutboxRow, CompensationTicket}
use order_hub.Memory.{find_by_id, list_unpublished_events}
use order_hub.Memory.Queries as Queries
use order_hub.Memory.Queries.{list_by_buyer}
use order_hub.Application.Action.{Action, pure, raise, reads, ◌>>=◌}

-- `QueryService.GetInternal`.
unfoldable pub get_internal : String → String → Action Order
get_internal tenant_id order_id = reads (find_by_id tenant_id order_id)

-- `if limit <= 0 || limit > most { limit = default }`.
unfoldable pub clamp : ℕ → ℕ → ℤ → ℕ
clamp most default limit = elim limit [
  | negsuc _ ↦ default
  | pos n ↦ if leb n 0 || ltb most n then default else n
]

-- `QueryService.List`.
unfoldable pub list : Identity → String → String → String → ℤ → Action (List Order × String)
list ident status scene cursor limit =
    if status == ""
    then reads (λ r.
      ok (list_by_buyer ident.tenant_id ident.user_id "" scene cursor (pos (clamp 100 20 limit)) r))
    else elim (parse_status status) [
      | none ↦ raise (wrapped invalid_argument "status")
      | some parsed ↦ reads λ r. ok (
          list_by_buyer ident.tenant_id ident.user_id (to_string parsed) scene cursor
            (pos (clamp 100 20 limit)) r)
    ]

pub record AdminStats : Type 0 where
  pub orders : Dict ℕ
  pub compensations : Dict ℕ
  pub unpublished_events : ℕ

-- `QueryService.AdminList`.
unfoldable pub admin_list : AdminListFilter → Action (List Order × String)
admin_list f =
    let clamped = record f { limit = pos (clamp 100 20 f.limit) } in
    if f.status == ""
    then reads (λ r. ok (Queries.admin_list clamped r))
    else elim (parse_status f.status) [
      | none ↦ raise (wrapped invalid_argument "status")
      | some _ ↦ reads λ r. ok (Queries.admin_list clamped r)
    ]

-- `QueryService.AdminStats`.
unfoldable pub admin_stats : String → Action AdminStats
admin_stats tenant_id = do
  orders ← reads λ r. ok (Queries.count_orders_by_status tenant_id r)
  comps ← reads λ r. ok (Queries.count_compensations_by_status r)
  n ← reads λ r. ok (Queries.count_unpublished_events r)
  pure (record { orders = orders; compensations = comps; unpublished_events = n })

-- `QueryService.ListOutbox`.
unfoldable pub list_outbox : ℤ → Action (List OutboxRow)
list_outbox limit = reads λ r. ok (list_unpublished_events (clamp 200 50 limit) r)

-- `CompensateWorker.List`.
unfoldable pub list_tickets : String → ℤ → Action (List CompensationTicket)
list_tickets status limit =
    reads λ r. ok (Queries.list_compensations status (pos (clamp 200 50 limit)) r)
