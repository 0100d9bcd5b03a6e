-- ===== src/Memory/Queries.antt =====
-- internal/infra/memory/order_repo.go: the lists and the counts of the store. Go walks over a map in
-- any order, the model in the order of the dictionary.
use Prim.Native.Nat.{compare as compare_ℕ, Ordering}
use Prim.Native.String.{compare as compare_text, len, slice}
use mathlib.Core.List.{reverse}
use order_hub.Prelude.{
  ℕ, zero, suc, ◌-◌, String, ◌<>◌, ◌==◌, Bool, true, false, ◌&&◌, ◌||◌, not, Option, none, some,
  List, [], ◌∷◌, ltb, leb, length, take, get_elem?, if◌then◌else◌,
}
use order_hub.Prelude.Int.{ℤ, pos, negsuc, leb_ℤ}
use order_hub.Prelude.Dict.{Dict, lookup, insert}
use order_hub.Domain.Status.{to_string}
use order_hub.Domain.Order.{Order}
use order_hub.Port.{CompensationTicket, AdminListFilter}
use order_hub.Memory.Tickets.{is_open}
use order_hub.Memory.{Repo}

-- The tests with `continue`, over the orders in turn: what `append` collects.
unfoldable pub select : (Order → Bool) → Dict Order → List Order
select wanted [] = []
select wanted ((k, o) ∷ m) = if wanted o then o ∷ select wanted m else select wanted m

-- `if wanted != "" && found != wanted { continue }`.
unfoldable pub accepts : String → String → Bool
accepts wanted found = wanted == "" || found == wanted

-- An order that `ListByBuyer` lists; the status "" stands for any.
unfoldable pub is_of_buyer : String → String → String → String → Order → Bool
is_of_buyer tenant buyer status scene o =
    o.tenant_id == tenant
    && o.buyer_user_id == buyer
    && accepts status (to_string o.status)
    && accepts scene o.scene

-- The id of the order at an index in range.
unfoldable pub id_at : ℕ → List Order → String
id_at i os = elim (get_elem? os i) [ none ↦ "" | some o ↦ o.order_id ]

-- The first `limit` orders and the cursor of the next page.
unfoldable pub page : ℤ → List Order → List Order × String
page (negsuc _) os = (os, "")
page (pos n) os = if ltb 0 n && ltb n (length os) then (take n os, id_at (n - 1) os) else (os, "")

-- `ListByBuyer`; the cursor is not read.
unfoldable pub list_by_buyer :
    String → String → String → String → String → ℤ → Repo → List Order × String
list_by_buyer tenant buyer status scene cursor limit r =
    page limit (select (is_of_buyer tenant buyer status scene) r.orders)

-- An order that `AdminList` lists.
unfoldable pub is_wanted : AdminListFilter → Order → Bool
is_wanted f o =
    accepts f.tenant_id o.tenant_id
    && accepts f.status (to_string o.status)
    && accepts f.scene o.scene
    && (f.query == ""
        || o.order_id == f.query
        || o.client_order_id == f.query
        || o.buyer_user_id == f.query)

-- The order of the list: the newest first, and of two that were made at once the one with the
-- greater id first.
unfoldable pub newer : Order → Order → Bool
newer a b = elim (compare_ℕ a.created_at b.created_at) [
  | Ordering.gt ↦ true
  | Ordering.lt ↦ false
  | Ordering.eq ↦ elim (compare_text a.order_id b.order_id) [ Ordering.gt ↦ true | _ ↦ false ]
]

-- `sort.Slice`, as an insertion sort.
unfoldable pub insert_newer : Order → List Order → List Order
insert_newer o [] = o ∷ []
insert_newer o (x ∷ xs) = let rest = insert_newer o xs in if newer x o then x ∷ rest else o ∷ x ∷ xs

unfoldable pub newest_first : List Order → List Order
newest_first [] = []
newest_first (o ∷ os) = insert_newer o (newest_first os)

-- `strings.HasSuffix`, by bytes.
unfoldable pub has_suffix : String → String → Bool
has_suffix s t = leb (len t) (len s) && slice s (len s - len t) (len s) == t

-- The order that a cursor names.
unfoldable pub is_cursor : String → Order → Bool
is_cursor cursor o = o.order_id == cursor || has_suffix cursor ("|" <> o.order_id)

-- What lies behind the first order that the cursor names, when there is one.
unfoldable pub behind : String → List Order → Option (List Order)
behind cursor [] = none
behind cursor (o ∷ os) = if is_cursor cursor o then some os else behind cursor os

-- `if f.Cursor != "" { … }`.
unfoldable pub from_cursor : String → List Order → List Order
from_cursor cursor os =
    if cursor == "" then os else elim (behind cursor os) [ none ↦ os | some rest ↦ rest ]

unfoldable pub admin_list : AdminListFilter → Repo → List Order × String
admin_list f r = page f.limit (from_cursor f.cursor (newest_first (select (is_wanted f) r.orders)))

-- `out[key]++`.
unfoldable pub count_one : String → Dict ℕ → Dict ℕ
count_one key counts = insert key (elim (lookup key counts) [ none ↦ 1 | some n ↦ suc n ]) counts

unfoldable pub count_statuses : List Order → Dict ℕ → Dict ℕ
count_statuses [] counts = counts
count_statuses (o ∷ os) counts = count_statuses os (count_one (to_string o.status) counts)

unfoldable pub count_orders_by_status : String → Repo → Dict ℕ
count_orders_by_status tenant r =
    count_statuses (select (λ o. accepts tenant o.tenant_id) r.orders) []

unfoldable pub count_tickets : List CompensationTicket → Dict ℕ → Dict ℕ
count_tickets [] counts = counts
count_tickets (t ∷ ts) counts = count_tickets ts (count_one t.status counts)

unfoldable pub count_compensations_by_status : Repo → Dict ℕ
count_compensations_by_status r = count_tickets r.tickets []

unfoldable pub count_unpublished_events : Repo → ℕ
count_unpublished_events r = length r.events

-- The loop of `ListCompensations` over the tickets, the last one first; `room` is what the limit
-- leaves.
unfoldable pub last_tickets : String → ℕ → List CompensationTicket → List CompensationTicket
last_tickets status room [] = []
last_tickets status room (t ∷ ts) = elim (accepts status t.status) [
  | false ↦ last_tickets status room ts
  | true ↦ elim (leb room 1) [ true ↦ t ∷ [] | false ↦ t ∷ last_tickets status (room - 1) ts ]
]

-- A limit that is not positive stands for the default.
unfoldable pub or_default : ℕ → ℤ → ℕ
or_default default (negsuc _) = default
or_default default (pos zero) = default
or_default default (pos (suc n)) = suc n

unfoldable pub list_compensations : String → ℤ → Repo → List CompensationTicket
list_compensations status limit r = last_tickets status (or_default 50 limit) (reverse r.tickets)

-- `Count` and `TicketCount`.
unfoldable pub count : Repo → ℕ
count r = length r.orders

unfoldable pub count_open : List CompensationTicket → ℕ
count_open [] = 0
count_open (t ∷ ts) = if is_open t then suc (count_open ts) else count_open ts

unfoldable pub ticket_count : Repo → ℕ
ticket_count r = count_open r.tickets

-- The loop of `ListForReconcile`.
unfoldable pub to_reconcile : String → ℕ → Dict Order → List Order
to_reconcile tenant room [] = []
to_reconcile tenant room ((k, o) ∷ m) =
    elim (not (accepts tenant o.tenant_id)
      || (o.promotion.reservation_id == "" && leb_ℤ o.amounts.ledger_pay (pos 0))) [
        | true ↦ to_reconcile tenant room m
        | false ↦ elim (leb room 1) [ true ↦ o ∷ [] | false ↦ o ∷ to_reconcile tenant (room - 1) m ]
      ]

unfoldable pub list_for_reconcile : String → ℤ → Repo → List Order
list_for_reconcile tenant limit r = to_reconcile tenant (or_default 200 limit) r.orders
