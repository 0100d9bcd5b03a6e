-- ===== src/Tests/Workers.antt =====
-- The outbox worker, the reconciliation and the lists of the store at concrete values.
use mathlib.Core.List.{Permᴰ}
use order_hub.Prelude.{
  ◌≡◌, ◌≢◌, refl, arith, ◌≤◌, ◌+◌, ◌*◌, length, ℕ, zero, suc, String, true, List, [], ◌∷◌, All,
  replicate, text-apart,
}
use order_hub.Prelude.Int.{pos}
use order_hub.Domain.Json.{end}
use order_hub.Domain.Status.{paid}
use order_hub.Domain.Event.{EventType, new_event}
use order_hub.Domain.Order.{Order}
use order_hub.Port.{OutboxRow, AdminListFilter, new_ticket}
use order_hub.Memory.{Repo, new_repo}
use order_hub.Memory.Tickets.{numbered, has_open}
use order_hub.Memory.Newest.{wanted, Passing, IsNewestFirst, wanted-IsNewestFirst}
use order_hub.Memory.Paging.{pages, pages_whole}
use order_hub.Memory.Queries.{
  select, is_wanted, accepts, newest_first, insert_newer, newer, is_cursor, has_suffix,
}
use order_hub.Application.Action.{World}
use order_hub.Application.Outbox.{outbox_tick}
use order_hub.Application.Outbox.Each.{refused, handed, outbox_tick-refused}
use order_hub.Application.Outbox.Row.{IsOther}
use order_hub.Application.Outbox.Shared.{outbox_tick-skips}
use order_hub.Application.Recon.{run}
use order_hub.Application.Recon.Tickets.{IsSingle, run-IsSingle}
use order_hub.Domain.Scene.{default_scenes}
use order_hub.Application.Compensate.Tried.{total_left}
use order_hub.Application.Compensate.Ends.{tries, after_rounds, tries_end}
use order_hub.Tests.Store.{tickets}
use order_hub.Tests.Orders.{order_at}
use order_hub.Tests.Services.{hubs, one_paid}

abbrev row : String → OutboxRow
row id = record {
  event_id = id;
  payload = new_event id EventType.paid "t1" "tr1" 5 end;
  attempts = 0;
}

e1≢e2 : (let id : String = "e1" in id) ≢ "e2"
e1≢e2 = text-apart "e1" "e2" refl

e1≢e3 : (let id : String = "e1" in id) ≢ "e3"
e1≢e3 = text-apart "e1" "e3" refl

e2≢e3 : (let id : String = "e2" in id) ≢ "e3"
e2≢e3 = text-apart "e2" "e3" refl

abbrev two_events : World
two_events = record { repo = record new_repo { events = row "e1" ∷ row "e2" ∷ [] }; calls = [] }

outbox_tick-refused_example :
    ((outbox_tick hubs two_events).1.repo.events ≡ refused hubs [] (row "e1" ∷ row "e2" ∷ []))
    × ((outbox_tick hubs two_events).1.calls ≡ handed [] (row "e1" ∷ row "e2" ∷ []))
outbox_tick-refused_example =
    outbox_tick-refused hubs two_events (omega arith) ((e1≢e2, tt), (tt, tt))

abbrev many : List OutboxRow
many = replicate 200 (row "e3")

abbrev crowded : World
crowded = record {
  repo = record new_repo { events = row "e1" ∷ row "e2" ∷ row "e3" ∷ many };
  calls = [];
}

All-replicate : (P : OutboxRow → Type 0) (n : ℕ) (e : OutboxRow) → P e → All P (replicate n e)
All-replicate P zero e h = tt
All-replicate P (suc n) e h = (h, All-replicate P n e h)

outbox_tick-skips_example :
    (others : List OutboxRow) × ((outbox_tick hubs crowded).1.repo.events ≡ row "e2" ∷ others)
outbox_tick-skips_example =
    outbox_tick-skips hubs (row "e1") (row "e2") (row "e3") many crowded refl
      (e1≢e2, (e1≢e3, All-replicate (IsOther (row "e1")) 200 (row "e3") e1≢e3))
      (e2≢e3, All-replicate (IsOther (row "e2")) 200 (row "e3") e2≢e3) (omega arith) refl

abbrev ticketed : World
ticketed = record one_paid {
  repo = record (one_paid.repo) {
    tickets = numbered 1 5 (new_ticket "after_paid" "t1" "o1" "rsv1") ∷ [];
  };
}

run-IsSingle_example : IsSingle (run hubs "t1" true ticketed).1.repo.tickets
unfolding has_open
run-IsSingle_example = run-IsSingle hubs "t1" true ticketed ((λ o. refl), tt)

abbrev anything : AdminListFilter
anything = record {
  tenant_id = "t1";
  status = "";
  scene = "";
  query = "";
  cursor = "";
  limit = pos 1;
}

abbrev second_order : Order
second_order = record (order_at paid) { order_id = "o2"; client_order_id = "c2"; created_at = 3 }

abbrev two_orders : Repo
two_orders = record new_repo { orders = ("t1|o1", order_at paid) ∷ ("t1|o2", second_order) ∷ [] }

wanted-IsNewestFirst_example :
    (os : List Order) × Passing anything two_orders.orders os
    × Permᴰ os (wanted anything two_orders)
    × IsNewestFirst (wanted anything two_orders)
wanted-IsNewestFirst_example = wanted-IsNewestFirst anything two_orders

pages_whole_example : pages 2 anything two_orders ≡ wanted anything two_orders
unfolding select is_wanted accepts newest_first insert_newer newer is_cursor has_suffix
pages_whole_example =
    pages_whole anything two_orders 0 2 refl refl
      (text-apart "o2" "" refl, (refl, tt), (text-apart "o1" "" refl, tt, tt)) (omega arith)

abbrev four_tickets : World
four_tickets = record { repo = record new_repo { tickets = tickets }; calls = [] }

tries_end_example :
    (tries hubs default_scenes 30 four_tickets
        + total_left (after_rounds hubs default_scenes 30 four_tickets).repo.tickets
      ≤ total_left tickets)
    × (tries hubs default_scenes 30 four_tickets ≤ 21 * length tickets)
tries_end_example = tries_end hubs default_scenes 30 four_tickets (
  (omega arith, (omega arith, (omega arith, tt))),
  ((omega arith, (omega arith, tt)), ((omega arith, tt), (tt, tt))),
)
