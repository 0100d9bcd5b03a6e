-- ===== src/Tests/Store.antt =====
-- internal/infra/memory/order_repo.go at concrete stores.
use order_hub.Prelude.{
  ◌≡◌, ◌≢◌, refl, arith, ◌==◌, String, none, some, List, [], ◌∷◌, ◌++◌, if◌then◌else◌,
}
use order_hub.Prelude.Int.{pos, ◌+ℤ◌}
use order_hub.Prelude.Dict.{lookup, insert}
use order_hub.Domain.Int64.{wrap64}
use order_hub.Domain.Error.{
  ok, err, bare, version_conflict, client_order_conflict, idempotency_conflict,
}
use order_hub.Domain.Status.{pending_pay, paid, cancelled, can_transition, transitions}
use order_hub.Domain.Order.{Order}
use order_hub.Domain.Order as Orders
use order_hub.Domain.Event.{EventType, new_event}
use order_hub.Domain.Json.{end}
use order_hub.Port.{
  TransitionCmd, command, CheckoutPersist, IdempotencyRecord, CheckoutResult, CompensationTicket,
  new_ticket,
}
use order_hub.Memory.{
  Repo, new_repo, order_key, idem_key, client_key, insert_checkout, store_checkout, append_event,
  transition, check_cmd, apply_cmd,
}
use order_hub.Memory.Tickets.{claim}
use order_hub.Memory.Insert.{
  client_key_of, idem_key_of, Stored, insert_checkout_cases, one_order_per_client_id,
}
use order_hub.Memory.Transition.{transition_once, transition_writes, rows_of}
use order_hub.Memory.Claims.{Takes, claim-Takes}
use order_hub.Tests.Orders.{order_at}

abbrev pub created : Order
created = order_at pending_pay

abbrev answer : CheckoutResult
answer = record {
  order_id = "o1";
  status = pending_pay;
  reservation_id = "rsv1";
  freeze_id = "frz1";
  payment_intent = none;
  payable_amount = pos 1200;
  currency = "CNY";
  expire_at = 900;
}

abbrev pub key : IdempotencyRecord
key = record {
  tenant_id = "t1";
  actor = "u1";
  key = "c1";
  request_hash = "h1";
  response = answer;
  order_id = "o1";
  created_at = 0;
}

abbrev pub stored : CheckoutPersist
stored = record {
  order = created;
  idempotency = some key;
  event = new_event "e1" EventType.created "t1" "" 0 end;
}

-- The same buyer's second order under the client order id, with another key.
abbrev again : CheckoutPersist
again = record stored {
  order = record created { order_id = "o2" };
  idempotency = some (record key { key = "c2"; order_id = "o2" });
}

abbrev pub one_order : Repo
one_order = (insert_checkout stored new_repo).1

abbrev pay : TransitionCmd
pay = record (command created (pending_pay ∷ []) paid) {
  paid_amount = some (pos 1200);
  paid_at = some 5;
}

abbrev drop_order : TransitionCmd
drop_order = command created (pending_pay ∷ []) cancelled

insert_checkout_cases_example :
    (lookup (client_key_of stored) new_repo.client_ix ≢ none
      → insert_checkout stored new_repo ≡ (err (bare client_order_conflict), new_repo))
    × (lookup (client_key_of stored) new_repo.client_ix ≡ none
        → lookup (idem_key_of key) new_repo.idem ≢ none
        → insert_checkout stored new_repo ≡ (err (bare idempotency_conflict), new_repo))
    × (lookup (client_key_of stored) new_repo.client_ix ≡ none
        → lookup (idem_key_of key) new_repo.idem ≡ none
        → (r' : Repo) × (insert_checkout stored new_repo ≡ (ok tt, r'))
          × Stored stored key new_repo r')
insert_checkout_cases_example = insert_checkout_cases stored key new_repo refl

one_order_per_client_id_example :
    insert_checkout again one_order ≡ (err (bare client_order_conflict), one_order)
unfolding insert_checkout lookup
one_order_per_client_id_example =
    one_order_per_client_id stored again new_repo {r' = one_order} refl refl

transition_once_example :
    transition drop_order 6 (transition pay 5 one_order).1
    ≡ (err (bare version_conflict), (transition pay 5 one_order).1)
unfolding insert_checkout lookup insert store_checkout append_event transition check_cmd
    Orders.transition can_transition transitions order_key idem_key client_key
transition_once_example = transition_once pay drop_order 5 6 one_order (omega arith) refl refl refl

transition_writes_example :
    ((k : String)
      → lookup k (transition pay 5 one_order).1.orders ≡ (
          if order_key "t1" "o1" == k
          then some (apply_cmd pay 5 (record created { status = paid; version = pos 2 }))
          else lookup k one_order.orders))
    × ((transition pay 5 one_order).1.events ≡ one_order.events ++ rows_of none)
    × ((transition pay 5 one_order).1.idem ≡ one_order.idem)
    × ((transition pay 5 one_order).1.client_ix ≡ one_order.client_ix)
    × ((transition pay 5 one_order).1.refunds ≡ one_order.refunds)
    × ((transition pay 5 one_order).1.tickets ≡ one_order.tickets)
unfolding insert_checkout lookup insert store_checkout append_event transition check_cmd
    Orders.transition can_transition transitions order_key idem_key client_key wrap64 ◌+ℤ◌
transition_writes_example = transition_writes pay 5 one_order refl

-- The second waits for its retry, the third is done.
abbrev pub tickets : List CompensationTicket
tickets =
    record (new_ticket "offer_release" "t1" "rsv1" "o1") { id = 1; status = "pending" }
    ∷ record (new_ticket "after_paid" "t1" "o2" "") {
      id = 2;
      status = "pending";
      next_retry = some 99;
    }
    ∷ record (new_ticket "after_paid" "t1" "o3" "") { id = 3; status = "done" }
    ∷ record (new_ticket "offer_reverse" "t1" "r1" "") { id = 4; status = "running" }
    ∷ []

claim-Takes_example : Takes 10 50 tickets (claim 10 50 tickets).0 (claim 10 50 tickets).1
claim-Takes_example = claim-Takes 10 50 tickets
