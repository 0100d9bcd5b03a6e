-- ===== src/Memory.antt =====
-- internal/infra/memory/order_repo.go: the store of the orders in memory. A method runs under the
-- store's lock, so it is one step; it returns its result and the store. `clone` copies what the
-- callers get, so no caller shares an order with the store.
pub mod Tickets
pub mod Claims
pub mod Insert
pub mod Transition
pub mod Queries
pub mod Newest
pub mod Paging
use order_hub.Prelude.{
  ℕ, suc, ◌+◌, ◌-◌, String, ◌<>◌, ◌==◌, Bool, true, false, ◌&&◌, ◌||◌, not, Option, none, some,
  List, [], ◌∷◌, ◌++◌, any, ltb, leb, nat_eq, length, take, if◌then◌else◌,
}
use order_hub.Prelude.Int.{ℤ, pos, ltb_ℤ, int_eq}
use order_hub.Prelude.Dict.{Dict, lookup, insert}
use order_hub.Domain.Int64.{add64}
use order_hub.Domain.Error.{
  Result, ok, err, bare, client_order_conflict, idempotency_conflict, order_not_found,
  version_conflict,
}
use order_hub.Domain.Status.{Status, pending_pay, status_eq}
use order_hub.Domain.Order.{Order, Amounts, Refund}
use order_hub.Domain.Order as Orders
use order_hub.Domain.Event.{Event}
use Tickets.{numbered, claim, update_ticket, find_ticket, has_open}
use order_hub.Port.{
  IdempotencyRecord, CheckoutResult, CheckoutPersist, TransitionCmd, CompensationTicket, OutboxRow,
}

pub record Repo : Type 0 where
  pub orders : Dict Order
  pub idem : Dict IdempotencyRecord
  pub events : List OutboxRow
  pub refunds : List Refund
  pub tickets : List CompensationTicket
  pub seq : ℕ
  pub client_ix : Dict String

-- `NewOrderRepo`.
abbrev pub new_repo : Repo
new_repo = record {
  orders = [];
  idem = [];
  events = [];
  refunds = [];
  tickets = [];
  seq = 0;
  client_ix = [];
}

-- The key of `r.orders`.
unfoldable pub order_key : String → String → String
order_key tenant order_id = tenant <> "|" <> order_id

unfoldable pub idem_key : String → String → String → String
idem_key tenant actor key = tenant <> "|" <> actor <> "|" <> key

unfoldable pub client_key : String → String → String → String
client_key tenant buyer cid = tenant <> "|" <> buyer <> "|" <> cid

-- `append(r.events, OutboxRow{…})`.
unfoldable pub append_event : Event → Repo → Repo
append_event ev r = record r {
  events = r.events ++ record { event_id = ev.event_id; payload = ev; attempts = 0 } ∷ [];
}

-- What `InsertCheckout` writes once its tests have passed.
unfoldable pub store_checkout : CheckoutPersist → Dict IdempotencyRecord → Repo → Repo
store_checkout rec idem r = append_event rec.event (record r {
  orders = insert (order_key rec.order.tenant_id rec.order.order_id) rec.order r.orders;
  idem = idem;
  client_ix =
      insert (client_key rec.order.tenant_id rec.order.buyer_user_id rec.order.client_order_id)
        rec.order.order_id r.client_ix;
})

-- `InsertCheckout` with an order that is not nil.
unfoldable pub insert_checkout : CheckoutPersist → Repo → Result (Unit {0}) × Repo
insert_checkout rec r =
    elim (lookup (client_key rec.order.tenant_id rec.order.buyer_user_id rec.order.client_order_id)
      r.client_ix) [
        | some taken ↦ (err (bare client_order_conflict), r)
        | none ↦ elim rec.idempotency [
          | none ↦ (ok tt, store_checkout rec r.idem r)
          | some i ↦ elim (lookup (idem_key i.tenant_id i.actor i.key) r.idem) [
            | some old ↦ (err (bare idempotency_conflict), r)
            | none ↦
                (ok tt, store_checkout rec (insert (idem_key i.tenant_id i.actor i.key) i r.idem) r)
          ]
        ]
      ]

-- The test of the loop of `FindByID`.
unfoldable pub is_order : String → String → Order → Bool
is_order tenant order_id o = o.order_id == order_id && (tenant == "" || o.tenant_id == tenant)

unfoldable pub find_order : String → String → Dict Order → Option Order
find_order tenant order_id [] = none
find_order tenant order_id ((k, o) ∷ m) =
    if is_order tenant order_id o then some o else find_order tenant order_id m

-- An option as a result: a missing order is `ErrOrderNotFound`.
abbrev pub or_not_found : {A : Type 0} → Option A → Result A
or_not_found none = err (bare order_not_found)
or_not_found (some a) = ok a

unfoldable pub find_by_id : String → String → Repo → Result Order
find_by_id tenant order_id r = or_not_found (find_order tenant order_id r.orders)

-- The client index names an order of the store; `clone(nil)` is nil, here the inner `none`.
unfoldable pub find_by_client_order_id : String → String → String → Repo → Result (Option Order)
find_by_client_order_id tenant buyer cid r =
    elim (lookup (client_key tenant buyer cid) r.client_ix) [
      | none ↦ err (bare order_not_found)
      | some id ↦ ok (lookup (order_key tenant id) r.orders)
    ]

unfoldable pub find_idempotency : String → String → String → Repo → Option IdempotencyRecord
find_idempotency tenant actor key r = lookup (idem_key tenant actor key) r.idem

unfoldable pub update_idempotency_response :
    String → String → String → CheckoutResult → Repo → Result (Unit {0}) × Repo
update_idempotency_response tenant actor key resp r =
    elim (lookup (idem_key tenant actor key) r.idem) [
      | none ↦ (ok tt, r)
      | some rec ↦ (
        ok tt,
        record r {
          idem = insert (idem_key tenant actor key) (record rec { response = resp }) r.idem;
        },
      )
    ]

-- The fields that `Transition` writes after the status has moved.
unfoldable pub apply_cmd : TransitionCmd → ℕ → Order → Order
apply_cmd cmd now o = record o {
  amounts = record (o.amounts) {
    paid = elim cmd.paid_amount [ none ↦ o.amounts.paid | some p ↦ p ];
    refunded =
        if ltb_ℤ (pos 0) cmd.refunded_add
        then add64 o.amounts.refunded cmd.refunded_add
        else o.amounts.refunded;
  };
  promotion = record (o.promotion) {
    redemption_id =
        if cmd.redemption_id == "" then o.promotion.redemption_id else cmd.redemption_id;
  };
  payment = record (o.payment) {
    payment_intent_id =
        if cmd.payment_intent_id == "" then o.payment.payment_intent_id else cmd.payment_intent_id;
  };
  paid_at = cmd.paid_at;
  cancelled_at = cmd.cancelled_at;
  completed_at = cmd.completed_at;
  updated_at = now;
}

-- The tests of `Transition` on the order that it found: the version, the source states (none are
-- listed: any), and the state machine.
unfoldable pub check_cmd : TransitionCmd → Order → Result Order
check_cmd cmd o =
    if not (int_eq o.version cmd.version)
    then err (bare version_conflict)
    else if ltb 0 (length cmd.from) && not (any (status_eq o.status) cmd.from)
    then err (bare version_conflict)
    else Orders.transition (some o) cmd.to

abbrev pub append_event? : Option Event → Repo → Repo
append_event? none r = r
append_event? (some ev) r = append_event ev r

-- `Transition` at the time `now`.
unfoldable pub transition : TransitionCmd → ℕ → Repo → Result Order × Repo
transition cmd now r = elim (lookup (order_key cmd.tenant_id cmd.order_id) r.orders) [
  | none ↦ (err (bare order_not_found), r)
  | some o ↦ elim (check_cmd cmd o) [
    | err e ↦ (err e, r)
    | ok moved ↦ (
      ok (apply_cmd cmd now moved),
      append_event? cmd.event (record r {
        orders = insert (order_key cmd.tenant_id cmd.order_id) (apply_cmd cmd now moved) r.orders;
      }),
    )
  ]
]

-- A write to one order that is there.
unfoldable pub update_order : String → String → (Order → Order) → Repo → Result (Unit {0}) × Repo
update_order tenant order_id f r = elim (lookup (order_key tenant order_id) r.orders) [
  | none ↦ (err (bare order_not_found), r)
  | some o ↦ (ok tt, record r { orders = insert (order_key tenant order_id) (f o) r.orders })
]

unfoldable pub update_payment_intent :
    String → String → String → String → Repo → Result (Unit {0}) × Repo
update_payment_intent tenant order_id intent_id channel =
    update_order tenant order_id
      λ o. record o { payment = record { payment_intent_id = intent_id; channel = channel } }

unfoldable pub update_redemption : String → String → String → Repo → Result (Unit {0}) × Repo
update_redemption tenant order_id redemption_id =
    update_order tenant order_id
      λ o. record o { promotion = record (o.promotion) { redemption_id = redemption_id } }

-- The loop of `ListExpiredPending`; `room` is what `limit` leaves.
unfoldable pub expired_pending : ℕ → ℕ → Dict Order → List Order
expired_pending now room [] = []
expired_pending now room ((k, o) ∷ m) =
    elim (status_eq o.status pending_pay && not (nat_eq o.expire_at 0) && ltb o.expire_at now) [
      | false ↦ expired_pending now room m
      | true ↦ elim (leb room 1) [ true ↦ o ∷ [] | false ↦ o ∷ expired_pending now (room - 1) m ]
    ]

unfoldable pub list_expired_pending : ℕ → ℕ → Repo → List Order
list_expired_pending now limit r = expired_pending now limit r.orders

-- The loop of `ListPendingPayForRenew`.
unfoldable pub due_for_renew : ℕ → ℕ → ℕ → ℕ → Dict Order → List Order
due_for_renew now deadline max_renew room [] = []
due_for_renew now deadline max_renew room ((k, o) ∷ m) =
    elim (not (status_eq o.status pending_pay)
      || o.promotion.reservation_id == ""
      || ltb o.expire_at now
      || ltb deadline o.expire_at
      || leb max_renew o.renew_count) [
        | true ↦ due_for_renew now deadline max_renew room m
        | false ↦ elim (leb room 1) [
          | true ↦ o ∷ []
          | false ↦ o ∷ due_for_renew now deadline max_renew (room - 1) m
        ]
      ]

unfoldable pub list_pending_pay_for_renew : ℕ → ℕ → ℕ → ℕ → Repo → List Order
list_pending_pay_for_renew now window max_renew limit r =
    due_for_renew now (now + window) max_renew limit r.orders

unfoldable pub bump_renew : String → String → ℕ → Repo → Result (Unit {0}) × Repo
bump_renew tenant order_id expected r = elim (lookup (order_key tenant order_id) r.orders) [
  | none ↦ (err (bare order_not_found), r)
  | some o ↦
      if not (status_eq o.status pending_pay) || not (nat_eq o.renew_count expected)
      then (err (bare version_conflict), r)
      else (
        ok tt,
        record r {
          orders =
              insert (order_key tenant order_id) (record o { renew_count = suc o.renew_count })
                r.orders;
        },
      )
]

unfoldable pub insert_refund : Refund → Repo → Repo
insert_refund refund r = record r { refunds = r.refunds ++ refund ∷ [] }

-- `InsertCompensation` at the time `now`.
unfoldable pub insert_compensation : CompensationTicket → ℕ → Repo → Repo
insert_compensation t now r = record r {
  seq = suc r.seq;
  tickets = r.tickets ++ numbered (suc r.seq) now t ∷ [];
}

unfoldable pub claim_compensations : ℕ → ℕ → Repo → List CompensationTicket × Repo
claim_compensations now limit r =
    let (out, tickets) = claim now limit r.tickets in (out, record r { tickets = tickets })

unfoldable pub update_compensation :
    ℕ → String → String → Option ℕ → Repo → Result (Unit {0}) × Repo
update_compensation id status last_error next_retry r =
    elim (update_ticket id status last_error next_retry r.tickets) [
      | none ↦ (err (bare order_not_found), r)
      | some tickets ↦ (ok tt, record r { tickets = tickets })
    ]

unfoldable pub find_compensation : ℕ → Repo → Result CompensationTicket
find_compensation id r = find_ticket id r.tickets

unfoldable pub has_open_compensation : String → String → String → Repo → Bool
has_open_compensation kind tenant ref r = has_open kind tenant ref r.tickets

-- At most `limit` of the oldest rows.
unfoldable pub list_unpublished_events : ℕ → Repo → List OutboxRow
list_unpublished_events limit r = take limit r.events

unfoldable pub without_event : String → List OutboxRow → List OutboxRow
without_event id [] = []
without_event id (e ∷ es) =
    if e.event_id == id then without_event id es else e ∷ without_event id es

unfoldable pub mark_event_published : String → Repo → Repo
mark_event_published id r = record r { events = without_event id r.events }
