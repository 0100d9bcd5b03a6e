-- ===== src/Infra/Sql/Writes.antt =====
-- internal/infra/persistence/order_repo.go: `Transition` and the other writes to rows that are there.
use order_hub.Prelude.{
  ℕ, suc, String, ◌==◌, Bool, true, ◌&&◌, ◌||◌, Option, none, some, List, [], ◌∷◌, any, map, ltb,
  leb, is_empty, nat_eq, if◌then◌else◌,
}
use order_hub.Prelude.Int.{ℤ, pos, ◌+ℤ◌, ltb_ℤ, int_eq}
use order_hub.Domain.Error.{Err, ok, err, bare, version_conflict, other}
use order_hub.Domain.Status.{status_eq, pending_pay}
use order_hub.Domain.Event.{Event, event_name}
use order_hub.Domain.Order.{Order, Refund}
use order_hub.Port.{TransitionCmd, CompensationTicket, CheckoutResult}
use order_hub.Infra.Rows.{
  Codec, OrderPo, OrderLinePo, OutboxPo, CompensationPo, po_to_order, po_to_comp,
}
use order_hub.Memory.Queries.{or_default}
use order_hub.Infra.Sql.{Query, Db, pure, raise, ◌>>=◌, ◌>>◌}

-- "tenant_id = ? AND order_id = ?".
unfoldable pub is_row : String → String → OrderPo → Bool
is_row tenant order_id row = row.tenant_id == tenant && row.order_id == order_id

-- "version = ?", and "status IN ?" when there are source states.
unfoldable pub at_command : TransitionCmd → OrderPo → Bool
at_command cmd row =
    int_eq row.version cmd.version && (is_empty cmd.from || any (status_eq row.status) cmd.from)

-- The condition of `Transition`.
unfoldable pub is_target : TransitionCmd → OrderPo → Bool
is_target cmd row = is_row cmd.tenant_id cmd.order_id row && at_command cmd row

-- The column of an update that is there when the command has a value.
abbrev pub set_if : {A : Type 0} → Option A → A → A
set_if none old = old
set_if (some new) old = new

unfoldable pub set_text : String → String → String
set_text new old = if new == "" then old else new

abbrev pub set_time : Option ℕ → Option ℕ → Option ℕ
set_time none old = old
set_time (some at) old = some at

-- The map `updates` of `Transition`.
unfoldable pub transition_updates : TransitionCmd → ℕ → OrderPo → OrderPo
transition_updates cmd now row = record row {
  status = cmd.to;
  version = row.version +ℤ pos 1;
  updated_at = now;
  paid_amount = set_if cmd.paid_amount row.paid_amount;
  refunded_amount =
      if ltb_ℤ (pos 0) cmd.refunded_add
      then row.refunded_amount +ℤ cmd.refunded_add
      else row.refunded_amount;
  redemption_id = set_text cmd.redemption_id row.redemption_id;
  payment_intent_id = set_text cmd.payment_intent_id row.payment_intent_id;
  paid_at = set_time cmd.paid_at row.paid_at;
  cancelled_at = set_time cmd.cancelled_at row.cancelled_at;
  completed_at = set_time cmd.completed_at row.completed_at;
}

-- The outbox row of an event.
unfoldable pub event_to_po : Event → OutboxPo
event_to_po ev = record {
  event_id = ev.event_id;
  event_type = event_name ev.event_type;
  tenant_id = ev.tenant_id;
  payload = ev;
  created_at = ev.occurred_at;
  published_at = none;
  attempts = 0;
}

-- A ticket's row, made at the time `now`.
unfoldable pub ticket_to_po : CompensationTicket → ℕ → CompensationPo
ticket_to_po t now = record {
  id = 0;
  kind = t.kind;
  tenant_id = t.tenant_id;
  ref = t.ref;
  payload = t.payload;
  status = if t.status == "" then "pending" else t.status;
  attempts = 0;
  last_error = "";
  next_retry = none;
  created_at = now;
  done_at = none;
}

-- "status = ? AND (next_retry_at IS NULL OR next_retry_at <= ?)" with one of some statuses.
unfoldable pub is_due : List String → ℕ → CompensationPo → Bool
is_due statuses now row =
    any (λ status. row.status == status) statuses
    && (elim row.next_retry [ none ↦ true | some at ↦ leb at now ])

-- The map of `UpdateCompensation`.
unfoldable pub ticket_updates : String → String → Option ℕ → ℕ → CompensationPo → CompensationPo
ticket_updates status last_error next_retry now row = record row {
  status = status;
  last_error = last_error;
  next_retry = set_time next_retry row.next_retry;
  done_at = if status == "done" || status == "failed" then some now else row.done_at;
}

module _ {S : Type 0} (db : Db S) (json : Codec) where
  -- The lines of an order, by their ids.
  unfoldable pub lines_of : String → Query S (List OrderLinePo)
  lines_of order_id = db.lines.find (λ row. row.order_id == order_id) (λ a b. ltb a.id b.id) none

  -- A row that `First` did not find is an error.
  unfoldable pub or_missing : {A : Type 0} → Err → Option A → Query S A
  or_missing e none = raise e
  or_missing e (some a) = pure a

  -- An order from its row and the rows of its lines.
  unfoldable pub with_lines : String → OrderPo → Query S Order
  with_lines order_id po = lines_of order_id >>= λ lines. pure (po_to_order json po lines)

  unfoldable pub with_found : Err → String → Option OrderPo → Query S Order
  with_found missing order_id none = raise missing
  with_found missing order_id (some po) = with_lines order_id po

  -- The order that `Transition` returns, read again under its key; gorm's error of a missing row is
  -- passed on as it is.
  unfoldable pub reread : Err → String → String → Query S Order
  reread missing tenant order_id =
      db.orders.first (is_row tenant order_id) >>= with_found missing order_id

  unfoldable pub create_event : Option Event → Query S (Unit {0})
  create_event none = pure tt
  create_event (some ev) = db.outbox.create (event_to_po ev)

  -- The steps of `Transition` after its update, which met `n` rows.
  unfoldable pub after_update : TransitionCmd → ℕ → Query S Order
  after_update cmd n =
      if nat_eq n 0
      then raise (bare version_conflict)
      else create_event cmd.event >> reread (bare other) cmd.tenant_id cmd.order_id

  -- `Transition`.
  unfoldable pub transition : TransitionCmd → ℕ → Query S Order
  transition cmd now =
      db.transaction
        (db.orders.updates (is_target cmd) (transition_updates cmd now) >>= after_update cmd)

  unfoldable pub update_payment_intent : String → String → String → String → ℕ → Query S (Unit {0})
  update_payment_intent tenant order_id intent_id channel now = do
    n ← db.orders.updates (is_row tenant order_id) λ row. record row {
      payment_intent_id = intent_id;
      payment_channel = channel;
      updated_at = now;
    }
    pure tt

  unfoldable pub update_redemption : String → String → String → ℕ → Query S (Unit {0})
  update_redemption tenant order_id redemption_id now = do
    n ←
        db.orders.updates (is_row tenant order_id)
          λ row. record row { redemption_id = redemption_id; updated_at = now }
    pure tt

  unfoldable pub update_idempotency_response :
      String → String → String → CheckoutResult → Query S (Unit {0})
  update_idempotency_response tenant actor key resp = do
    n ←
        db.idempotency.updates
          (λ row. row.tenant_id == tenant && row.actor == actor && row.key == key)
          λ row. record row { response = resp }
    pure tt

  -- `BumpRenew`.
  unfoldable pub bump_renew : String → String → ℕ → ℕ → Query S (Unit {0})
  bump_renew tenant order_id expected now = do
    n ←
        db.orders.updates
          (λ row.
            is_row tenant order_id row
            && status_eq row.status pending_pay
            && nat_eq row.renew_count expected)
          λ row. record row { renew_count = suc row.renew_count; updated_at = now }
    if nat_eq n 0 then raise (bare version_conflict) else pure tt

  -- `InsertRefund`; the database drops a second row of the same refund.
  unfoldable pub insert_refund : Refund → Query S (Unit {0})
  insert_refund refund = db.refunds.create_once refund

  unfoldable pub insert_compensation : CompensationTicket → ℕ → Query S (Unit {0})
  insert_compensation t now = db.compensations.create (ticket_to_po t now)

  unfoldable pub update_compensation : ℕ → String → String → Option ℕ → ℕ → Query S (Unit {0})
  update_compensation id status last_error next_retry now = do
    n ←
        db.compensations.updates (λ row. nat_eq row.id id)
          (ticket_updates status last_error next_retry now)
    pure tt

  -- The rows that `ClaimCompensations` found, marked as taken.
  unfoldable pub mark_claimed : List CompensationPo → Query S (List CompensationPo)
  mark_claimed [] = pure []
  mark_claimed (row ∷ rows) = do
    n ←
        db.compensations.updates (λ r. any (λ (c : CompensationPo). nat_eq r.id c.id) (row ∷ rows))
          λ r. record r { attempts = suc r.attempts; status = "running" }
    pure (map (λ (c : CompensationPo). record c { attempts = suc c.attempts }) (row ∷ rows))

  unfoldable pub claim_locked : ℕ → ℕ → Query S (List CompensationPo)
  claim_locked now limit = db.transaction (
      db.compensations.find (is_due ("pending" ∷ []) now) (λ a b. ltb a.id b.id) (some limit)
      >>= mark_claimed)

  -- `ClaimCompensations`; without locks of rows it falls back to a scan that marks nothing.
  unfoldable pub claim_compensations : ℕ → ℤ → Query S (List CompensationTicket)
  claim_compensations now limit s =
      let most = or_default 50 limit in
      let (claimed, after) = claim_locked now most s in
      elim claimed [
        | ok rows ↦ (ok (map po_to_comp rows), after)
        | err _ ↦
            (db.compensations.find (is_due ("pending" ∷ "running" ∷ []) now) (λ a b. ltb a.id b.id)
                  (some most)
                >>= λ rows. pure (map po_to_comp rows))
              after
      ]

  -- `MarkEventPublished`.
  unfoldable pub mark_event_published : String → ℕ → Query S (Unit {0})
  mark_event_published event_id now = do
    n ←
        db.outbox.updates (λ row. row.event_id == event_id)
          λ row. record row { published_at = some now; attempts = suc row.attempts }
    pure tt
