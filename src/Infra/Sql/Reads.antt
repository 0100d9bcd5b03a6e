-- ===== src/Infra/Sql/Reads.antt =====
-- internal/infra/persistence/order_repo.go: what only reads. The format of a time in a cursor and its
-- parser, `time.Format` and `time.Parse`, are parameters.
use Prim.Native.Nat.{compare as compare_ℕ, Ordering}
use Prim.Native.String.{compare as compare_text, len, slice}
use order_hub.Prelude.{
  ℕ, zero, suc, ◌+◌, ◌-◌, String, ◌<>◌, ◌==◌, Bool, true, false, ◌&&◌, ◌||◌, not, Option, none,
  some, List, [], ◌∷◌, map, any, ltb, leb, nat_eq, length, take, get_elem?, if◌then◌else◌,
}
use order_hub.Prelude.Int.{ℤ, pos, ltb_ℤ}
use order_hub.Domain.Error.{ok, err, bare, order_not_found}
use order_hub.Domain.Status.{status_eq, pending_pay, to_string}
use order_hub.Domain.Order.{Order}
use order_hub.Port.{IdempotencyRecord, AdminListFilter, CompensationTicket, OutboxRow}
use order_hub.Memory.Queries.{accepts, or_default}
use order_hub.Infra.Rows.{Codec, OrderPo, OutboxPo, po_to_order, po_to_comp}
use order_hub.Infra.Sql.{Query, Db, pure, ◌>>=◌}
use order_hub.Infra.Sql.Writes.{is_row, lines_of, or_missing}

-- "created_at DESC, order_id DESC".
unfoldable pub newer_row : OrderPo → OrderPo → Bool
newer_row a b = elim (compare_ℕ a.created_at b.created_at) [
  | Ordering.gt ↦ true
  | Ordering.lt ↦ false
  | Ordering.eq ↦ elim (compare_text a.order_id b.order_id) [ Ordering.gt ↦ true | _ ↦ false ]
]

-- "(created_at, order_id) < (?, ?)".
unfoldable pub is_behind : ℕ × String → OrderPo → Bool
is_behind (at, id) row = elim (compare_ℕ row.created_at at) [
  | Ordering.lt ↦ true
  | Ordering.gt ↦ false
  | Ordering.eq ↦ elim (compare_text row.order_id id) [ Ordering.lt ↦ true | _ ↦ false ]
]

-- "expire_at", as far as it is set.
unfoldable pub expires_before : OrderPo → OrderPo → Bool
expires_before a b = elim a.expire_at [
  | none ↦ false
  | some at ↦ elim b.expire_at [ none ↦ true | some bt ↦ ltb at bt ]
]

-- A condition on a time that may be null.
unfoldable pub if_set : (ℕ → Bool) → Option ℕ → Bool
if_set test none = false
if_set test (some at) = test at

unfoldable pub is_expired : ℕ → OrderPo → Bool
is_expired now row = status_eq row.status pending_pay && if_set (λ at. ltb at now) row.expire_at

unfoldable pub is_due_for_renew : ℕ → ℕ → ℕ → OrderPo → Bool
is_due_for_renew now window max_renew row =
    status_eq row.status pending_pay
    && not (row.reservation_id == "")
    && if_set (λ at. ltb now at) row.expire_at
    && if_set (λ at. leb at (now + window)) row.expire_at
    && ltb row.renew_count max_renew

-- "reservation_id <> '' OR ledger_pay_amount > 0", of one tenant or of any.
unfoldable pub to_compare : String → OrderPo → Bool
to_compare tenant row =
    (not (row.reservation_id == "") || ltb_ℤ (pos 0) row.ledger_pay_amount)
    && accepts tenant row.tenant_id

-- The position of the last "|" in the first `n` bytes: `strings.LastIndex`.
unfoldable pub last_bar : ℕ → String → Option ℕ
last_bar zero s = none
last_bar (suc n) s = let rest = last_bar n s in if slice s n (suc n) == "|" then some n else rest

-- A page of rows, `limit + 1` of which were asked for, and the cursor of the next one.
unfoldable pub page_rows : (ℕ → String) → ℕ → List OrderPo → List OrderPo × String
page_rows format limit rows =
    if ltb limit (length rows)
    then (
      take limit rows,
      elim (get_elem? rows (limit - 1)) [
        | none ↦ ""
        | some last ↦ format last.created_at <> "|" <> last.order_id
      ],
    )
    else (rows, "")

module _ (format : ℕ → String) (parse : String → Option ℕ) where
  -- `splitCursor`.
  unfoldable pub split_cursor : String → Option (ℕ × String)
  split_cursor cursor = elim (last_bar (len cursor) cursor) [
    | none ↦ none
    | some i ↦ if nat_eq i 0 then none else elim (parse (slice cursor 0 i)) [
      | none ↦ none
      | some at ↦ some (at, slice cursor (suc i) (len cursor))
    ]
  ]

  unfoldable pub past_cursor : String → OrderPo → Bool
  past_cursor cursor row =
      if cursor == ""
      then true
      else elim (split_cursor cursor) [ none ↦ true | some place ↦ is_behind place row ]

  module _ {S : Type 0} (db : Db S) (json : Codec) where
    -- Orders as the lists return them, without their lines.
    unfoldable pub bare_orders : List OrderPo → List Order
    bare_orders = map λ po. po_to_order json po []

    unfoldable pub list_page : (OrderPo → Bool) → ℕ → Query S (List Order × String)
    list_page wanted limit = do
      rows ← db.orders.find wanted newer_row (some (limit + 1))
      pure (bare_orders (page_rows format limit rows).0, (page_rows format limit rows).1)

    -- `ListByBuyer` and `AdminList`, with a limit that the service has clamped.
    unfoldable pub list_by_buyer :
        String → String → String → String → String → ℕ → Query S (List Order × String)
    list_by_buyer tenant buyer status scene cursor limit =
        list_page
          (λ row.
            row.tenant_id == tenant
            && row.buyer_user_id == buyer
            && accepts status (to_string row.status)
            && accepts scene row.scene
            && past_cursor cursor row)
          limit

    unfoldable pub admin_list : AdminListFilter → ℕ → Query S (List Order × String)
    admin_list f limit =
        list_page
          (λ row.
            accepts f.tenant_id row.tenant_id
            && accepts f.status (to_string row.status)
            && accepts f.scene row.scene
            && (f.query == ""
                || row.order_id == f.query
                || row.client_order_id == f.query
                || row.buyer_user_id == f.query)
            && past_cursor f.cursor row)
          limit

    -- `FindByID`; an empty tenant stands for any.
    unfoldable pub find_by_id : String → String → Query S Order
    find_by_id tenant order_id = do
      found ←
          db.orders.first
            λ row. if tenant == "" then row.order_id == order_id else is_row tenant order_id row
      po ← or_missing db json (bare order_not_found) found
      lines ← lines_of db json order_id
      pure (po_to_order json po lines)

    unfoldable pub find_by_client_order_id : String → String → String → Query S Order
    find_by_client_order_id tenant buyer cid = do
      found ←
          db.orders.first λ row.
            row.tenant_id == tenant && row.buyer_user_id == buyer && row.client_order_id == cid
      po ← or_missing db json (bare order_not_found) found
      lines ← lines_of db json po.order_id
      pure (po_to_order json po lines)

    unfoldable pub find_idempotency : String → String → String → Query S (Option IdempotencyRecord)
    find_idempotency tenant actor key =
        db.idempotency.first λ row. row.tenant_id == tenant && row.actor == actor && row.key == key

    -- `ListExpiredPending`: with locks of rows by `locked`, and without them where that fails.
    unfoldable pub list_expired_pending : Query S (List OrderPo) → ℕ → ℤ → Query S (List Order)
    list_expired_pending locked now limit s =
        let (found, after) = locked s in
        elim found [
          | ok rows ↦ (ok (bare_orders rows), after)
          | err _ ↦
              (db.orders.find (is_expired now) expires_before (some (or_default 100 limit))
                  >>= λ rows. pure (bare_orders rows))
                after
        ]

    unfoldable pub list_pending_pay_for_renew : ℕ → ℕ → ℕ → ℤ → Query S (List Order)
    list_pending_pay_for_renew now window max_renew limit = do
      rows ←
          db.orders.find (is_due_for_renew now window max_renew) expires_before
            (some (or_default 100 limit))
      pure (bare_orders rows)

    unfoldable pub list_for_reconcile : String → ℤ → Query S (List Order)
    list_for_reconcile tenant limit = do
      rows ←
          db.orders.find (to_compare tenant) (λ a b. ltb b.updated_at a.updated_at)
            (some (or_default 200 limit))
      pure (bare_orders rows)

    unfoldable pub list_compensations : String → ℤ → Query S (List CompensationTicket)
    list_compensations status limit = do
      rows ←
          db.compensations.find (λ row. accepts status row.status) (λ a b. ltb b.id a.id)
            (some (or_default 50 limit))
      pure (map po_to_comp rows)

    unfoldable pub find_compensation : ℕ → Query S CompensationTicket
    find_compensation id = do
      found ← db.compensations.first λ row. nat_eq row.id id
      row ← or_missing db json (bare order_not_found) found
      pure (po_to_comp row)

    -- `ListUnpublishedEvents`.
    unfoldable pub list_unpublished_events : ℕ → Query S (List OutboxRow)
    list_unpublished_events limit = do
      rows ←
          db.outbox.find (λ row. elim row.published_at [ none ↦ true | some _ ↦ false ])
            (λ a b. ltb a.created_at b.created_at) (some limit)
      pure (
          map
            (λ (row : OutboxPo). record {
              event_id = row.event_id;
              payload = row.payload;
              attempts = row.attempts;
            })
            rows)

    -- `HasOpenCompensation`, by the number of such rows.
    unfoldable pub has_open_compensation : String → String → String → Query S Bool
    has_open_compensation kind tenant ref = do
      rows ←
          db.compensations.find
            (λ row.
              row.kind == kind
              && row.tenant_id == tenant
              && row.ref == ref
              && any (λ status. row.status == status) ("pending" ∷ "running" ∷ []))
            (λ a b. ltb a.id b.id) none
      pure (ltb 0 (length rows))
