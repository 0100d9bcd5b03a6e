-- ===== src/Infra/Sql/Checkout.antt =====
-- internal/infra/persistence/order_repo.go: `InsertCheckout` and `mapUnique`. `strings.ToLower` is a
-- parameter.
use Prim.Native.String.{find, len}
use order_hub.Prelude.{
  String, Bool, ◌||◌, Option, none, some, List, [], ◌∷◌, map, leb, if◌then◌else◌,
}
use order_hub.Domain.Error.{Err, bare, client_order_conflict, idempotency_conflict}
use order_hub.Port.{CheckoutPersist, IdempotencyRecord}
use order_hub.Infra.Rows.{Codec, order_to_po, lines_to_po, promotion_to_po, leg_to_po}
use order_hub.Infra.Sql.{Query, Table, Db, pure, map_err, ◌>>◌}
use order_hub.Infra.Sql.Writes.{event_to_po}

-- `strings.Contains`: the place that `find` returns lies in the text.
unfoldable pub contains : String → String → Bool
contains s part = leb (find s part) (len s)

module _ (to_lower : String → String) where
  -- `mapUnique` on an error.
  unfoldable pub map_unique : Err → Err
  map_unique e =
      let msg = to_lower e.text in
      if contains msg "uk_orders_client" || contains msg "client_order_id"
      then bare client_order_conflict
      else if contains msg "uk_idem" || contains msg "idempotency"
      then bare idempotency_conflict
      else if contains msg "duplicate" || contains msg "unique"
      then bare client_order_conflict
      else e

  module _ {S : Type 0} (db : Db S) (json : Codec) where
    -- Rows created one after the other.
    unfoldable pub create_all : {Row : Type 0} → Table S Row → List Row → Query S (Unit {0})
    create_all table [] = pure tt
    create_all table (row ∷ rows) = table.create row >> create_all table rows

    unfoldable pub create_idempotency : Option IdempotencyRecord → Query S (Unit {0})
    create_idempotency none = pure tt
    create_idempotency (some i) = map_err map_unique (db.idempotency.create i)

    -- The body of the transaction of `InsertCheckout`; its batches of lines are rows in turn.
    unfoldable pub checkout_body : CheckoutPersist → Query S (Unit {0})
    checkout_body rec = do
      map_err map_unique (db.orders.create (order_to_po json rec.order))
      create_all db.lines (lines_to_po json rec.order)
      create_all db.promotions (map (promotion_to_po json rec.order) rec.order.promotions)
      create_all db.legs (map (leg_to_po rec.order) rec.order.ledger_legs)
      create_idempotency rec.idempotency
      db.outbox.create (event_to_po rec.event)

    -- `InsertCheckout` with an order that is not nil.
    unfoldable pub insert_checkout : CheckoutPersist → Query S (Unit {0})
    insert_checkout rec = db.transaction (checkout_body rec)
