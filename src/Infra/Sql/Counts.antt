-- ===== src/Infra/Sql/Counts.antt =====
-- internal/infra/persistence/order_repo.go: the counts by status.
use order_hub.Prelude.{ℕ, String, Bool, true, none, some, List, [], ◌∷◌}
use order_hub.Prelude.Dict.{Dict, insert}
use order_hub.Domain.Status.{to_string}
use order_hub.Memory.Queries.{accepts}
use order_hub.Infra.Rows.{OrderPo, OutboxPo, CompensationPo}
use order_hub.Infra.Sql.{Query, Db, pure, ◌>>=◌}

-- The map of the groups: the last one of a key counts.
unfoldable pub counted : List (String × ℕ) → Dict ℕ → Dict ℕ
counted [] counts = counts
counted ((status, n) ∷ rows) counts = counted rows (insert status n counts)

module _ {S : Type 0} (db : Db S) where
  -- `CountOrdersByStatus`.
  unfoldable pub count_orders_by_status : String → Query S (Dict ℕ)
  count_orders_by_status tenant_id = do
    rows ←
        db.orders.grouped (λ (row : OrderPo). to_string row.status)
          (λ (row : OrderPo). accepts tenant_id row.tenant_id)
    pure (counted rows [])

  -- `CountCompensationsByStatus`.
  unfoldable pub count_compensations_by_status : Query S (Dict ℕ)
  count_compensations_by_status = do
    rows ← db.compensations.grouped (λ (row : CompensationPo). row.status) (λ row. true)
    pure (counted rows [])

  -- `CountUnpublishedEvents`.
  unfoldable pub count_unpublished_events : Query S ℕ
  count_unpublished_events =
      db.outbox.number_of
        λ (row : OutboxPo). elim row.published_at [ none ↦ true | some _ ↦ Bool.false ]
