-- ===== src/Infra/Sql.antt =====
-- internal/infra/persistence/order_repo.go: the store over a database. What gorm and the database do
-- is a parameter, a `Db`: a table is read and written with the source's conditions as tests on rows
-- and its `Updates` as functions on rows. The times that the source reads are arguments.
pub mod Writes
pub mod Reads
pub mod Counts
pub mod Checkout
pub mod Locking
pub mod Atomic
use order_hub.Prelude.{ℕ, String, Bool, Option, List}
use order_hub.Domain.Error.{Err, Result, ok, err}
use order_hub.Infra.Rows.{
  OrderPo, OrderLinePo, OrderPromotionPo, OrderLedgerLegPo, OutboxPo, CompensationPo,
}
use order_hub.Domain.Order.{Refund}
use order_hub.Port.{IdempotencyRecord}

-- A step on the database `S`.
abbrev pub Query : Type 0 → Type 0 → Type 0
Query S A = S → Result A × S

-- A table with the rows `Row`: `First`, `Find` with an order and a limit, `Create`, also with
-- `OnConflict{DoNothing: true}`, and `Updates` with
-- the number of rows that it met; and `Count`, with `Group` for each key and its number of rows.
pub record Table (S Row : Type 0) : Type 0 where
  pub rows : S → List Row
  pub first : (Row → Bool) → Query S (Option Row)
  pub find : (Row → Bool) → (Row → Row → Bool) → Option ℕ → Query S (List Row)
  pub create : Row → Query S (Unit {0})
  pub create_once : Row → Query S (Unit {0})
  pub updates : (Row → Bool) → (Row → Row) → Query S ℕ
  pub number_of : (Row → Bool) → Query S ℕ
  pub grouped : (Row → String) → (Row → Bool) → Query S (List (String × ℕ))

-- The tables of `AutoMigrate`; the idempotency records and the refunds have the columns of the
-- records of the ports.
pub record Db (S : Type 0) : Type 1 where
  pub orders : Table S OrderPo
  pub lines : Table S OrderLinePo
  pub promotions : Table S OrderPromotionPo
  pub legs : Table S OrderLedgerLegPo
  pub outbox : Table S OutboxPo
  pub idempotency : Table S IdempotencyRecord
  pub refunds : Table S Refund
  pub compensations : Table S CompensationPo
  pub transaction : {A : Type 0} → Query S A → Query S A

module _ {S : Type 0} where
  abbrev pub pure : {A : Type 0} → A → Query S A
  pure a s = (ok a, s)

  abbrev pub raise : {A : Type 0} → Err → Query S A
  raise e s = (err e, s)

infixl 5 ◌>>=◌ ◌>>◌
abbrev pub ◌>>=◌ : {S A B : Type 0} → Query S A → (A → Query S B) → Query S B
◌>>=◌ m f s = let (r, s') = m s in elim r [ ok a ↦ f a s' | err e ↦ (err e, s') ]

abbrev pub ◌>>◌ : {S A B : Type 0} → Query S A → Query S B → Query S B
m >> k = m >>= λ _. k

-- An error passed through `mapUnique`.
abbrev pub map_err : {S A : Type 0} → (Err → Err) → Query S A → Query S A
map_err f m s = let (r, s') = m s in (elim r [ ok a ↦ ok a | err e ↦ err (f e) ], s')
