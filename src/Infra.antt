-- ===== src/Infra.antt =====
-- internal/infra: what the services call, as far as it needs no other program.
pub mod Locks
pub mod Ids
pub mod Rows
pub mod Sql
pub mod LedgerMock
pub mod Envelope
pub mod Clients
pub mod Publishers
pub mod OfferMock
pub mod OfferWire
pub mod PaymentMock
pub mod Fulfillment
