-- ===== src/Domain.antt =====
-- internal/domain: the order model, its amounts, its state machine and its scenes.
pub mod Int64
pub mod Error
pub mod Json
pub mod Status
pub mod Order
pub mod Lifecycle
pub mod Amount
pub mod Scene
pub mod Event
pub mod Hash
