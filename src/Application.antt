-- ===== src/Application.antt =====
-- internal/application: the services, over the store in memory and answers from outside.
pub mod Action
pub mod Keeps
pub mod Payment
pub mod Refund
pub mod Cancel
pub mod Close
pub mod Renew
pub mod Compensate
pub mod Preview
pub mod Checkout
pub mod Outbox
pub mod Recon
pub mod Seed
pub mod Query
