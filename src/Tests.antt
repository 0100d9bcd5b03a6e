-- ===== src/Tests.antt =====
-- Runs of the theorems at concrete values.
pub mod Amounts
pub mod Orders
pub mod Store
pub mod Services
pub mod Workers
pub mod Infra
pub mod Repeats
pub mod Mocks
pub mod Iface
