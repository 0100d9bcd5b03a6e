-- ===== src/Iface.antt =====
-- internal/iface/http: requests and answers around the services. gin's choice of an endpoint and its
-- reading of JSON bodies are arguments.
pub mod Wire
pub mod Dto
pub mod Access
pub mod Server
pub mod Handlers
pub mod Admin
pub mod Router
