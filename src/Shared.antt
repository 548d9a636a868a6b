-- ===== src/Shared.antt =====
-- The library that all services share: shared/*.py.
pub mod Outbox
pub mod Http
pub mod Auth
pub mod Consumer
pub mod Idempotency
pub mod Endpoint
pub mod Paging
pub mod Tokens
pub mod KillSwitch
