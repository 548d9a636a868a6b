-- ===== src/Search.antt =====
-- services/search: the index of approved vehicles, which follows the listing service's messages.
pub mod Documents
pub mod Stores
pub mod Service
pub mod Projection
pub mod Handling
pub mod Backfill
pub mod Machine
pub mod Agreement
pub mod Query
