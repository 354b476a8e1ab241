-- ===== src/Service.antt =====
-- internal/service: the business logic over the database and Redis.
pub mod Errors
pub mod Cache
pub mod Ledger
pub mod Queries
pub mod Outbox
pub mod Sessions
pub mod Documents
