-- ===== src/Db.antt =====
-- internal/db and db/migrations: the tables, and the queries over them.
pub mod Models
pub mod Tables
pub mod Accounts
pub mod Transactions
pub mod Postings
pub mod Outbox
pub mod History
pub mod Documents
pub mod Users
pub mod References
pub mod Joins
