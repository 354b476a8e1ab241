-- ===== src/Api.antt =====
-- internal/api: the HTTP layer.
pub mod Problem
pub mod Currencies
pub mod Validation
pub mod Http
pub mod Transactions
pub mod Paging
pub mod Accounts
pub mod History
pub mod RateLimit
pub mod Access
pub mod Login
pub mod Documents
pub mod Keys
pub mod Middleware
pub mod Health
pub mod Requests
pub mod Server
pub mod System
pub mod Config
