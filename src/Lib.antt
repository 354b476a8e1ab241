-- ===== src/Lib.antt =====
-- LedgerPro, a double-entry ledger service in Go: a verification library beside the code.
--
-- The program takes HTTP requests (internal/api), checks and serves them in a service layer
-- (internal/service) over PostgreSQL (internal/db, db/migrations) and Redis, and publishes an
-- event for each transaction from an outbox table.
--
-- Which file models what:
-- - Prelude: shared names, Boolean tests, lists by native numbers, int64 and signed integers,
--   texts, strconv.ParseInt (Decimal: on the digits of a number), pages of rows with rising and
--   falling keys (Paging, Falling), and a client that follows cursors (Walk).
-- - Db/Models, Db/Tables: the rows of internal/db/models.go and the tables of db/migrations.
-- - Db/Accounts, Transactions, Postings, Outbox, History, Documents, Users: one function for each
--   query of internal/db/queries.sql.go, with the constraints and the balance trigger.
-- - Db/References, Db/Joins: what the foreign keys promise, and the joins under it.
-- - Service/Errors, Service/Cache: the error values and the Redis entries of
--   internal/service/ledger.go.
-- - Service/Ledger: CreateTransaction. Below it, Posted and Commit say what a committed run has
--   written, Invariant what holds of the tables, Outcome how a call ends, and Safety, Replay,
--   Validation, Isolation, Response, Balance and References what follows. Refinement has the
--   abstract ledger that it implements. Concurrent has the calls that run at the same time, as a
--   step relation; Exclusive, Seen and OneAnswer below it.
-- - Service/Queries: the account operations and the reads of internal/service/ledger.go; Ids below
--   it.
-- - Service/Outbox: the worker of internal/service/outbox.go; Draining, Content, Delivery and
--   Interleaving below it, the last with several workers as a step relation.
-- - Service/Sessions: the sessions of internal/service/auth.go; Lifetime below it.
-- - Service/Documents: the documents of internal/service/ledger.go; Stored below it.
-- - Api/Problem, Api/Currencies, Api/Validation: internal/api/problem.go and validation.go.
-- - Api/Http, Api/Transactions: the transaction handler of internal/api/handler.go.
-- - Api/Paging, Api/Accounts, Api/History: the read handlers of internal/api/handler.go and
--   CreateAccount; Pages, Walk, Complete and Offset below them are about the pages.
-- - Api/RateLimit, Api/Access: the rate limiter and the authentication of
--   internal/api/middleware.go, and the routes of internal/api/router.go; Window and Granted below
--   them.
-- - Api/Login: internal/api/auth_handler.go; Signup below it. Api/Documents:
--   internal/api/document_handler.go.
-- - Api/Keys: loadAPIKeys of cmd/server/main.go; Usable below it. Api/Config: the other settings
--   that main reads, and the router that it builds from them; Started below it.
-- - Api/Middleware: the trace ids, CORS and the responseWriter of internal/api/middleware.go; Logged
--   below it. Api/Health: HealthCheck of internal/api/handler.go; Degraded below it.
-- - Api/Requests, Api/Server: NewRouter of internal/api/router.go, which puts the middleware in front
--   of the handlers, over the state of all of them. Below Server, Writers and Handlers say which
--   requests write and through which handler, Calls what the service calls keep, Tenants what a
--   tenant sees, and Roles, Sound and Isolated what follows.
-- - Api/System: the server and the outbox workers on one database, as a step relation; Announced and
--   Consistent below it.
-- - Tests: runs, and the theorems at concrete inputs.
--
-- How the code is read. A Go error is a value of Result. A method that changes state takes the
-- state and returns the new one. A table is a list of rows in insertion order; a statement that
-- fails changes nothing, and a database transaction that fails leaves the caller the database it
-- had. Gaps that failed inserts leave in a sequence are not modelled. An int64 is the number that
-- its 64 bits stand for, so sums wrap at 2 ^ 64; SUM in SQL is exact and its cast to BIGINT is
-- checked. A UUID is a number, a timestamp counts microseconds; both come from outside. What the
-- outside decides on a call (the clock, the ids drawn, which calls over the network fail, what a
-- publish returns, which row a query without an order takes) is an argument, so a theorem holds for every behaviour of it. The JSON of a
-- cached response or an outbox payload is the value that it encodes. A publish that returns no error
-- has given the message to the channel; the code asks for no confirmation, so whether the broker has
-- it is not known. The rate limiter's times are doubles, for the years 2006 to 2043, and the names of
-- its members are what Lua prints of them. VARCHAR lengths are checked, except that an excess of
-- spaces, which PostgreSQL cuts off, counts as too long.
--
-- Not modelled: JSON and HTTP encodings, the client of the object store, the deadline of a request
-- (only the calls that fail by it), recovery from panics, start and shutdown of the server, logging,
-- the generated documentation and the web front end. What chi decides comes with the request: the
-- route, and the client's address behind a proxy. In Api/Server and Api/System requests
-- are served one after the other, with outbox workers between them; calls that overlap are in
-- Service/Ledger/Concurrent, for CreateTransaction only. There a database transaction, which is
-- serializable, is one step; its posting ids start anywhere above those drawn, but do not alternate
-- with another's.
--
-- Fuel: the code's loops recur on the list that they run over. The client in Prelude/Walk takes the
-- number of requests that it may send; any number above the number of rows is enough. The one in
-- Api/History/Walk takes the number of pages; what is said of it holds for every number. The decimals
-- of Prelude/Text have twenty digits, as many as an int64 needs.
pub mod Prelude
pub mod Db
pub mod Service
pub mod Api
pub mod Tests
