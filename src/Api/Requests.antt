-- ===== src/Api/Requests.antt =====
-- internal/api/router.go: what the server is given, what it keeps, and what it answers. chi's choice
-- of the route comes with the request, as the route's `Target`, with what the handler reads of the
-- request.
use ledger_pro.Api.Middleware.{Header, CorsConfig}
use ledger_pro.Api.Health.{HealthResponse, Probes}
use ledger_pro.Api.RateLimit.{RateLimitConfig, Limiter, Arrival}
use ledger_pro.Api.Access as Access
use ledger_pro.Api.Access.{ApiKeyEntry, AuthRequest, SessionClock}
use ledger_pro.Api.Http.{Reply}
use ledger_pro.Api.Login.{Bcrypt, LoginRequest, SignupRequest, SignIn, AuthState, LoginConditions}
use ledger_pro.Api.Accounts.{AccountPage, PostingPage}
use ledger_pro.Api.History.{CursorParam, TransactionPage}
use ledger_pro.Api.Documents.{Form}
use ledger_pro.Service.Ledger.{CreateTransactionRequest, LedgerService, Conditions}
use ledger_pro.Service.Sessions.{SessionEntry}
use ledger_pro.Service.Cache.{TransactionResponse}
use ledger_pro.Service.Documents.{StoredObject, DocumentState, DocumentResponse, DocumentConditions}
use ledger_pro.Service.Queries.{CreateAccountRequest, BalanceResponse}
use ledger_pro.Prelude.{ℕ, String, Bool, Option, none, some, List}
use ledger_pro.Db.Models.{Uuid, Account}
use ledger_pro.Db.Tables.{Database, Result}
use ledger_pro.Api.Problem.{ProblemDetail}

-- RouterConfig, with what the handlers use of libraries.
pub record RouterConfig : Type 0 where
  pub api_keys : List ApiKeyEntry
  pub rate_limit_config : Option RateLimitConfig
  pub cors_config : Option CorsConfig
  pub bcrypt : Bcrypt
  pub parse_uuid : String → Option Uuid
  pub describe : RateLimitConfig → String

pub data Target : Type 0 where
  to_health to_swagger to_logout to_me : Target
  to_login : Option LoginRequest → Target
  to_signup : Option SignupRequest → Target
  to_create_account : Result String CreateAccountRequest → Target
  to_list_accounts : String → String → Target
  to_get_account to_get_account_balance : String → Target
  to_get_account_postings : String → String → String → Target
  to_create_transaction : String → Result String CreateTransactionRequest → Target
  to_attach_document : String → Form → Target
  to_list_transactions : CursorParam → String → Target
  to_get_transaction to_list_transaction_documents : String → Target
  -- 404 or 405
  to_nowhere : ℕ → Target

-- The group that the route is in; an answer of the router itself is in none.
abbrev pub route_of : Target → Option Access.Route
route_of to_health = some Access.health
route_of to_swagger = some Access.swagger
route_of to_logout = some Access.logout
route_of to_me = some Access.me
route_of (to_login r) = some Access.login
route_of (to_signup r) = some Access.signup
route_of (to_create_account r) = some Access.create_account
route_of (to_list_accounts c n) = some Access.list_accounts
route_of (to_get_account i) = some Access.get_account
route_of (to_get_account_balance i) = some Access.get_account_balance
route_of (to_get_account_postings i o n) = some Access.get_account_postings
route_of (to_create_transaction k r) = some Access.create_transaction
route_of (to_attach_document i f) = some Access.attach_document
route_of (to_list_transactions c n) = some Access.list_transactions
route_of (to_get_transaction i) = some Access.get_transaction
route_of (to_list_transaction_documents i) = some Access.list_transaction_documents
route_of (to_nowhere code) = none

pub record HttpRequest : Type 0 where
  pub method : String
  pub remote_addr : String
  pub trace_id : String
  pub auth : AuthRequest
  pub target : Target

-- What the outside decides while a request is served: the clocks, the ids drawn, and which calls
-- over the network fail.
pub record Moment : Type 0 where
  pub fresh_trace_id : String
  pub arrival : Arrival
  pub clock : SessionClock
  pub ledger : Conditions
  pub login_conditions : LoginConditions
  pub document : DocumentConditions
  pub probes : Probes
  pub query_fails : Bool
  pub second_query_fails : Bool
  pub revoke_fails : Bool

-- Everything that the server keeps outside of itself: PostgreSQL and the cached responses, the
-- sessions, the sorted sets of the rate limiter by client, and the object store.
pub record World : Type 0 where
  pub ledger : LedgerService
  pub sessions : List SessionEntry
  pub limiters : String → Limiter
  pub objects : List StoredObject

abbrev pub with_db : World → Database → World
with_db w db = record w { ledger = record w.ledger { db = db } }

abbrev pub documents_of : World → DocumentState
documents_of w = record { db = w.ledger.db; objects = w.objects }

abbrev pub auth_of : World → AuthState
auth_of w = record { db = w.ledger.db; sessions = w.sessions }

-- The body of an answer.
pub data Answer : Type 0 where
  no_content swagger_page : Answer
  router_error : ℕ → Answer
  refusal : ProblemDetail → Answer
  health_answer : ℕ → HealthResponse → Answer
  sign_in_answer : Reply SignIn → Answer
  role_answer : Reply String → Answer
  account_answer : Reply Account → Answer
  account_page_answer : Reply AccountPage → Answer
  balance_answer : Reply BalanceResponse → Answer
  posting_page_answer : Reply PostingPage → Answer
  transaction_answer : Reply TransactionResponse → Answer
  transaction_page_answer : Reply TransactionPage → Answer
  document_answer : Reply DocumentResponse → Answer
  documents_answer : Reply (List DocumentResponse) → Answer

pub record Response : Type 0 where
  pub headers : List Header
  pub answer : Answer
