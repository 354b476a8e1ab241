-- ===== src/Api/Access.antt =====
-- internal/api/middleware.go: APIKeyAuthMiddleware and RequireRole; internal/api/router.go: which
-- routes they guard.
pub mod Granted
use ledger_pro.Service.Sessions.{SessionEntry, validate_session}
use ledger_pro.Prelude.{
  ℕ, String, Bool, true, false, ◌||◌, Option, none, some, List, [], ◌∷◌, str_eq, if◌then◌else◌,
  first_row, exists_row,
}
use ledger_pro.Db.Models.{Uuid, Timestamp}
use ledger_pro.Db.Tables.{Result, ok, err, ◌>>=◌}
use ledger_pro.Prelude.Text.{◌<>◌, strip_prefix}
use ledger_pro.Api.Problem.{ProblemDetail, unauthorized, forbidden}

-- An entry of the map from API keys to roles.
pub record ApiKeyEntry : Type 0 where
  pub key : String
  pub role : String

-- What the middleware reads of a request: the path, the value of the cookie session_token, and the
-- headers X-API-Key and Authorization.
pub record AuthRequest : Type 0 where
  pub path : String
  pub session_token : Option String
  pub api_key : String
  pub authorization : String

-- The role and the tenant in the request's context. Where nothing is set they read as the empty
-- text and uuid.Nil.
pub record Identity : Type 0 where
  pub role : String
  pub tenant_id : Uuid

abbrev pub anonymous : Identity
anonymous = record { role = ""; tenant_id = 0 }

-- The clock, the expiry of the sessions, and whether Redis fails.
pub record SessionClock : Type 0 where
  pub now : Timestamp
  pub session_ttl : ℕ
  pub pipeline_fails : Bool

abbrev pub public_paths : List String
public_paths = "/v1/health" ∷ "/v1/metrics" ∷ "/v1/auth/login" ∷ "/v1/auth/signup" ∷ []

abbrev pub is_public : String → Bool
is_public path =
    exists_row (λ p. str_eq p path) public_paths
    || elim (strip_prefix "/swagger/" path) [ none ↦ false | some _ ↦ true ]

-- Step 1, the cookie. Only the identity of a session that validates is used.
unfoldable pub session_identity :
    SessionClock → Option String → List SessionEntry → Option Identity × List SessionEntry
session_identity c none sessions = (none, sessions)
session_identity c (some token) sessions =
    if str_eq token ""
    then (none, sessions)
    else (let (r, sessions') =
          validate_session c.pipeline_fails c.now c.session_ttl token sessions in
        (
          elim r [ ok d ↦ some (record { role = d.role; tenant_id = d.tenant_id }) | err _ ↦ none ],
          sessions',
        ))

-- Step 2, the header X-API-Key, or the one after `Bearer `.
abbrev pub presented_key : AuthRequest → String
presented_key req =
    if str_eq req.api_key ""
    then elim (strip_prefix "Bearer " req.authorization) [ none ↦ "" | some key ↦ key ]
    else req.api_key

abbrev pub find_key : String → List ApiKeyEntry → Option ApiKeyEntry
find_key key keys = first_row (λ e. str_eq e.key key) keys

unfoldable pub key_identity : List ApiKeyEntry → String → Result ProblemDetail Identity
key_identity keys key =
    if str_eq key ""
    then err (unauthorized "authentication required (API key or session cookie)")
    else elim (find_key key keys) [
      | none ↦ err (unauthorized "invalid API key")
      | some e ↦ ok (record { role = e.role; tenant_id = 0 })
    ]

-- `ok` is the call of the next handler with that context.
unfoldable pub authenticate :
    List ApiKeyEntry
    → SessionClock
    → AuthRequest
    → List SessionEntry
    → Result ProblemDetail Identity × List SessionEntry
authenticate keys c req sessions =
    if is_public req.path
    then (ok anonymous, sessions)
    else (let (found, sessions') = session_identity c req.session_token sessions in
        (
          elim found [ some who ↦ ok who | none ↦ key_identity keys (presented_key req) ],
          sessions',
        ))

unfoldable pub require_role : List String → Identity → Result ProblemDetail Identity
require_role allowed who =
    if str_eq who.role ""
    then err (unauthorized "authentication required")
    else if exists_row (λ r. str_eq r who.role) allowed
    then ok who
    else err (forbidden ("role '" <> (who.role <> "' does not have permission for this operation")))

-- The routes that NewRouter registers.
pub data Route : Type 0 where
  health swagger login signup logout me : Route
  create_account list_accounts get_account get_account_balance get_account_postings : Route
  create_transaction attach_document list_transactions get_transaction : Route
  list_transaction_documents : Route

abbrev pub writers : List String
writers = "admin" ∷ "write" ∷ []

abbrev pub readers : List String
readers = "admin" ∷ "write" ∷ "read" ∷ []

-- The roles of the group that a route is in; the public and the auth routes are in none.
abbrev pub allowed_roles : Route → Option (List String)
allowed_roles create_account = some writers
allowed_roles create_transaction = some writers
allowed_roles attach_document = some writers
allowed_roles list_accounts = some readers
allowed_roles get_account = some readers
allowed_roles get_account_balance = some readers
allowed_roles get_account_postings = some readers
allowed_roles list_transactions = some readers
allowed_roles get_transaction = some readers
allowed_roles list_transaction_documents = some readers
allowed_roles _ = none

abbrev pub check_route : Route → Identity → Result ProblemDetail Identity
check_route route who = elim (allowed_roles route) [
  | none ↦ ok who
  | some allowed ↦ require_role allowed who
]

-- The guards in front of a route's handler. Without configured keys there are none.
unfoldable pub access :
    List ApiKeyEntry
    → SessionClock
    → Route
    → AuthRequest
    → List SessionEntry
    → Result ProblemDetail Identity × List SessionEntry
access [] c route req sessions = (ok anonymous, sessions)
access (k ∷ ks) c route req sessions =
    let (r, sessions') = authenticate (k ∷ ks) c req sessions in
    (r >>= check_route route, sessions')
