-- ===== src/Api/Server.antt =====
-- internal/api/router.go: NewRouter, the middleware in front of the handlers and the routes.
pub mod Writers
pub mod Roles
pub mod Calls
pub mod Sound
pub mod Tenants
pub mod Isolated
pub mod Handlers
use ledger_pro.Api.Middleware.{
  Header, trace_id_of, trace_header, CorsConfig, default_cors_config, cors_headers, is_preflight,
}
use ledger_pro.Api.Health.{health_check}
use ledger_pro.Api.RateLimit.{RateLimitConfig, Limiter, Arrival, run_script, remaining, rate_limit}
use ledger_pro.Api.Access as Access
use ledger_pro.Api.Access.{Identity, authenticate, access}
use ledger_pro.Api.Http.{Context}
use ledger_pro.Api.Login.{login_handler, signup_handler, logout_handler, me_handler}
use ledger_pro.Api.Accounts.{
  create_account_handler, get_account_handler, list_accounts_handler, get_account_balance_handler,
  get_account_postings_handler,
}
use ledger_pro.Api.Transactions.{create_transaction_handler}
use ledger_pro.Api.History.{get_transaction_handler, list_transactions_handler}
use ledger_pro.Api.Documents.{attach_document_handler, list_documents_handler}
use ledger_pro.Service.Sessions.{SessionEntry}
use ledger_pro.Prelude.Text.{decimal}
use ledger_pro.Prelude.{◌+◌, ◌/◌, String, none, some, List, [], ◌∷◌, ◌++◌, str_eq, if◌then◌else◌}
use ledger_pro.Db.Tables.{Result, ok, err}
use ledger_pro.Api.Problem.{ProblemDetail, write_problem}
use ledger_pro.Api.Requests.{
  RouterConfig, Target, to_health, to_swagger, to_logout, to_me, to_login, to_signup,
  to_create_account, to_list_accounts, to_get_account, to_get_account_balance,
  to_get_account_postings, to_create_transaction, to_attach_document, to_list_transactions,
  to_get_transaction, to_list_transaction_documents, to_nowhere, route_of, HttpRequest, Moment,
  World, with_db, documents_of, auth_of, Answer, no_content, swagger_page, router_error, refusal,
  health_answer, sign_in_answer, role_answer, account_answer, account_page_answer, balance_answer,
  posting_page_answer, transaction_answer, transaction_page_answer, document_answer,
  documents_answer, Response,
}

-- The handlers, by the route.
unfoldable pub handle :
    RouterConfig → Moment → HttpRequest → Context → Identity → Target → World → Answer × World
handle cfg m req ctx who to_health w =
    let (code, body) = health_check m.probes in (health_answer code body, w)
handle cfg m req ctx who to_swagger w = (swagger_page, w)
handle cfg m req ctx who to_logout w = (
  no_content,
  record w { sessions = logout_handler m.revoke_fails req.auth.session_token w.sessions },
)
handle cfg m req ctx who to_me w = (role_answer (me_handler ctx who), w)
handle cfg m req ctx who (to_login body) w =
    let (r, st) = login_handler cfg.bcrypt cfg.api_keys ctx m.login_conditions body (auth_of w) in
    (sign_in_answer r, record (with_db w st.db) { sessions = st.sessions })
handle cfg m req ctx who (to_signup body) w =
    let (r, st) = signup_handler cfg.bcrypt ctx m.login_conditions body (auth_of w) in
    (sign_in_answer r, record (with_db w st.db) { sessions = st.sessions })
handle cfg m req ctx who (to_create_account body) w =
    let (r, db) = create_account_handler ctx m.query_fails m.ledger.now body w.ledger.db in
    (account_answer r, with_db w db)
handle cfg m req ctx who (to_list_accounts cursor size) w =
    (account_page_answer (list_accounts_handler ctx m.query_fails cursor size w.ledger.db), w)
handle cfg m req ctx who (to_get_account i) w =
    (account_answer (get_account_handler ctx m.query_fails i w.ledger.db), w)
handle cfg m req ctx who (to_get_account_balance i) w = (
  balance_answer (get_account_balance_handler ctx m.query_fails m.second_query_fails i w.ledger.db),
  w,
)
handle cfg m req ctx who (to_get_account_postings i offset size) w = (
  posting_page_answer (get_account_postings_handler ctx m.query_fails i offset size w.ledger.db),
  w,
)
handle cfg m req ctx who (to_create_transaction key body) w =
    let (r, s) = create_transaction_handler ctx m.ledger key body w.ledger in
    (transaction_answer r, record w { ledger = s })
handle cfg m req ctx who (to_attach_document i form) w =
    let (r, st) = attach_document_handler cfg.parse_uuid ctx m.document i form (documents_of w) in
    (document_answer r, record (with_db w st.db) { objects = st.objects })
handle cfg m req ctx who (to_list_transactions from size) w = (
  transaction_page_answer
      (list_transactions_handler ctx m.query_fails m.ledger.now from size w.ledger.db),
  w,
)
handle cfg m req ctx who (to_get_transaction i) w = (
  transaction_answer
      (get_transaction_handler cfg.parse_uuid ctx m.query_fails m.second_query_fails i w.ledger.db),
  w,
)
handle cfg m req ctx who (to_list_transaction_documents i) w =
    (documents_answer (list_documents_handler cfg.parse_uuid ctx m.document i w.ledger.db), w)
handle cfg m req ctx who (to_nowhere code) w = (router_error code, w)

-- APIKeyAuthMiddleware stands in front of every route, RequireRole in front of a group.
unfoldable pub guard :
    RouterConfig → Moment → HttpRequest → World → Result ProblemDetail Identity × List SessionEntry
guard cfg m req w = elim (route_of req.target) [
  | some route ↦ access cfg.api_keys m.clock route req.auth w.sessions
  | none ↦ elim (cfg.api_keys) [
    | [] ↦ (ok Access.anonymous, w.sessions)
    | k ∷ ks ↦ authenticate (k ∷ ks) m.clock req.auth w.sessions
  ]
]

unfoldable pub serve_guarded : RouterConfig → Moment → HttpRequest → String → World → Answer × World
serve_guarded cfg m req trace_id w =
    let (r, sessions) = guard cfg m req w in
    let w' : World = record w { sessions = sessions } in
    elim r [
      | err p ↦ (refusal (write_problem trace_id req.auth.path p), w')
      | ok who ↦
          handle cfg m req
            (record { path = req.auth.path; trace_id = trace_id; tenant_id = who.tenant_id }) who
            req.target w'
    ]

-- The key of the client: the header X-API-Key as it came, or the address.
abbrev pub client_key : HttpRequest → String
client_key req = if str_eq req.auth.api_key "" then req.remote_addr else req.auth.api_key

abbrev pub set_limiter : String → Limiter → (String → Limiter) → String → Limiter
set_limiter key l limiters k = if str_eq k key then l else limiters k

-- X-RateLimit-Limit, -Remaining and -Reset, and Retry-After with a refusal.
unfoldable pub rate_limit_headers : RateLimitConfig → Arrival → Limiter → List Header
rate_limit_headers cfg a l =
    if a.redis_fails
    then []
    else (let v = (run_script cfg a l).0 in
        ("X-RateLimit-Limit", decimal cfg.requests_per_window)
        ∷ ("X-RateLimit-Remaining", decimal (remaining cfg v))
        ∷ ("X-RateLimit-Reset", decimal ((a.now + cfg.window_duration) / 1000000000))
        ∷ (if v.allowed
            then []
            else ("Retry-After", decimal (cfg.window_duration / 1000000000)) ∷ []))

unfoldable pub serve_limited :
    RouterConfig → Moment → HttpRequest → String → World → Response × World
serve_limited cfg m req trace_id w = elim (cfg.rate_limit_config) [
  | none ↦
      let (a, w') = serve_guarded cfg m req trace_id w in (record { headers = []; answer = a }, w')
  | some limit ↦
      let key = client_key req in
      let headers = rate_limit_headers limit m.arrival (w.limiters key) in
      let (refused, l) = rate_limit cfg.describe limit m.arrival (w.limiters key) in
      let w' : World = record w { limiters = set_limiter key l w.limiters } in
      elim refused [
        | some p ↦ (
          record { headers = headers; answer = refusal (write_problem trace_id req.auth.path p) },
          w',
        )
        | none ↦
            let (a, w'') = serve_guarded cfg m req trace_id w' in
            (record { headers = headers; answer = a }, w'')
      ]
]

abbrev pub cors_of : RouterConfig → CorsConfig
cors_of cfg = elim (cfg.cors_config) [ none ↦ default_cors_config | some c ↦ c ]

-- The whole stack. A preflight request is answered before the trace id is set.
unfoldable pub serve : RouterConfig → Moment → HttpRequest → World → Response × World
serve cfg m req w =
    let cors = cors_headers (cors_of cfg) in
    if is_preflight req.method
    then (record { headers = cors; answer = no_content }, w)
    else (let trace_id = trace_id_of req.trace_id m.fresh_trace_id in
        let (r, w') = serve_limited cfg m req trace_id w in
        (record { headers = cors ++ trace_header trace_id ∷ r.headers; answer = r.answer }, w'))

-- Requests one after the other, with the moment of each.
unfoldable pub serve_all : RouterConfig → List (Moment × HttpRequest) → World → World
serve_all cfg [] w = w
serve_all cfg ((m, req) ∷ rest) w = serve_all cfg rest (serve cfg m req w).1
