-- ===== src/Api/Server/Writers.antt =====
-- internal/api/router.go: which requests write to the database and the object store. What the
-- writing handlers keep, every request keeps.
use ledger_pro.Api.Server.{
  handle, guard, serve_guarded, client_key, set_limiter, serve_limited, serve,
}
use ledger_pro.Api.Requests.{
  RouterConfig, Target, to_health, to_swagger, to_logout, to_me, to_login, to_signup,
  to_create_account, to_list_accounts, to_get_account, to_get_account_balance,
  to_get_account_postings, to_create_transaction, to_attach_document, to_list_transactions,
  to_get_transaction, to_list_transaction_documents, to_nowhere, HttpRequest, Moment, World,
  documents_of, auth_of,
}
use ledger_pro.Api.Middleware.{trace_id_of, is_preflight}
use ledger_pro.Api.RateLimit.{rate_limit}
use ledger_pro.Api.Access.{ApiKeyEntry, Identity, writers}
use ledger_pro.Api.Login.{
  Bcrypt, LoginRequest, SignupRequest, AuthState, LoginConditions, verify_credentials, sign_in,
  login_handler, signup_handler,
}
use ledger_pro.Api.Accounts.{create_account_handler}
use ledger_pro.Api.Transactions.{create_transaction_handler}
use ledger_pro.Api.Documents.{Form, attach_document_handler}
use ledger_pro.Api.Http.{Context}
use ledger_pro.Service.Ledger.{CreateTransactionRequest, LedgerService, Conditions}
use ledger_pro.Service.Documents.{StoredObject, DocumentState, DocumentConditions}
use ledger_pro.Service.Queries.{CreateAccountRequest}
use ledger_pro.Prelude.{
  String, ◌≡◌, refl, inl, inr, Bool, true, Option, none, some, List, str_eq, Bool-cases,
  Option-cases, exists_row,
}
use ledger_pro.Db.Models.{Uuid, Timestamp}
use ledger_pro.Db.Tables.{Result, ok, Result-cases}

-- The handlers that write keep a property of the tables and the objects, for a caller of the
-- tenant, each if the request goes to it.
pub record WritersKeep {ℓ} (P : DocumentState → Type ℓ) (tenant : Uuid) (target : Target)
    : Type ℓ where
  pub on_account :
      (ctx : Context) (fails : Bool) (now : Timestamp) (body : Result String CreateAccountRequest)
      (st : DocumentState)
      → target ≡ to_create_account body
      → ctx.tenant_id ≡ tenant
      → P st
      → P (record st { db = (create_account_handler ctx fails now body st.db).1 })
  pub on_transaction :
      (ctx : Context) (c : Conditions) (key : String)
      (body : Result String CreateTransactionRequest) (s : LedgerService)
      (objects : List StoredObject)
      → target ≡ to_create_transaction key body
      → ctx.tenant_id ≡ tenant
      → P (record { db = s.db; objects = objects })
      → P (record { db = (create_transaction_handler ctx c key body s).1.db; objects = objects })
  pub on_document :
      (parse_uuid : String → Option Uuid) (ctx : Context) (c : DocumentConditions) (i : String)
      (form : Form) (st : DocumentState)
      → target ≡ to_attach_document i form
      → ctx.tenant_id ≡ tenant
      → P st
      → P (attach_document_handler parse_uuid ctx c i form st).1
  pub on_signup :
      (b : Bcrypt) (ctx : Context) (c : LoginConditions) (body : Option SignupRequest)
      (st : AuthState) (objects : List StoredObject)
      → target ≡ to_signup body
      → P (record { db = st.db; objects = objects })
      → P (record { db = (signup_handler b ctx c body st).1.db; objects = objects })

-- A login writes a session only.
login_handler-db :
    (b : Bcrypt) (keys : List ApiKeyEntry) (ctx : Context) (c : LoginConditions)
    (body : Option LoginRequest) (st : AuthState)
    → (login_handler b keys ctx c body st).1.db ≡ st.db
unfolding login_handler sign_in
login_handler-db b keys ctx c none st = refl
login_handler-db b keys ctx c (some req) st =
    elim (Result-cases (verify_credentials b keys c req st.db)) [
      | inl (who, e) ↦ rw (e, login_handler) refl
      | inr (p, e) ↦ rw (e, login_handler) refl
    ]

module _ {ℓ} (P : DocumentState → Type ℓ) (cfg : RouterConfig) (m : Moment)
    (req : HttpRequest) where
  pub handle_keeps :
      (ctx : Context) (who : Identity) (target : Target) (w : World)
      → WritersKeep P ctx.tenant_id target
      → P (documents_of w)
      → P (documents_of (handle cfg m req ctx who target w).1)
  unfolding handle
  handle_keeps ctx who to_health w k h = h
  handle_keeps ctx who to_swagger w k h = h
  handle_keeps ctx who to_logout w k h = h
  handle_keeps ctx who to_me w k h = h
  handle_keeps ctx who (to_login body) w k h =
      rw (login_handler-db cfg.bcrypt cfg.api_keys ctx m.login_conditions body (auth_of w)) h
  handle_keeps ctx who (to_signup body) w k h =
      k.on_signup cfg.bcrypt ctx m.login_conditions body (auth_of w) w.objects refl h
  handle_keeps ctx who (to_create_account body) w k h =
      k.on_account ctx m.query_fails m.ledger.now body (documents_of w) refl refl h
  handle_keeps ctx who (to_list_accounts cursor size) w k h = h
  handle_keeps ctx who (to_get_account i) w k h = h
  handle_keeps ctx who (to_get_account_balance i) w k h = h
  handle_keeps ctx who (to_get_account_postings i offset size) w k h = h
  handle_keeps ctx who (to_create_transaction key body) w k h =
      k.on_transaction ctx m.ledger key body w.ledger w.objects refl refl h
  handle_keeps ctx who (to_attach_document i form) w k h =
      k.on_document cfg.parse_uuid ctx m.document i form (documents_of w) refl refl h
  handle_keeps ctx who (to_list_transactions from size) w k h = h
  handle_keeps ctx who (to_get_transaction i) w k h = h
  handle_keeps ctx who (to_list_transaction_documents i) w k h = h
  handle_keeps ctx who (to_nowhere code) w k h = h

  -- What a guard or a limiter stops has written nothing.
  pub serve_guarded_keeps :
      (trace_id : String) (w : World)
      → ((who : Identity) → (guard cfg m req w).0 ≡ ok who → WritersKeep P who.tenant_id req.target)
      → P (documents_of w)
      → P (documents_of (serve_guarded cfg m req trace_id w).1)
  unfolding serve_guarded
  serve_guarded_keeps trace_id w k h = elim (Result-cases (guard cfg m req w).0) [
    | inr (p, e) ↦ rw (e, serve_guarded) h
    | inl (who, e) ↦
        rw (e, serve_guarded)
          (handle_keeps _ who req.target (record w { sessions = (guard cfg m req w).1 }) (k who e)
            h)
  ]

  serve_limited_keeps :
      (trace_id : String) (w : World)
      → ((who : Identity) → (guard cfg m req w).0 ≡ ok who → WritersKeep P who.tenant_id req.target)
      → P (documents_of w)
      → P (documents_of (serve_limited cfg m req trace_id w).1)
  unfolding serve_limited guard
  serve_limited_keeps trace_id w k h = elim (Option-cases cfg.rate_limit_config) [
    | inl e ↦ rw (e, serve_limited) (serve_guarded_keeps trace_id w k h)
    | inr (limit, e) ↦
        let key = client_key req in
        let after = rate_limit cfg.describe limit m.arrival (w.limiters key) in
        elim (Option-cases after.0) [
          | inr (p, stopped) ↦ rw (e, serve_limited) (rw stopped h)
          | inl passed ↦
              rw (e, serve_limited)
                (rw passed (
                  serve_guarded_keeps trace_id
                    (record w { limiters = set_limiter key after.1 w.limiters }) k h))
        ]
  ]

  -- What every writing handler keeps for the caller that the guards let through, a request keeps,
  -- wherever it is stopped.
  pub serve_keeps :
      (w : World)
      → ((who : Identity) → (guard cfg m req w).0 ≡ ok who → WritersKeep P who.tenant_id req.target)
      → P (documents_of w)
      → P (documents_of (serve cfg m req w).1)
  unfolding serve
  serve_keeps w k h = elim (Bool-cases (is_preflight req.method)) [
    | inl e ↦ rw e h
    | inr e ↦ rw e (serve_limited_keeps (trace_id_of req.trace_id m.fresh_trace_id) w k h)
  ]

-- The tables and the objects that belong to tenants' books. A signup writes `tenants` and `users`
-- only.
pub record SameBooks (st st' : DocumentState) : Type 0 where
  pub accounts : st'.db.accounts ≡ st.db.accounts
  pub transactions : st'.db.transactions ≡ st.db.transactions
  pub postings : st'.db.postings ≡ st.db.postings
  pub outbox : st'.db.ledger_outbox ≡ st.db.ledger_outbox
  pub documents : st'.db.documents ≡ st.db.documents
  pub objects : st'.objects ≡ st.objects

-- The caller has come through the guards with a role that may write.
pub record IsWriter (cfg : RouterConfig) (m : Moment) (req : HttpRequest) (w : World) : Type 0 where
  pub who : Identity
  pub passed : (guard cfg m req w).0 ≡ ok who
  pub may_write : exists_row (λ r. str_eq r who.role) writers ≡ true
