-- ===== src/Api/Login.antt =====
-- internal/api/auth_handler.go. bcrypt is a parameter. A signed-in reply is the status, the role
-- and the value of the cookie session_token.
pub mod Signup
use ledger_pro.Api.Access.{ApiKeyEntry, Identity, find_key}
use ledger_pro.Api.Http.{Context, Reply, reply_json, fail_with}
use ledger_pro.Db.Users.{create_tenant, create_user, get_user_by_email}
use ledger_pro.Service.Sessions.{SessionEntry, create_session, revoke_session}
use ledger_pro.Service.Errors.{over_network}
use ledger_pro.Prelude.{
  ℕ, String, Bool, not, ◌&&◌, ◌||◌, Option, none, some, List, str_eq, if◌then◌else◌,
}
use ledger_pro.Db.Models.{Uuid, Timestamp}
use ledger_pro.Db.Tables.{Database, Result, ok, err}
use ledger_pro.Prelude.Text.{◌<>◌}
use ledger_pro.Api.Problem.{ProblemDetail, new_problem, bad_request, internal_error, unauthorized}

-- golang.org/x/crypto/bcrypt: GenerateFromPassword, and whether CompareHashAndPassword agrees.
pub record Bcrypt : Type 0 where
  pub generate : String → Option String
  pub matches : String → String → Bool

pub record LoginRequest : Type 0 where
  pub api_key : String
  pub email : String
  pub password : String

pub record SignupRequest : Type 0 where
  pub email : String
  pub password : String

pub record SignIn : Type 0 where
  pub role : String
  pub cookie : String

-- The stores that the handlers change.
pub record AuthState : Type 0 where
  pub db : Database
  pub sessions : List SessionEntry

-- What the outside decides: the clock, the ids and the token drawn, and which calls fail.
pub record LoginConditions : Type 0 where
  pub now : Timestamp
  pub session_ttl : ℕ
  pub new_tenant_id : Uuid
  pub new_user_id : Uuid
  pub token : String
  -- which row GetUserByEmail gets, where several have the address
  pub user_choice : ℕ
  pub user_query_fails : Bool
  pub tenant_fails : Bool
  pub user_fails : Bool
  pub random_fails : Bool
  pub store_fails : Bool

-- Step 1 of LoginHandler.
unfoldable pub verify_credentials :
    Bcrypt
    → List ApiKeyEntry
    → LoginConditions
    → LoginRequest
    → Database
    → Result ProblemDetail Identity
verify_credentials b keys c req db =
    if not (str_eq req.api_key "")
    then elim (find_key req.api_key keys) [
      | none ↦ err (unauthorized "invalid API key")
      | some e ↦ ok (record { role = e.role; tenant_id = 0 })
    ]
    else if not (str_eq req.email "") && not (str_eq req.password "")
    then elim (over_network c.user_query_fails (get_user_by_email c.user_choice req.email db)) [
      | err _ ↦ err (unauthorized "invalid email or password")
      | ok user ↦
          if b.matches user.password_hash req.password
          then ok (record { role = user.role; tenant_id = user.tenant_id })
          else err (unauthorized "invalid email or password")
    ]
    else err (bad_request "must provide api_key or email/password")

-- CreateSession and the cookie; `status` is that of the answer.
unfoldable pub sign_in :
    Context → LoginConditions → ℕ → Identity → AuthState → Reply SignIn × AuthState
sign_in ctx c status who st =
    let (r, sessions') =
      create_session c.random_fails c.store_fails c.now c.session_ttl c.token who.role who.tenant_id
        st.sessions in
    (
      elim r [
        | ok token ↦ reply_json status (record { role = who.role; cookie = token })
        | err _ ↦ fail_with ctx (internal_error "failed to create session")
      ],
      record st { sessions = sessions' },
    )

-- `none` is a body that does not decode.
unfoldable pub login_handler :
    Bcrypt
    → List ApiKeyEntry
    → Context
    → LoginConditions
    → Option LoginRequest
    → AuthState
    → Reply SignIn × AuthState
login_handler b keys ctx c none st = (fail_with ctx (bad_request "invalid JSON body"), st)
login_handler b keys ctx c (some req) st = elim (verify_credentials b keys c req st.db) [
  | err p ↦ (fail_with ctx p, st)
  | ok who ↦ sign_in ctx c 200 who st
]

abbrev pub email_conflict : ProblemDetail
email_conflict = new_problem "about:blank" "Conflict" 409 "email already exists"

-- CreateTenant and CreateUser are two statements, with no transaction around them: the tenant
-- stays where the user is refused. The first part says which problem stopped the signup.
unfoldable pub register :
    LoginConditions → String → String → Database → Result ProblemDetail Identity × Database
register c email hash db =
    elim (over_network c.tenant_fails
      (create_tenant c.new_tenant_id c.now ("Organization of " <> email) db)) [
        | err _ ↦ (err (internal_error "failed to create organization"), db)
        | ok t ↦
            elim (over_network c.user_fails (
              create_user c.new_user_id c.now
                (record { tenant_id = t.0.id; email = email; password_hash = hash; role = "admin" })
                t.1)) [
                  | err _ ↦ (err email_conflict, t.1)
                  | ok u ↦ (ok (record { role = u.0.role; tenant_id = u.0.tenant_id }), u.1)
                ]
      ]

unfoldable pub signup_handler :
    Bcrypt → Context → LoginConditions → Option SignupRequest → AuthState → Reply SignIn × AuthState
signup_handler b ctx c none st = (fail_with ctx (bad_request "invalid JSON body"), st)
signup_handler b ctx c (some req) st =
    if str_eq req.email "" || str_eq req.password ""
    then (fail_with ctx (bad_request "email and password are required"), st)
    else elim (b.generate req.password) [
      | none ↦ (fail_with ctx (internal_error "failed to process password"), st)
      | some hash ↦
          let (r, db') = register c req.email hash st.db in
          elim r [
            | err p ↦ (fail_with ctx p, record st { db = db' })
            | ok who ↦ sign_in ctx c 201 who (record st { db = db' })
          ]
    ]

-- The cookie is cleared and the answer is 204, whatever Redis says.
unfoldable pub logout_handler : Bool → Option String → List SessionEntry → List SessionEntry
logout_handler delete_fails none sessions = sessions
logout_handler delete_fails (some token) sessions =
    if str_eq token "" then sessions else (revoke_session delete_fails token sessions).1

unfoldable pub me_handler : Context → Identity → Reply String
me_handler ctx who =
    if str_eq who.role ""
    then fail_with ctx (unauthorized "not authenticated")
    else reply_json 200 who.role
