-- ===== src/Api/Middleware.antt =====
-- internal/api/middleware.go: TraceIDMiddleware, CORSMiddleware and the responseWriter that the
-- request log reads its status from.
pub mod Logged
use ledger_pro.Prelude.Text.{◌<>◌, decimal}
use ledger_pro.Prelude.{
  ℕ, String, Bool, true, false, Option, none, some, List, [], ◌∷◌, str_eq, if◌then◌else◌,
}

abbrev pub Header : Type 0
Header = String × String

-- `fresh` is the UUID that uuid.New draws.
abbrev pub trace_id_of : String → String → String
trace_id_of header fresh = if str_eq header "" then fresh else header

abbrev pub trace_header : String → Header
trace_header trace_id = ("X-Trace-ID", trace_id)

pub record CorsConfig : Type 0 where
  pub allowed_origins : List String
  pub allowed_methods : List String
  pub allowed_headers : List String
  pub max_age : ℕ

abbrev pub default_cors_config : CorsConfig
default_cors_config = record {
  allowed_origins = "*" ∷ [];
  allowed_methods = "GET" ∷ "POST" ∷ "PUT" ∷ "PATCH" ∷ "DELETE" ∷ "OPTIONS" ∷ [];
  allowed_headers =
      "Accept" ∷ "Authorization" ∷ "Content-Type" ∷ "X-API-Key" ∷ "X-Trace-ID" ∷ "Idempotency-Key"
      ∷ "X-Correlation-Id" ∷ [];
  max_age = 86400;
}

-- strings.Join
unfoldable pub join : String → List String → String
join sep [] = ""
join sep (s ∷ []) = s
join sep (s ∷ t ∷ ss) = s <> (sep <> join sep (t ∷ ss))

unfoldable pub cors_headers : CorsConfig → List Header
cors_headers cfg =
    ("Access-Control-Allow-Origin", join ", " cfg.allowed_origins)
    ∷ ("Access-Control-Allow-Methods", join ", " cfg.allowed_methods)
    ∷ ("Access-Control-Allow-Headers", join ", " cfg.allowed_headers)
    ∷ ("Access-Control-Max-Age", decimal cfg.max_age)
    ∷ (
      "Access-Control-Expose-Headers",
      "X-Trace-ID, X-RateLimit-Limit, X-RateLimit-Remaining, X-RateLimit-Reset",
    )
    ∷ []

-- r.Method == http.MethodOptions
abbrev pub is_preflight : String → Bool
is_preflight method = str_eq method "OPTIONS"

-- The writer of net/http keeps the first status; the first bytes send 200 where there is none.
pub record HttpWriter : Type 0 where
  pub status : Option ℕ

abbrev pub send_status : ℕ → HttpWriter → HttpWriter
send_status code w = elim (w.status) [ none ↦ record { status = some code } | some c ↦ w ]

-- What the client gets when the handler has returned.
abbrev pub sent_status : HttpWriter → ℕ
sent_status w = elim (w.status) [ none ↦ 200 | some code ↦ code ]

pub record ResponseWriter : Type 0 where
  pub writer : HttpWriter
  pub status_code : ℕ
  pub wrote_header : Bool

abbrev pub new_response_writer : HttpWriter → ResponseWriter
new_response_writer w = record { writer = w; status_code = 200; wrote_header = false }

unfoldable pub write_header : ℕ → ResponseWriter → ResponseWriter
write_header code rw_ =
    if rw_.wrote_header
    then rw_
    else record { writer = send_status code rw_.writer; status_code = code; wrote_header = true }

-- Write is the embedded writer's.
unfoldable pub write_body : ResponseWriter → ResponseWriter
write_body rw_ = record rw_ { writer = send_status 200 rw_.writer }

-- The calls that a handler makes on its writer.
pub data WriterCall : Type 0 where
  header_call : ℕ → WriterCall
  body_call : WriterCall

unfoldable pub run_calls : List WriterCall → ResponseWriter → ResponseWriter
run_calls [] rw_ = rw_
run_calls (header_call code ∷ calls) rw_ = run_calls calls (write_header code rw_)
run_calls (body_call ∷ calls) rw_ = run_calls calls (write_body rw_)
