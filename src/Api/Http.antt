-- ===== src/Api/Http.antt =====
-- internal/api/handler.go: what the handlers are given of a request, and what they answer.
use ledger_pro.Prelude.{ℕ, String, Option, none, some}
use ledger_pro.Db.Models.{Uuid}
use ledger_pro.Api.Problem.{ProblemDetail, write_problem}

-- The parts of the request and its context that every handler reads: r.URL.Path, the trace id
-- and the tenant id of the context.
pub record Context : Type 0 where
  pub path : String
  pub trace_id : String
  pub tenant_id : Uuid

-- writeJSON with a status and a value, or WriteProblem.
pub data Reply {ℓ} (A : Type ℓ) : Type ℓ where
  reply_json : ℕ → A → Reply A
  reply_problem : ProblemDetail → Reply A

abbrev pub status_of {ℓ} : {A : Type ℓ} → Reply A → ℕ
status_of (reply_json status a) = status
status_of (reply_problem p) = p.status

-- The problem type of an answer.
abbrev pub problem_type_of {ℓ} : {A : Type ℓ} → Reply A → Option String
problem_type_of (reply_json status a) = none
problem_type_of (reply_problem p) = some p.problem_type

abbrev pub fail_with {ℓ} : {A : Type ℓ} → Context → ProblemDetail → Reply A
fail_with ctx p = reply_problem (write_problem ctx.trace_id ctx.path p)
