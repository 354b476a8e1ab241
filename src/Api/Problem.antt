-- ===== src/Api/Problem.antt =====
-- internal/api/problem.go: RFC 7807 problems.
use ledger_pro.Prelude.Text.{◌<>◌}
use ledger_pro.Prelude.{ℕ, String, List, [], str_eq, if◌then◌else◌}

pub record InvalidParam : Type 0 where
  pub name : String
  pub reason : String

pub record ProblemDetail : Type 0 where
  pub problem_type : String
  pub title : String
  pub status : ℕ
  pub detail : String
  pub instance_uri : String
  pub trace_id : String
  pub invalid_params : List InvalidParam

abbrev pub problem_base_uri : String
problem_base_uri = "https://ledgerpro.dev/errors"

abbrev pub problem_type_validation : String
problem_type_validation = problem_base_uri <> "/validation-error"

abbrev pub problem_type_bad_request : String
problem_type_bad_request = problem_base_uri <> "/bad-request"

abbrev pub problem_type_unbalanced_tx : String
problem_type_unbalanced_tx = problem_base_uri <> "/unbalanced-transaction"

abbrev pub problem_type_duplicate_idem_key : String
problem_type_duplicate_idem_key = problem_base_uri <> "/duplicate-idempotency-key"

abbrev pub problem_type_account_not_found : String
problem_type_account_not_found = problem_base_uri <> "/account-not-found"

abbrev pub problem_type_tx_not_found : String
problem_type_tx_not_found = problem_base_uri <> "/transaction-not-found"

abbrev pub problem_type_lock_failed : String
problem_type_lock_failed = problem_base_uri <> "/lock-acquisition-failed"

abbrev pub problem_type_internal_error : String
problem_type_internal_error = problem_base_uri <> "/internal-error"

abbrev pub problem_type_unauthorized : String
problem_type_unauthorized = problem_base_uri <> "/unauthorized"

abbrev pub problem_type_forbidden : String
problem_type_forbidden = problem_base_uri <> "/forbidden"

abbrev pub problem_type_rate_limit_exceeded : String
problem_type_rate_limit_exceeded = problem_base_uri <> "/rate-limit-exceeded"

abbrev problem_type_service_unavail : String
problem_type_service_unavail = problem_base_uri <> "/service-unavailable"

-- NewProblem leaves the other fields at their zero values.
abbrev pub new_problem : String → String → ℕ → String → ProblemDetail
new_problem problem_type title status detail = record {
  problem_type = problem_type;
  title = title;
  status = status;
  detail = detail;
  instance_uri = "";
  trace_id = "";
  invalid_params = [];
}

abbrev pub with_invalid_params : List InvalidParam → ProblemDetail → ProblemDetail
with_invalid_params params p = record p { invalid_params = params }

abbrev pub bad_request : String → ProblemDetail
bad_request = new_problem problem_type_bad_request "Bad Request" 400

abbrev pub validation_error : String → List InvalidParam → ProblemDetail
validation_error detail params =
    with_invalid_params params (new_problem problem_type_validation "Validation Error" 422 detail)

abbrev pub unbalanced_problem : String → List InvalidParam → ProblemDetail
unbalanced_problem detail params =
    with_invalid_params params
      (new_problem problem_type_unbalanced_tx "Unbalanced Bookkeeping Entries" 422 detail)

abbrev pub not_found : String → String → String → ProblemDetail
not_found problem_type title = new_problem problem_type title 404

abbrev pub account_not_found_problem : String → ProblemDetail
account_not_found_problem = not_found problem_type_account_not_found "Account Not Found"

abbrev pub transaction_not_found_problem : String → ProblemDetail
transaction_not_found_problem = not_found problem_type_tx_not_found "Transaction Not Found"

abbrev pub duplicate_idempotency_key : String → ProblemDetail
duplicate_idempotency_key =
    new_problem problem_type_duplicate_idem_key "Duplicate Idempotency Key" 409

abbrev pub lock_failed_problem : String → ProblemDetail
lock_failed_problem = new_problem problem_type_lock_failed "Lock Acquisition Failed" 503

abbrev pub internal_error : String → ProblemDetail
internal_error = new_problem problem_type_internal_error "Internal Server Error" 500

abbrev pub unauthorized : String → ProblemDetail
unauthorized = new_problem problem_type_unauthorized "Unauthorized" 401

abbrev pub forbidden : String → ProblemDetail
forbidden = new_problem problem_type_forbidden "Forbidden" 403

abbrev pub rate_limit_exceeded : String → ProblemDetail
rate_limit_exceeded = new_problem problem_type_rate_limit_exceeded "Rate Limit Exceeded" 429

-- Nothing calls it.
abbrev service_unavailable : String → ProblemDetail
service_unavailable = new_problem problem_type_service_unavail "Service Unavailable" 503

-- WriteProblem fills the trace id and the instance in, where they are not set; the status line
-- is the problem's status.
abbrev pub write_problem : String → String → ProblemDetail → ProblemDetail
write_problem trace path p = record p {
  instance_uri = if str_eq p.instance_uri "" then path else p.instance_uri;
  trace_id = if str_eq p.trace_id "" then trace else p.trace_id;
}
