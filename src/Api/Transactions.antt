-- ===== src/Api/Transactions.antt =====
-- internal/api/handler.go: Handler.CreateTransaction. The body comes as json.Decode reads it, a
-- request or the text of the error.
pub mod Status
use ledger_pro.Api.Http.{Context, Reply, reply_json, fail_with}
use ledger_pro.Api.Validation.{has_errors, to_problem, validate_create_transaction_request}
use ledger_pro.Service.Cache.{TransactionResponse}
use ledger_pro.Service.Ledger as Ledger
use ledger_pro.Service.Ledger.{CreateTransactionRequest, LedgerService, Conditions}
use ledger_pro.Prelude.{String, [], ◌∷◌, if◌then◌else◌}
use ledger_pro.Prelude.Int.{signed64}
use ledger_pro.Db.Tables.{Result, ok, err}
use ledger_pro.Service.Errors.{
  ServiceError, idempotency_key_required, idempotency_key_conflict, empty_postings, invalid_amount,
  lock_acquisition_failed, unbalanced_transaction, invalid_direction,
}
use ledger_pro.Prelude.Text.{◌<>◌, decimal_ℤ}
use ledger_pro.Api.Problem.{
  ProblemDetail, bad_request, unbalanced_problem, duplicate_idempotency_key, lock_failed_problem,
  internal_error,
}

-- The switch over errors.Is(err, …).
abbrev pub transaction_problem : ServiceError → ProblemDetail
transaction_problem idempotency_key_required = bad_request "idempotency key is required"
transaction_problem idempotency_key_conflict =
    duplicate_idempotency_key "a transaction with this idempotency key already exists"
transaction_problem (unbalanced_transaction d k) =
    unbalanced_problem
      ("sum of debits must equal sum of credits: debits="
        <> decimal_ℤ (signed64 d)
        <> " credits="
        <> decimal_ℤ (signed64 k))
      (record { name = "postings"; reason = "debit and credit legs must balance mathematically" }
        ∷ [])
transaction_problem empty_postings = bad_request "transaction must have at least two postings"
transaction_problem invalid_amount = bad_request "posting amount must be positive"
transaction_problem (invalid_direction d) = bad_request ("invalid posting direction: " <> d)
transaction_problem lock_acquisition_failed =
    lock_failed_problem
      "could not acquire distributed lock — the system is under load, please retry"
transaction_problem _ = internal_error "failed to create transaction"

-- The header overrides the key of the body.
abbrev pub with_key : String → CreateTransactionRequest → CreateTransactionRequest
with_key key req = record req { idempotency_key = key }

abbrev pub answer_transaction :
    Context → Result ServiceError TransactionResponse → Reply TransactionResponse
answer_transaction ctx (ok r) = reply_json 201 r
answer_transaction ctx (err e) = fail_with ctx (transaction_problem e)

unfoldable pub handle_valid :
    Context
    → Conditions
    → CreateTransactionRequest
    → LedgerService
    → Reply TransactionResponse × LedgerService
handle_valid ctx c req s =
    let (r, s') = Ledger.create_transaction c ctx.tenant_id req s in (answer_transaction ctx r, s')

unfoldable pub create_transaction_handler :
    Context
    → Conditions
    → String
    → Result String CreateTransactionRequest
    → LedgerService
    → Reply TransactionResponse × LedgerService
create_transaction_handler ctx c key (err message) s =
    (fail_with ctx (bad_request ("invalid request body: " <> message)), s)
create_transaction_handler ctx c key (ok body) s =
    let req = with_key key body in
    let errors = validate_create_transaction_request req in
    if has_errors errors then (fail_with ctx (to_problem errors), s) else handle_valid ctx c req s
