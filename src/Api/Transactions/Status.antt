-- ===== src/Api/Transactions/Status.antt =====
-- Which statuses POST /v1/transactions answers, and what each means for the ledger.
use ledger_pro.Service.Ledger.Commit.{transaction_row}
use ledger_pro.Service.Ledger.Posted.{leg_params, post_leg}
use ledger_pro.Db.Transactions.{create_transaction as insert_transaction_row}
use ledger_pro.Db.Outbox.{create_outbox_event}
use ledger_pro.Db.Postings.{create_posting}
use ledger_pro.Service.Ledger.Outcome.{Outcome}
use ledger_pro.Service.Ledger as Ledger
use ledger_pro.Service.Ledger.{
  CreateTransactionRequest, LedgerService, Conditions, validate_request, insert_postings,
  run_transaction, execute,
}
use ledger_pro.Api.Validation.{has_errors, validate_create_transaction_request}
use ledger_pro.Service.Cache.{TransactionResponse}
use ledger_pro.Api.Http.{Reply, reply_json, status_of, problem_type_of}
use ledger_pro.Api.Transactions.{with_key}
use ledger_pro.Prelude.{
  ℕ, ◌+◌, String, ◌≡◌, ◌⊎◌, inl, inr, Bool, true, false, some, List, [], ◌∷◌, ◌++◌, arith,
}
use ledger_pro.Service.Errors.{
  Stage, insert_posting, ServiceError, lock_acquisition_failed, wrapped, wrap, over_network,
}
use ledger_pro.Api.Problem.{
  problem_type_validation, problem_type_bad_request, problem_type_lock_failed,
  problem_type_internal_error,
}
use ledger_pro.Db.Models.{Uuid, PostingEntry}
use ledger_pro.Db.Tables.{Database, DbError, Result, ok, err, >>=-eq-err}

-- The errors that a stage of the database transaction has wrapped.
abbrev pub is_wrapped : ServiceError → Bool
is_wrapped (wrapped stage e) = true
is_wrapped _ = false

wrap-is_wrapped {ℓ} :
    {A : Type ℓ} (stage : Stage) (r : Result DbError A) (e : ServiceError)
    → wrap stage r ≡ err e
    → is_wrapped e ≡ true
wrap-is_wrapped stage (ok a) e h = absurd (cc)
wrap-is_wrapped stage (err x) e h = ground arith

insert_postings-wrapped :
    (c : Conditions) (tenant tx_id i : ℕ) (legs : List PostingEntry) (db : Database)
    (e : ServiceError)
    → insert_postings c tenant tx_id i legs db ≡ err e
    → is_wrapped e ≡ true
unfolding insert_postings
insert_postings-wrapped c tenant tx_id i [] db e h = absurd (cc)
insert_postings-wrapped c tenant tx_id i (p ∷ ps) db e h =
    elim (>>=-eq-err (post_leg c tenant tx_id i p db)
      (λ r. insert_postings c tenant tx_id (i + 1) ps r.1) e h) [
        | inl first ↦
            wrap-is_wrapped (insert_posting i)
              (over_network (c.posting_fails i)
                (create_posting c.now (leg_params tenant tx_id p) db))
              e first
        | inr (r, _, rest) ↦ insert_postings-wrapped c tenant tx_id (i + 1) ps r.1 e rest
      ]

run_transaction-wrapped :
    (c : Conditions) (tenant : Uuid) (req : CreateTransactionRequest) (db : Database)
    (e : ServiceError)
    → run_transaction c tenant req db ≡ err e
    → is_wrapped e ≡ true
unfolding run_transaction insert_transaction_row create_outbox_event
run_transaction-wrapped c tenant req db e h = ground (
  arith,
  insert_postings-wrapped c tenant c.transaction_id 0 req.postings
      (record db { transactions = db.transactions ++ transaction_row c tenant req ∷ [] }) e,
)

-- After a validation that passed, CreateTransaction fails for the lock or inside a stage.
pub create_transaction-late_error :
    (c : Conditions) (tenant : Uuid) (req : CreateTransactionRequest) (s : LedgerService)
    (e : ServiceError)
    → validate_request req ≡ ok tt
    → (Ledger.create_transaction c tenant req s).0 ≡ err e
    → (e ≡ lock_acquisition_failed) ⊎ (is_wrapped e ≡ true)
unfolding Ledger.create_transaction execute
create_transaction-late_error c tenant req s e v h =
    ground (arith, run_transaction-wrapped c tenant req s.db e)

-- A problem of this status and type.
abbrev pub IsProblem : ℕ → String → Reply TransactionResponse → Type 0
IsProblem status problem_type reply =
    (status_of reply ≡ status) × (problem_type_of reply ≡ some problem_type)

-- How a POST /v1/transactions with the given body ends.
pub data Answer (body : Result String CreateTransactionRequest) (key : String) (s : LedgerService)
    (reply : Reply TransactionResponse) (s' : LedgerService) : Type 0 where
  undecodable :
      (m : String)
      → body ≡ err m
      → IsProblem 400 problem_type_bad_request reply
      → s' ≡ s
      → Answer body key s reply s'
  invalid_request :
      (req : CreateTransactionRequest)
      → body ≡ ok req
      → has_errors (validate_create_transaction_request (with_key key req)) ≡ true
      → IsProblem 422 problem_type_validation reply
      → s' ≡ s
      → Answer body key s reply s'
  locked_out : IsProblem 503 problem_type_lock_failed reply → s' ≡ s → Answer body key s reply s'
  failed_inside :
      IsProblem 500 problem_type_internal_error reply → s' ≡ s → Answer body key s reply s'
  accepted :
      (req : CreateTransactionRequest) (r : TransactionResponse)
      → body ≡ ok req
      → validate_create_transaction_request (with_key key req) ≡ []
      → reply ≡ reply_json 201 r
      → Answer body key s reply s'
