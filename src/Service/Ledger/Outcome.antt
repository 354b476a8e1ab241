-- ===== src/Service/Ledger/Outcome.antt =====
-- The three ways a call of CreateTransaction ends, and what each has done to the service.
use ledger_pro.Prelude.{
  ◌≡◌, refl, ap, ◌∙◌, ◌≢◌, inl, inr, false, none, some, [], arith, Bool-cases, Option-cases,
}
use ledger_pro.Db.Models.{Uuid, Transaction}
use ledger_pro.Db.Tables.{Database, Result, ok, err, Result-cases}
use ledger_pro.Service.Errors.{ServiceError, lock_acquisition_failed}
use ledger_pro.Service.Cache.{TransactionResponse}
use ledger_pro.Service.Ledger.{
  CreateTransactionRequest, LedgerService, Conditions, validate_request, run_transaction, replay_of,
  response_of, remember, execute, create_transaction,
}
use ledger_pro.Service.Ledger.Commit.{
  transaction_row, committed_db, IsCommitted, run_transaction-eq-ok,
}

-- The service after a commit: the new database, and the response in the cache if it was stored.
abbrev pub after_commit :
    Conditions → Uuid → CreateTransactionRequest → LedgerService → LedgerService
after_commit c tenant req s =
    remember c tenant req
      (response_of c tenant (transaction_row c tenant req) (committed_db c tenant req s.db))
      (record s { db = committed_db c tenant req s.db })

pub data Outcome (c : Conditions) (tenant : Uuid) (req : CreateTransactionRequest)
    (s : LedgerService) (r : Result ServiceError TransactionResponse) (s' : LedgerService)
    : Type 0 where
  refused : (e : ServiceError) → r ≡ err e → s' ≡ s → Outcome c tenant req s r s'
  replayed :
      (resp : TransactionResponse)
      → replay_of c tenant req s ≡ some resp
      → r ≡ ok resp
      → s' ≡ s
      → Outcome c tenant req s r s'
  committed :
      IsCommitted c tenant req s.db
      → validate_request req ≡ ok tt
      → r
        ≡ ok (response_of c tenant (transaction_row c tenant req) (committed_db c tenant req s.db))
      → s' ≡ after_commit c tenant req s
      → Outcome c tenant req s r s'

validate_request-ne_nil :
    (req : CreateTransactionRequest) → validate_request req ≡ ok tt → req.postings ≢ []
unfolding validate_request
validate_request-ne_nil req h = ground arith

execute_commits :
    (c : Conditions) (tenant : Uuid) (req : CreateTransactionRequest) (s : LedgerService)
    → run_transaction c tenant req s.db
      ≡ ok (transaction_row c tenant req, committed_db c tenant req s.db)
    → execute c tenant req s ≡ (
      ok (response_of c tenant (transaction_row c tenant req) (committed_db c tenant req s.db)),
      after_commit c tenant req s,
    )
unfolding execute
execute_commits c tenant req s h = rw (h, execute)

execute-Outcome :
    (c : Conditions) (tenant : Uuid) (req : CreateTransactionRequest) (s : LedgerService)
    → validate_request req ≡ ok tt
    → let (r, s') = execute c tenant req s in Outcome c tenant req s r s'
unfolding execute
execute-Outcome c tenant req s v = go (run_transaction c tenant req s.db) refl
  where
    go :
        (r : Result ServiceError (Transaction × Database))
        → run_transaction c tenant req s.db ≡ r
        → let (a, s') = execute c tenant req s in Outcome c tenant req s a s'
    go (err e) h = refused e (ground arith) (ground arith)
    go (ok r) h =
        let (e, done) = run_transaction-eq-ok c tenant req s.db (validate_request-ne_nil req v) h in
        let ran = execute_commits c tenant req s (h ∙ ap ok e) in
        committed done v (ap (λ a. a.0) ran) (ap (λ a. a.1) ran)

pub create_transaction_executes :
    (c : Conditions) (tenant : Uuid) (req : CreateTransactionRequest) (s : LedgerService)
    → validate_request req ≡ ok tt
    → c.lock_fails ≡ false
    → replay_of c tenant req s ≡ none
    → create_transaction c tenant req s ≡ execute c tenant req s
unfolding create_transaction
create_transaction_executes c tenant req s v l e = ground arith

-- Every call of CreateTransaction ends in one of three ways: it is refused and the service is
-- as before; it replays a cached response and the service is as before; or it has committed
-- exactly one transaction, its legs in order and one pending event, within the constraints.
pub create_transaction-Outcome :
    (c : Conditions) (tenant : Uuid) (req : CreateTransactionRequest) (s : LedgerService)
    → let (r, s') = create_transaction c tenant req s in Outcome c tenant req s r s'
unfolding create_transaction
create_transaction-Outcome c tenant req s = elim (Result-cases (validate_request req)) [
  | inr (e, h) ↦ refused e (ground arith) (ground arith)
  | inl (_, h) ↦ elim (Bool-cases c.lock_fails) [
    | inl l ↦ refused lock_acquisition_failed (ground arith) (ground arith)
    | inr l ↦ elim (Option-cases (replay_of c tenant req s)) [
      | inr (resp, e) ↦ replayed resp e (ground arith) (ground arith)
      | inl e ↦
          rw (create_transaction_executes c tenant req s h l e) (execute-Outcome c tenant req s h)
    ]
  ]
]
