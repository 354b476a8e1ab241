-- ===== src/Service/Errors.antt =====
-- The error sentinels of internal/service/ledger.go, and the errors that it wraps.
use ledger_pro.Prelude.{ℕ, String, Bool, true, false}
use ledger_pro.Db.Tables.{DbError, unavailable, Result, ok, err}

-- The text that `fmt.Errorf("…: %w", err)` puts in front.
pub data Stage : Type 0 where
  create_account_stage get_account_stage list_accounts_stage : Stage
  get_account_for_balance_stage get_account_balance_stage list_account_postings_stage : Stage
  begin_tx insert_transaction : Stage
  insert_posting : ℕ → Stage
  build_outbox_payload insert_outbox_event commit_transaction : Stage
  get_transaction_stage get_postings_stage list_transactions_stage : Stage
  verify_transaction upload_to_storage save_document_metadata get_documents_stage : Stage

pub data ServiceError : Type 0 where
  idempotency_key_required idempotency_key_conflict empty_postings invalid_amount : ServiceError
  account_not_found transaction_not_found lock_acquisition_failed : ServiceError
  unbalanced_transaction : ℕ → ℕ → ServiceError
  invalid_direction : String → ServiceError
  wrapped : Stage → DbError → ServiceError

-- The error of a call, with the stage in front.
abbrev pub wrap {ℓ} : {A : Type ℓ} → Stage → Result DbError A → Result ServiceError A
wrap stage (ok a) = ok a
wrap stage (err e) = err (wrapped stage e)

-- A call that goes over the network: `fails` says that it is refused or cut off.
abbrev pub over_network {ℓ} : {A : Type ℓ} → Bool → Result DbError A → Result DbError A
over_network true r = err unavailable
over_network false r = r
