-- ===== src/Service/Ledger/Commit.antt =====
-- What a committed run of CreateTransaction has written: the database it leaves, stated as one
-- record update, and the facts that the constraints and the trigger have established.
use ledger_pro.Prelude.{
  ℕ, ◌+◌, ◌≡◌, refl, ◌≢◌, true, false, List, [], ◌∷◌, ◌++◌, arith, ◌==◌, All, total, length,
  where_rows, exists_row,
}
use ledger_pro.Db.Postings.{debit_amount, credit_amount, of_transaction, check_transaction_balance}
use ledger_pro.Db.Models.{Uuid, Transaction, PostingEntry, LedgerOutbox}
use ledger_pro.Db.Tables.{Database, ok, has_tenant}
use ledger_pro.Service.Ledger.{
  CreateTransactionRequest, Conditions, or_empty_object, run_deferred, created_event,
  run_transaction,
}
use ledger_pro.Db.Transactions.{
  CreateTransactionParams, same_key, new_transaction, create_transaction as insert_transaction_row,
}
use ledger_pro.Db.Outbox.{new_outbox_event, create_outbox_event}
use ledger_pro.Service.Ledger.Posted.{posting_rows, IsAccepted, insert_postings-cases}

abbrev request_params : Uuid → CreateTransactionRequest → CreateTransactionParams
request_params tenant req = record {
  tenant_id = tenant;
  idempotency_key = req.idempotency_key;
  description = req.description;
  metadata = or_empty_object req.metadata;
}

abbrev pub transaction_row : Conditions → Uuid → CreateTransactionRequest → Transaction
transaction_row c tenant req = new_transaction c.transaction_id c.now (request_params tenant req)

abbrev with_transaction : Database → Transaction → Database
with_transaction db tx = record db { transactions = db.transactions ++ tx ∷ [] }

abbrev pub event_row : Conditions → Uuid → CreateTransactionRequest → LedgerOutbox
event_row c tenant req = new_outbox_event c.outbox_id c.now (record {
  tenant_id = tenant;
  event_type = "transaction.created";
  routing_key = "transaction.created";
  payload = created_event c tenant req.postings (transaction_row c tenant req);
})

-- The database after COMMIT: one transaction, its legs and one pending event more.
abbrev pub committed_db : Conditions → Uuid → CreateTransactionRequest → Database → Database
committed_db c tenant req db = record db {
  transactions = db.transactions ++ transaction_row c tenant req ∷ [];
  postings =
      db.postings ++ posting_rows tenant c.transaction_id c.now db.postings_id_seq req.postings;
  postings_id_seq = db.postings_id_seq + length req.postings;
  ledger_outbox = db.ledger_outbox ++ event_row c tenant req ∷ [];
}

-- What the constraints and the trigger have established by then.
pub record IsCommitted (c : Conditions) (tenant : Uuid) (req : CreateTransactionRequest)
    (db : Database) : Type 0 where
  pub fresh_id : exists_row (λ r. r.id == c.transaction_id) db.transactions ≡ false
  pub fresh_key : exists_row (same_key tenant req.idempotency_key) db.transactions ≡ false
  pub owner : has_tenant tenant db ≡ true
  pub legs : All (IsAccepted db.accounts) req.postings
  pub balanced :
      total debit_amount
        (where_rows (of_transaction c.transaction_id) (committed_db c tenant req db).postings)
      ≡ total credit_amount
          (where_rows (of_transaction c.transaction_id) (committed_db c tenant req db).postings)

-- A trigger that ran has compared exact sums: one that leaves BIGINT is refused.
run_deferred-balanced :
    (tx_id : ℕ) (legs : List PostingEntry) (db : Database)
    → legs ≢ []
    → run_deferred tx_id legs db ≡ ok tt
    → total debit_amount (where_rows (of_transaction tx_id) db.postings)
      ≡ total credit_amount (where_rows (of_transaction tx_id) db.postings)
unfolding run_deferred check_transaction_balance
run_deferred-balanced tx_id [] db ne h = absurd (ne refl)
run_deferred-balanced tx_id (p ∷ ps) db ne h = ground arith

pub run_transaction-eq-ok :
    (c : Conditions) (tenant : Uuid) (req : CreateTransactionRequest) (db : Database)
    {r : Transaction × Database}
    → req.postings ≢ []
    → run_transaction c tenant req db ≡ ok r
    → (r ≡ (transaction_row c tenant req, committed_db c tenant req db))
      × IsCommitted c tenant req db
unfolding run_transaction insert_transaction_row create_outbox_event
run_transaction-eq-ok c tenant req db ne h = ground (
  arith,
  insert_postings-cases c tenant c.transaction_id 0 req.postings
      (with_transaction db (transaction_row c tenant req)),
  run_deferred-balanced c.transaction_id req.postings (committed_db c tenant req db),
)
