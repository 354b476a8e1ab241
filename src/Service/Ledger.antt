-- ===== src/Service/Ledger.antt =====
-- internal/service/ledger.go: LedgerService.CreateTransaction, step by step. What the outside
-- decides on a call (the clock, the ids drawn, which calls over the network fail) is its
-- `Conditions`. The theorems are in the modules below.
pub mod Posted
pub mod Commit
pub mod Invariant
pub mod Outcome
pub mod Safety
pub mod Replay
pub mod Validation
pub mod Isolation
pub mod Response
pub mod Balance
pub mod Concurrent
pub mod Refinement
pub mod References
use ledger_pro.Prelude.{
  ℕ, ◌+◌, String, Bool, ◌||◌, Option, none, some, List, [], ◌∷◌, str_eq, ltb, ◌==◌, if◌then◌else◌,
  length,
}
use ledger_pro.Db.Models.{
  Uuid, Timestamp, debit, credit, unknown_direction, Transaction, PostingEntry,
  TransactionCreatedEvent,
}
use ledger_pro.Db.Tables.{Database, DbError, Result, ok, err, ◌>>=◌, ◌>>◌}
use ledger_pro.Db.Postings.{
  create_posting, check_transaction_balance, get_postings_by_transaction_id,
}
use ledger_pro.Db.Outbox.{create_outbox_event}
use ledger_pro.Db.Transactions.{create_transaction as insert_transaction_row}
use ledger_pro.Service.Errors.{
  begin_tx, insert_transaction, insert_posting, build_outbox_payload, insert_outbox_event,
  commit_transaction, ServiceError, idempotency_key_required, empty_postings, invalid_amount,
  lock_acquisition_failed, unbalanced_transaction, invalid_direction, wrap, over_network,
}
use ledger_pro.Service.Cache.{TransactionResponse, response, CacheEntry, cache_get, cache_set}
use ledger_pro.Prelude.Int.{add64, nonpositive64}

pub record CreateTransactionRequest : Type 0 where
  pub idempotency_key : String
  pub description : String
  pub metadata : Option String
  pub postings : List PostingEntry

-- The state behind the service: the database, the cache, and the configured expiry.
pub record LedgerService : Type 0 where
  pub db : Database
  pub cache : List CacheEntry
  pub idempotency_ttl : ℕ

pub record Conditions : Type 0 where
  pub now : Timestamp
  pub transaction_id : Uuid
  pub event_id : Uuid
  pub outbox_id : Uuid
  pub lock_fails : Bool
  pub cache_get_fails : Bool
  pub begin_fails : Bool
  pub insert_fails : Bool
  pub posting_fails : ℕ → Bool
  pub payload_fails : Bool
  pub outbox_fails : Bool
  pub commit_fails : Bool
  pub fetch_fails : Bool
  pub marshal_fails : Bool
  pub cache_set_fails : Bool

-- The loop that sums the legs, on int64; it stops at the first bad leg.
unfoldable pub sum_legs : List PostingEntry → ℕ → ℕ → Result ServiceError (ℕ × ℕ)
sum_legs [] debit_sum credit_sum = ok (debit_sum, credit_sum)
sum_legs (p ∷ ps) debit_sum credit_sum =
    if nonpositive64 p.amount then err invalid_amount else elim (p.direction) [
      | debit ↦ sum_legs ps (add64 debit_sum p.amount) credit_sum
      | credit ↦ sum_legs ps debit_sum (add64 credit_sum p.amount)
      | unknown_direction d ↦ err (invalid_direction d)
    ]

-- The validation at the head of CreateTransaction.
unfoldable pub validate_request : CreateTransactionRequest → Result ServiceError (Unit {0})
validate_request req =
    if str_eq req.idempotency_key ""
    then err idempotency_key_required
    else if ltb (length req.postings) 2
    then err empty_postings
    else (sum_legs req.postings 0 0 >>= λ sums.
        if sums.0 == sums.1 then ok tt else err (unbalanced_transaction sums.0 sums.1))

-- `metadata == nil` becomes `{}`.
abbrev pub or_empty_object : Option String → String
or_empty_object none = "{}"
or_empty_object (some m) = m

-- Step 5: the postings, in the request's order.
unfoldable pub insert_postings :
    Conditions → Uuid → Uuid → ℕ → List PostingEntry → Database → Result ServiceError Database
insert_postings c tenant tx_id i [] db = ok db
insert_postings c tenant tx_id i (p ∷ ps) db =
    wrap (insert_posting i) (
      over_network (c.posting_fails i) (
        create_posting c.now
          (record {
            tenant_id = tenant;
            transaction_id = tx_id;
            account_id = p.account_id;
            amount = p.amount;
            direction = p.direction;
          })
          db))
    >>= λ inserted. insert_postings c tenant tx_id (i + 1) ps inserted.1

-- COMMIT runs the deferred trigger once for each posting that the transaction inserted.
unfoldable pub run_deferred : Uuid → List PostingEntry → Database → Result DbError (Unit {0})
run_deferred tx_id [] db = ok tt
run_deferred tx_id (p ∷ ps) db = check_transaction_balance tx_id db >> run_deferred tx_id ps db

abbrev pub created_event :
    Conditions → Uuid → List PostingEntry → Transaction → TransactionCreatedEvent
created_event c tenant legs tx = record {
  event_id = c.event_id;
  event_type = "transaction.created";
  tenant_id = tenant;
  transaction_id = tx.id;
  idempotency_key = tx.idempotency_key;
  description = tx.description;
  postings = legs;
  metadata = tx.metadata;
  created_at = tx.created_at;
}

-- Steps 3 to 7, the database transaction. An error anywhere rolls it back: the caller keeps the
-- database that it had.
unfoldable pub run_transaction :
    Conditions
    → Uuid
    → CreateTransactionRequest
    → Database
    → Result ServiceError (Transaction × Database)
run_transaction c tenant req db = do
  wrap begin_tx (over_network c.begin_fails (ok tt))
  inserted ← wrap insert_transaction (
      over_network c.insert_fails (
        insert_transaction_row c.transaction_id c.now
          (record {
            tenant_id = tenant;
            idempotency_key = req.idempotency_key;
            description = req.description;
            metadata = or_empty_object req.metadata;
          })
          db))
  let tx = inserted.0
  posted ← insert_postings c tenant tx.id 0 req.postings inserted.1
  wrap build_outbox_payload (over_network c.payload_fails (ok tt))
  queued ← wrap insert_outbox_event (
      over_network c.outbox_fails (
        create_outbox_event c.outbox_id c.now
          (record {
            tenant_id = tenant;
            event_type = "transaction.created";
            routing_key = "transaction.created";
            payload = created_event c tenant req.postings tx;
          })
          posted))
  wrap commit_transaction (over_network c.commit_fails (run_deferred tx.id req.postings queued.1))
  ok (tx, queued.1)

-- Step 2: the cached response, if there is one that decodes. A failing Redis counts as a miss.
unfoldable pub replay_of :
    Conditions → Uuid → CreateTransactionRequest → LedgerService → Option TransactionResponse
replay_of c tenant req s =
    if c.cache_get_fails then none else elim (cache_get c.now tenant req.idempotency_key s.cache) [
      | some (response r) ↦ some r
      | _ ↦ none
    ]

-- Step 8: the postings are read back; if that fails the response has none.
abbrev pub response_of : Conditions → Uuid → Transaction → Database → TransactionResponse
response_of c tenant tx db = record {
  id = tx.id;
  idempotency_key = tx.idempotency_key;
  description = tx.description;
  metadata = tx.metadata;
  postings = if c.fetch_fails then [] else get_postings_by_transaction_id tx.id tenant db;
  created_at = tx.created_at;
}

-- Step 9, best effort.
unfoldable pub remember :
    Conditions
    → Uuid
    → CreateTransactionRequest
    → TransactionResponse
    → LedgerService
    → LedgerService
remember c tenant req r s = if c.marshal_fails || c.cache_set_fails then s else record s {
  cache = cache_set c.now s.idempotency_ttl tenant req.idempotency_key (response r) s.cache;
}

-- Steps 3 to 9.
unfoldable pub execute :
    Conditions
    → Uuid
    → CreateTransactionRequest
    → LedgerService
    → Result ServiceError TransactionResponse × LedgerService
execute c tenant req s = elim (run_transaction c tenant req s.db) [
  | err e ↦ (err e, s)
  | ok (tx, db) ↦ (
    ok (response_of c tenant tx db),
    remember c tenant req (response_of c tenant tx db) (record s { db = db }),
  )
]

-- LedgerService.CreateTransaction. The lock is released on every path that took it.
unfoldable pub create_transaction :
    Conditions
    → Uuid
    → CreateTransactionRequest
    → LedgerService
    → Result ServiceError TransactionResponse × LedgerService
create_transaction c tenant req s = elim (validate_request req) [
  | err e ↦ (err e, s)
  | ok _ ↦
      if c.lock_fails
      then (err lock_acquisition_failed, s)
      else elim (replay_of c tenant req s) [ some r ↦ (ok r, s) | none ↦ execute c tenant req s ]
]
