-- ===== src/Tests/LedgerRuns.antt =====
-- CreateTransaction on the sample book.
use ledger_pro.Db.Transactions.{same_key}
use ledger_pro.Service.Cache.{TransactionResponse, cache_get}
use ledger_pro.Service.Ledger.{
  CreateTransactionRequest, LedgerService, sum_legs, validate_request, insert_postings,
  run_deferred, run_transaction, replay_of, remember, execute, create_transaction,
}
use ledger_pro.Service.Ledger.Invariant.{IsValid}
use ledger_pro.Service.Ledger.Outcome.{Outcome, create_transaction-Outcome}
use ledger_pro.Service.Ledger.Safety.{
  leg_debit, leg_credit, create_transaction-IsValid, create_transaction_unbalanced,
  create_transaction-same_key,
}
use ledger_pro.Service.Ledger.Refinement.{journal, JournalStep, create_transaction-JournalStep}
use ledger_pro.Service.Ledger.Replay.{create_transaction_idempotent}
use ledger_pro.Service.Ledger.Validation.{IsLeg, validate_request_iff, validate_request_wraps}
use ledger_pro.Service.Ledger.Isolation.{SameView, create_transaction-SameView}
use ledger_pro.Service.Ledger.Response.{
  leg_of_row, name_of_leg, create_transaction_response, create_transaction_names,
}
use ledger_pro.Tests.Sample.{book, fresh, calm, later, leg, sale, wrapping, book-IsValid}
use ledger_pro.Db.Transactions.{create_transaction as insert_transaction_row}
use ledger_pro.Db.Postings.{
  create_posting, check_transaction_balance, PostingRow, get_postings_by_transaction_id,
}
use ledger_pro.Db.Outbox.{create_outbox_event}
use ledger_pro.Prelude.{
  ℕ, ◌%◌, ◌≤◌, String, ◌≡◌, refl, ◌≢◌, ◌↔◌, true, false, none, some, [], ◌∷◌, map, arith, str_eq,
  All, total, length, exists_row,
}
use ledger_pro.Prelude.Int.{int64_size}
use ledger_pro.Db.Models.{PostingDirection, debit, credit}
use ledger_pro.Db.Tables.{ok}

abbrev pub sold : LedgerService
sold = (create_transaction calm 0 sale fresh).1

abbrev row : ℕ → ℕ → String → ℕ → PostingDirection → PostingRow
row i a name n d = record {
  id = i;
  tenant_id = 0;
  transaction_id = 55;
  account_id = a;
  account_name = name;
  amount = n;
  direction = d;
  created_at = 100;
}

abbrev pub sale_response : TransactionResponse
sale_response = record {
  id = 55;
  idempotency_key = "k-1";
  description = "sale";
  metadata = "{}";
  postings =
      row 1 1 "Cash" 500 debit ∷ row 2 2 "Sales" 300 credit ∷ row 3 2 "Sales" 200 credit ∷ [];
  created_at = 100;
}

pub sale_succeeds : (create_transaction calm 0 sale fresh).0 ≡ ok sale_response
unfolding create_transaction validate_request sum_legs replay_of execute run_transaction
    insert_postings run_deferred insert_transaction_row create_posting create_outbox_event
    check_transaction_balance get_postings_by_transaction_id cache_get
sale_succeeds = refl

create_transaction-Outcome_example :
    let (r, s') = create_transaction calm 0 sale fresh in Outcome calm 0 sale fresh r s'
create_transaction-Outcome_example = create_transaction-Outcome calm 0 sale fresh

create_transaction-IsValid_example : IsValid sold.db
create_transaction-IsValid_example = create_transaction-IsValid calm 0 sale fresh book-IsValid

create_transaction_unbalanced_example : (create_transaction calm 0 wrapping fresh).1.db ≡ book
create_transaction_unbalanced_example =
    create_transaction_unbalanced calm 0 wrapping fresh book-IsValid (omega arith)

key_taken : exists_row (same_key 0 "k-1") sold.db.transactions ≡ true
unfolding create_transaction validate_request sum_legs replay_of execute run_transaction
    insert_postings run_deferred insert_transaction_row create_posting create_outbox_event
    check_transaction_balance get_postings_by_transaction_id remember cache_get
key_taken = refl

create_transaction-same_key_example : (create_transaction later 0 sale sold).1.db ≡ sold.db
create_transaction-same_key_example = create_transaction-same_key later 0 sale sold key_taken

sale_validates : validate_request sale ≡ ok tt
unfolding validate_request sum_legs
sale_validates = refl

pub sale_misses : replay_of calm 0 sale fresh ≡ none
unfolding replay_of cache_get
sale_misses = refl

create_transaction_idempotent_example :
    create_transaction later 0 sale sold ≡ (ok sale_response, sold)
create_transaction_idempotent_example =
    create_transaction_idempotent calm later 0 sale sale fresh {resp = sale_response} sale_succeeds
      sale_misses refl refl sale_validates refl refl refl refl

validate_request_iff_example : (validate_request sale ≡ ok tt) ↔ (
    (str_eq sale.idempotency_key "" ≡ false)
    × (2 ≤ length sale.postings)
    × All IsLeg sale.postings
    × (total leg_debit sale.postings % int64_size ≡ total leg_credit sale.postings % int64_size))
validate_request_iff_example = validate_request_iff sale

validate_request_wraps_example :
    (validate_request wrapping ≡ ok tt)
    × (total leg_debit wrapping.postings ≢ total leg_credit wrapping.postings)
validate_request_wraps_example =
    validate_request_wraps wrapping refl (omega arith)
      (
        (omega arith, omega arith, refl),
        ((omega arith, omega arith, refl), ((omega arith, omega arith, refl), tt)),
      )
      (omega arith)

create_transaction-SameView_example : SameView 7 book sold.db
create_transaction-SameView_example = create_transaction-SameView calm 0 7 sale fresh (omega arith)

create_transaction_response_example :
    (sale_response.idempotency_key ≡ sale.idempotency_key)
    × (sale_response.description ≡ sale.description)
    × (map leg_of_row sale_response.postings ≡ sale.postings)
create_transaction_response_example =
    create_transaction_response calm 0 sale fresh sale_response book-IsValid sale_succeeds
      sale_misses refl

-- A request of the tenant 0 with a leg on the account 3, which is the tenant 7's.
abbrev crossing : CreateTransactionRequest
crossing = record {
  idempotency_key = "k-3";
  description = "crossing";
  metadata = none;
  postings = leg 3 100 debit ∷ leg 2 100 credit ∷ [];
}

abbrev crossing_response : TransactionResponse
crossing_response = record {
  id = 55;
  idempotency_key = "k-3";
  description = "crossing";
  metadata = "{}";
  postings = row 1 3 "Cash" 100 debit ∷ row 2 2 "Sales" 100 credit ∷ [];
  created_at = 100;
}

crossing_succeeds : (create_transaction calm 0 crossing fresh).0 ≡ ok crossing_response
unfolding create_transaction validate_request sum_legs replay_of execute run_transaction
    insert_postings run_deferred insert_transaction_row create_posting create_outbox_event
    check_transaction_balance get_postings_by_transaction_id cache_get
crossing_succeeds = refl

crossing_misses : replay_of calm 0 crossing fresh ≡ none
unfolding replay_of cache_get
crossing_misses = refl

create_transaction_names_example :
    map (λ r. some r.account_name) crossing_response.postings
    ≡ map (name_of_leg book) crossing.postings
create_transaction_names_example =
    create_transaction_names calm 0 crossing fresh crossing_response book-IsValid crossing_succeeds
      crossing_misses refl

create_transaction-JournalStep_example :
    JournalStep 0 sale (journal book) (journal (create_transaction calm 0 sale fresh).1.db)
create_transaction-JournalStep_example =
    create_transaction-JournalStep calm 0 sale fresh book-IsValid
