-- ===== src/Tests/ConcurrentRuns.antt =====
-- Two calls of CreateTransaction with one key that come in together.
use ledger_pro.Tests.LedgerRuns.{sale_response}
use ledger_pro.Tests.Sample.{fresh, calm, sale}
use ledger_pro.Service.Ledger.{
  CreateTransactionRequest, Conditions, sum_legs, validate_request, insert_postings, run_deferred,
  run_transaction, replay_of, response_of, remember,
}
use ledger_pro.Service.Cache.{TransactionResponse, cache_get, cache_set}
use ledger_pro.Service.Ledger.Commit.{transaction_row}
use ledger_pro.Db.Transactions.{create_transaction as insert_transaction_row}
use ledger_pro.Db.Postings.{
  create_posting, check_transaction_balance, get_postings_by_transaction_id,
}
use ledger_pro.Db.Outbox.{create_outbox_event}
use ledger_pro.Db.Models.{Transaction}
use ledger_pro.Service.Ledger.Safety.{Call}
use ledger_pro.Service.Ledger.Concurrent.{
  starting, locked, answering, leaving, finished, Concurrent, begin, set_stage, set_lock,
  release_lock, after_read, after_run, db_after_run, drawing, obtains, reads, runs, fetches,
  remembers, releases, fails_to_release, lapses, Reachable, at_start, one_later,
}
use ledger_pro.Service.Ledger.Concurrent.OneAnswer.{one_answer}
use ledger_pro.Service.Ledger.Concurrent.Seen.{IsOneKey}
use ledger_pro.Prelude.{ℕ, ◌≡◌, refl, false, none, some, arith}
use ledger_pro.Db.Tables.{ok}

abbrev same_sale : ℕ → Call
same_sale k = (calm, 0, sale)

-- The first call has the lock, and the second has not.
abbrev one_inside : Concurrent
one_inside = record {
  service = fresh;
  locks = set_lock 0 "k-1" (some 0) (λ t key. none);
  stages = set_stage 0 (locked (calm, 0, sale)) (λ k. starting (calm, 0, sale));
}

sale_is_valid : validate_request sale ≡ ok tt
unfolding validate_request sum_legs
sale_is_valid = refl

reaches_one_inside : Reachable false (begin fresh same_sale) one_inside
reaches_one_inside = one_later at_start (obtains 0 calm 0 sale refl sale_is_valid refl)

abbrev read_at : ℕ → Concurrent → Concurrent
read_at k f = record f {
  stages = set_stage k (after_read (calm, 0, sale) (replay_of calm 0 sale f.service)) f.stages;
}

abbrev run_at : ℕ → Concurrent → Concurrent
run_at k f = record f {
  service = record f.service {
    db = db_after_run f.service.db (run_transaction calm 0 sale (drawing 1 f.service.db));
  };
  stages =
      set_stage k (after_run (calm, 0, sale) (run_transaction calm 0 sale (drawing 1 f.service.db)))
        f.stages;
}

-- The Release of the first call fails; its lock runs out before the second call gets it.
abbrev the_sale : ℕ → Conditions × CreateTransactionRequest
the_sale k = (calm, sale)

sale-IsOneKey : IsOneKey the_sale "k-1" fresh.idempotency_ttl
sale-IsOneKey = record {
  keys = λ k. refl;
  gets = λ k. refl;
  sets = λ k. refl;
  marshals = λ k. refl;
  live = λ k n. refl;
}

abbrev row_written : Transaction
row_written = transaction_row calm 0 sale

abbrev first_ran : Concurrent
first_ran = run_at 0 (read_at 0 one_inside)

abbrev answer : TransactionResponse
answer = response_of calm 0 row_written first_ran.service.db

abbrev first_stored : Concurrent
first_stored = record first_ran {
  service = remember calm 0 sale answer first_ran.service;
  stages =
      set_stage 0 (leaving (calm, 0, sale) (ok answer))
        (set_stage 0 (answering (calm, 0, sale) answer) first_ran.stages);
}

reaches_first_stored : Reachable false (begin fresh same_sale) first_stored
unfolding run_transaction insert_postings run_deferred insert_transaction_row create_posting
    create_outbox_event check_transaction_balance replay_of cache_get
reaches_first_stored =
    one_later
      (one_later
        (one_later (one_later reaches_one_inside (reads 0 calm 0 sale refl))
          (runs 0 calm 0 sale 1 refl (omega arith)))
        (fetches 0 calm 0 sale row_written refl))
      (remembers 0 calm 0 sale answer refl)

abbrev first_left : Concurrent
first_left = record first_stored {
  locks = set_lock 0 "k-1" none first_stored.locks;
  stages = set_stage 0 (finished (ok answer)) first_stored.stages;
}

abbrev second_inside : Concurrent
second_inside = record first_left {
  locks = set_lock 0 "k-1" (some 1) first_left.locks;
  stages = set_stage 1 (locked (calm, 0, sale)) first_left.stages;
}

abbrev second_left : Concurrent
second_left = record second_inside {
  locks = release_lock 1 0 "k-1" second_inside.locks;
  stages = set_stage 1 (finished (ok answer)) (read_at 1 second_inside).stages;
}

reaches_second_left : Reachable false (begin fresh same_sale) second_left
unfolding replay_of cache_get remember cache_set
reaches_second_left =
    one_later
      (one_later
        (one_later
          (one_later
            (one_later reaches_first_stored (fails_to_release 0 calm 0 sale (ok answer) refl))
            (lapses 0 0 "k-1" refl refl))
          (obtains 1 calm 0 sale refl sale_is_valid refl))
        (reads 1 calm 0 sale refl))
      (releases 1 calm 0 sale (ok answer) refl)

one_answer_example : answer ≡ sale_response
unfolding replay_of cache_get get_postings_by_transaction_id run_transaction insert_transaction_row
    insert_postings create_posting create_outbox_event run_deferred check_transaction_balance
one_answer_example =
    one_answer fresh 0 the_sale "k-1" none {f = second_left} 0 1 answer sale_response sale-IsOneKey
      (λ n. refl) reaches_second_left refl refl
