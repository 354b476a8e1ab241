-- ===== src/Tests/ReadRuns.antt =====
-- Accounts, balances and the paged lists on the sample book.
use ledger_pro.Prelude.Parse.{parse_int}
use ledger_pro.Api.Http.{Context, reply_json}
use ledger_pro.Prelude.Walk.{walk}
use ledger_pro.Api.Accounts.Pages.{accounts_of}
use ledger_pro.Api.Accounts.Walk.{ask_accounts, account_walk_complete}
use ledger_pro.Api.History.{TransactionPage, transaction_page}
use ledger_pro.Api.History.Walk.{transaction_walk, same_row, tied_transaction_lost}
use ledger_pro.Db.Postings.{
  create_posting, check_transaction_balance, GetAccountBalanceRow, get_postings_by_transaction_id,
}
use ledger_pro.Db.Transactions as Listing
use ledger_pro.Db.Postings as Balances
use ledger_pro.Db.Transactions.{create_transaction as insert_transaction_row}
use ledger_pro.Db.Accounts.{create_account as insert_account}
use ledger_pro.Db.Outbox.{create_outbox_event}
use ledger_pro.Service.Ledger.{
  sum_legs, validate_request, insert_postings, run_deferred, run_transaction, replay_of, remember,
  execute, create_transaction,
}
use ledger_pro.Service.Cache.{cache_get}
use ledger_pro.Tests.LedgerRuns.{sold, sale_response, sale_succeeds, sale_misses}
use ledger_pro.Service.Ledger.Balance.{debit_on, credit_on, create_transaction_balance}
use ledger_pro.Service.Queries as Queries
use ledger_pro.Service.Queries.{CreateAccountRequest, get_account}
use ledger_pro.Service.Queries.Ids.{IdsRise, create_account-found}
use ledger_pro.Prelude.{
  ℕ, ◌≡◌, refl, ◌≢◌, false, none, some, [], ◌∷◌, ◌++◌, arith, total, exists_row,
}
use ledger_pro.Prelude.Int.{ℤ, pos, negsuc, sub_ℕ, int64_max}
use ledger_pro.Db.Models.{asset, Account, Transaction}
use ledger_pro.Db.Tables.{Database, ok}
use ledger_pro.Tests.Sample.{book, fresh, calm, sale}

parse_negative : (parse_int "-42").value ≡ negsuc 41
unfolding parse_int
parse_negative = refl

parse_out_of_range : (parse_int "9223372036854775808").value ≡ pos int64_max
unfolding parse_int
parse_out_of_range = refl

parse_refuses : (parse_int "12x").valid ≡ false
unfolding parse_int
parse_refuses = refl

abbrev context : Context
context = record { path = "/v1/accounts"; trace_id = "t"; tenant_id = 0 }

book-IdsRise : IdsRise book
book-IdsRise = record {
  rising = (omega arith, (omega arith, (omega arith, tt)));
  drawn = (omega arith, (omega arith, (omega arith, tt)));
  positive = omega arith;
  in_range = (omega arith, (omega arith, (omega arith, tt)));
}

account_walk_complete_example : walk (ask_accounts context book) 4 1 "" ≡ accounts_of 0 book
account_walk_complete_example =
    account_walk_complete context 1 4 book (omega arith) (omega arith) book-IdsRise (omega arith)

abbrev bank_request : CreateAccountRequest
bank_request = record {
  account_name = "Bank";
  account_type = asset;
  currency = "INR";
  metadata = none;
}

abbrev bank : Account
bank = record {
  id = 4;
  account_name = "Bank";
  account_type = asset;
  currency = "INR";
  metadata = "{}";
  created_at = 20;
  tenant_id = 0;
}

abbrev with_bank : Database
with_bank = record book { accounts = book.accounts ++ bank ∷ []; accounts_id_seq = 5 }

bank_opens : Queries.create_account false 20 0 bank_request book ≡ ok (bank, with_bank)
unfolding Queries.create_account insert_account
bank_opens = refl

create_account-found_example :
    IdsRise with_bank
    × (get_account false 0 4 with_bank ≡ ok bank)
    × ((t i : ℕ) → i ≢ 4 → get_account false t i with_bank ≡ get_account false t i book)
create_account-found_example =
    create_account-found 20 0 bank_request book {r = (bank, with_bank)} book-IdsRise (omega arith)
      bank_opens

abbrev balance_row : ℕ → ℕ → ℤ → GetAccountBalanceRow
balance_row d k n = record { total_debits = d; total_credits = k; net_balance = n }

no_balance : Balances.get_account_balance 2 0 book ≡ ok (balance_row 0 0 (pos 0))
unfolding Balances.get_account_balance
no_balance = refl

sold_balance : Balances.get_account_balance 2 0 sold.db ≡ ok (balance_row 0 500 (negsuc 499))
unfolding Balances.get_account_balance create_transaction validate_request sum_legs replay_of
    execute run_transaction insert_postings run_deferred insert_transaction_row create_posting
    create_outbox_event check_transaction_balance get_postings_by_transaction_id remember cache_get
sold_balance = refl

create_transaction_balance_example :
    (0 ≡ total (debit_on 2) sale.postings)
    × (500 ≡ total (credit_on 2) sale.postings)
    × (negsuc 499 ≡ sub_ℕ 0 500)
create_transaction_balance_example =
    create_transaction_balance calm 0 2 sale fresh sale_response (balance_row 0 0 (pos 0))
      (balance_row 0 500 (negsuc 499)) sale_misses sale_succeeds no_balance sold_balance

-- Two transactions of the same microsecond.
abbrev twin : ℕ → Transaction
twin i = record {
  id = i;
  idempotency_key = "";
  description = "";
  metadata = "{}";
  created_at = 40;
  tenant_id = 0;
}

abbrev twins : Database
twins = record book { transactions = twin 1 ∷ twin 2 ∷ [] }

abbrev first_page : TransactionPage
first_page = record { data_rows = twin 1 ∷ []; next_cursor = some 40; page_size = 1 }

first_page_shown : transaction_page context false 90 1 twins ≡ reply_json 200 first_page
unfolding transaction_page Queries.list_transactions Listing.list_transactions
first_page_shown = refl

tied_transaction_lost_example :
    exists_row (same_row (twin 2)) (transaction_walk 3 context 1 90 twins) ≡ false
tied_transaction_lost_example =
    tied_transaction_lost 2 context 1 90 twins first_page (twin 2) first_page_shown refl refl
