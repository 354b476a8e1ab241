-- ===== src/Service/Queries.antt =====
-- internal/service/ledger.go: the account operations and the read side of the transactions. The
-- Boolean arguments say which calls over the network fail.
pub mod Ids
use ledger_pro.Db.Accounts.{
  get_account_by_id, create_account as insert_account, list_accounts as select_accounts,
}
use ledger_pro.Db.Transactions.{get_transaction_by_id, list_transactions as select_transactions}
use ledger_pro.Db.Postings.{
  get_postings_by_transaction_id, get_account_balance as select_account_balance,
}
use ledger_pro.Db.History.{AccountPostingRow, get_postings_by_account_id}
use ledger_pro.Service.Ledger.{or_empty_object}
use ledger_pro.Prelude.{ℕ, String, Bool, ◌||◌, Option, List, ltb, ◌==◌, if◌then◌else◌}
use ledger_pro.Prelude.Int.{ℤ, pos, negsuc}
use ledger_pro.Db.Models.{Uuid, Timestamp, AccountType, Account, Transaction}
use ledger_pro.Db.Tables.{Database, DbError, no_rows, Result, ok, err, ◌>>=◌}
use ledger_pro.Service.Errors.{
  Stage, create_account_stage, get_account_stage, list_accounts_stage,
  get_account_for_balance_stage, get_account_balance_stage, list_account_postings_stage,
  get_transaction_stage, get_postings_stage, list_transactions_stage, ServiceError,
  account_not_found, transaction_not_found, wrapped, wrap, over_network,
}
use ledger_pro.Service.Cache.{TransactionResponse}

pub record CreateAccountRequest : Type 0 where
  pub account_name : String
  pub account_type : AccountType
  pub currency : String
  pub metadata : Option String

unfoldable pub create_account :
    Bool
    → Timestamp
    → Uuid
    → CreateAccountRequest
    → Database
    → Result ServiceError (Account × Database)
create_account fails now tenant req db = wrap create_account_stage (
    over_network fails (
      insert_account now
        (record {
          tenant_id = tenant;
          account_name = req.account_name;
          account_type = req.account_type;
          currency = req.currency;
          metadata = or_empty_object req.metadata;
        })
        db))

-- errors.Is(err, pgx.ErrNoRows) becomes the sentinel, anything else is wrapped.
abbrev pub or_not_found {ℓ} :
    {A : Type ℓ} → ServiceError → Stage → Result DbError A → Result ServiceError A
or_not_found missing stage (ok a) = ok a
or_not_found missing stage (err no_rows) = err missing
or_not_found missing stage (err e) = err (wrapped stage e)

unfoldable pub get_account : Bool → Uuid → ℕ → Database → Result ServiceError Account
get_account fails tenant i db =
    or_not_found account_not_found get_account_stage
      (over_network fails (get_account_by_id i tenant db))

-- `pageSize <= 0 || pageSize > 100` becomes 20.
abbrev pub page_limit : ℤ → ℕ
page_limit (pos n) = if (n == 0) || ltb 100 n then 20 else n
page_limit (negsuc n) = 20

unfoldable pub list_accounts : Bool → Uuid → ℕ → ℤ → Database → Result ServiceError (List Account)
list_accounts fails tenant cursor page_size db =
    wrap list_accounts_stage
      (over_network fails (ok (select_accounts tenant cursor (page_limit page_size) db)))

pub record BalanceResponse : Type 0 where
  pub account_id : ℕ
  pub total_debits : ℕ
  pub total_credits : ℕ
  pub net_balance : ℤ
  pub currency : String

unfoldable pub get_account_balance :
    Bool → Bool → Uuid → ℕ → Database → Result ServiceError BalanceResponse
get_account_balance account_fails balance_fails tenant i db = do
  account ←
      or_not_found account_not_found get_account_for_balance_stage
        (over_network account_fails (get_account_by_id i tenant db))
  balance ←
      wrap get_account_balance_stage
        (over_network balance_fails (select_account_balance i tenant db))
  ok (record {
    account_id = i;
    total_debits = balance.total_debits;
    total_credits = balance.total_credits;
    net_balance = balance.net_balance;
    currency = account.currency;
  })

unfoldable pub list_account_postings :
    Bool → Uuid → ℕ → ℤ → ℤ → Database → Result ServiceError (List AccountPostingRow)
list_account_postings fails tenant i offset page_size db =
    wrap list_account_postings_stage
      (over_network fails (get_postings_by_account_id i tenant offset (page_limit page_size) db))

unfoldable pub get_transaction :
    Bool → Bool → Uuid → Uuid → Database → Result ServiceError TransactionResponse
get_transaction record_fails postings_fail tenant i db = do
  tx ←
      or_not_found transaction_not_found get_transaction_stage
        (over_network record_fails (get_transaction_by_id i tenant db))
  postings ←
      wrap get_postings_stage
        (over_network postings_fail (ok (get_postings_by_transaction_id i tenant db)))
  ok (record {
    id = tx.id;
    idempotency_key = tx.idempotency_key;
    description = tx.description;
    metadata = tx.metadata;
    postings = postings;
    created_at = tx.created_at;
  })

unfoldable pub list_transactions :
    Bool → Uuid → Timestamp → ℤ → Database → Result ServiceError (List Transaction)
list_transactions fails tenant cursor page_size db =
    wrap list_transactions_stage
      (over_network fails (ok (select_transactions tenant cursor (page_limit page_size) db)))
