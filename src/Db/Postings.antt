-- ===== src/Db/Postings.antt =====
-- internal/db/queries.sql.go on postings, the balance query, and the deferred trigger of
-- db/migrations/000001 that checks a transaction's balance at COMMIT.
use mathlib.Core.Option
use ledger_pro.Prelude.{
  ℕ, ◌+◌, String, Bool, true, false, not, ◌&&◌, Option, List, [], ◌∷◌, ◌++◌, leb, ◌==◌, total,
  order_by, where_rows, first_row, exists_row,
}
use ledger_pro.Prelude.Int.{ℤ, pos, negsuc, sub_ℕ, int64_max, nonpositive64}
use ledger_pro.Db.Models.{
  Uuid, Timestamp, PostingDirection, debit, credit, unknown_direction, Posting,
}
use ledger_pro.Db.Tables.{
  Database, DbError, foreign_key_violation, check_violation, invalid_enum, out_of_range, Result, ok,
  ◌>>=◌, ◌>>◌, require, add_joined, has_tenant,
}

pub record CreatePostingParams : Type 0 where
  pub tenant_id : Uuid
  pub transaction_id : Uuid
  pub account_id : ℕ
  pub amount : ℕ
  pub direction : PostingDirection

abbrev pub is_direction : PostingDirection → Bool
is_direction (unknown_direction _) = false
is_direction _ = true

abbrev pub new_posting : Timestamp → CreatePostingParams → ℕ → Posting
new_posting now arg new_id = record {
  id = new_id;
  transaction_id = arg.transaction_id;
  account_id = arg.account_id;
  amount = arg.amount;
  direction = arg.direction;
  created_at = now;
  tenant_id = arg.tenant_id;
}

-- The amount and the account id are int64 bits. The foreign keys name the account and the
-- transaction by id alone, as the migrations do.
unfoldable pub create_posting :
    Timestamp → CreatePostingParams → Database → Result DbError (Posting × Database)
create_posting now arg db = do
  require (is_direction arg.direction) invalid_enum
  require (not (nonpositive64 arg.amount)) check_violation
  require (exists_row (λ r. r.id == arg.transaction_id) db.transactions) foreign_key_violation
  require (exists_row (λ r. r.id == arg.account_id) db.accounts) foreign_key_violation
  require (has_tenant arg.tenant_id db) foreign_key_violation
  let row = new_posting now arg db.postings_id_seq
  ok (row, record db { postings = db.postings ++ row ∷ []; postings_id_seq = row.id + 1 })

-- CASE WHEN direction = 'debit' THEN amount ELSE 0 END, and the same for 'credit'
abbrev pub debit_amount : Posting → ℕ
debit_amount p = elim (p.direction) [ debit ↦ p.amount | _ ↦ 0 ]

abbrev pub credit_amount : Posting → ℕ
credit_amount p = elim (p.direction) [ credit ↦ p.amount | _ ↦ 0 ]

-- A cast of a NUMERIC to BIGINT.
abbrev pub to_bigint : ℕ → Result DbError ℕ
to_bigint n = require (leb n int64_max) out_of_range >> ok n

abbrev pub to_bigint_ℤ : ℤ → Result DbError ℤ
to_bigint_ℤ (pos n) = require (leb n int64_max) out_of_range >> ok (pos n)
to_bigint_ℤ (negsuc n) = require (leb n int64_max) out_of_range >> ok (negsuc n)

abbrev pub of_transaction : Uuid → Posting → Bool
of_transaction t p = p.transaction_id == t

-- fn_check_transaction_balance for NEW.transaction_id = t
unfoldable pub check_transaction_balance : Uuid → Database → Result DbError (Unit {0})
check_transaction_balance t db = do
  let rows = where_rows (of_transaction t) db.postings
  v_debit_sum ← to_bigint (total debit_amount rows)
  v_credit_sum ← to_bigint (total credit_amount rows)
  require (v_debit_sum == v_credit_sum) check_violation

-- account_id = $1 AND tenant_id = $2
abbrev pub of_account : ℕ → Uuid → Posting → Bool
of_account a t p = (p.account_id == a) && (p.tenant_id == t)

pub record GetAccountBalanceRow : Type 0 where
  pub total_debits : ℕ
  pub total_credits : ℕ
  pub net_balance : ℤ

unfoldable pub get_account_balance : ℕ → Uuid → Database → Result DbError GetAccountBalanceRow
get_account_balance a t db = do
  let rows = where_rows (of_account a t) db.postings
  debits ← to_bigint (total debit_amount rows)
  credits ← to_bigint (total credit_amount rows)
  net ← to_bigint_ℤ (sub_ℕ (total debit_amount rows) (total credit_amount rows))
  ok (record { total_debits = debits; total_credits = credits; net_balance = net })

pub record PostingRow : Type 0 where
  pub id : ℕ
  pub tenant_id : Uuid
  pub transaction_id : Uuid
  pub account_id : ℕ
  pub account_name : String
  pub amount : ℕ
  pub direction : PostingDirection
  pub created_at : Timestamp

-- JOIN accounts a ON a.id = p.account_id: the primary key gives one row at most.
abbrev pub join_account : Database → Posting → Option PostingRow
join_account db p =
    Option.map
      (λ a. record {
        id = p.id;
        tenant_id = p.tenant_id;
        transaction_id = p.transaction_id;
        account_id = p.account_id;
        account_name = a.account_name;
        amount = p.amount;
        direction = p.direction;
        created_at = p.created_at;
      })
      (first_row (λ a. a.id == p.account_id) db.accounts)

-- The inner join keeps the postings that have an account.
abbrev pub join_accounts : Database → List Posting → List PostingRow
join_accounts db [] = []
join_accounts db (p ∷ ps) = add_joined (join_account db p) (join_accounts db ps)

-- transaction_id = $1 AND tenant_id = $2
abbrev pub of_transaction_in : Uuid → Uuid → Posting → Bool
of_transaction_in i t p = (p.transaction_id == i) && (p.tenant_id == t)

-- WHERE … ORDER BY p.id ASC
unfoldable pub get_postings_by_transaction_id : Uuid → Uuid → Database → List PostingRow
get_postings_by_transaction_id i t db =
    order_by (λ r. r.id) (join_accounts db (where_rows (of_transaction_in i t) db.postings))
