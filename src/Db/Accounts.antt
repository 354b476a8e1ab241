-- ===== src/Db/Accounts.antt =====
-- internal/db/queries.sql.go on accounts, with the constraints of db/migrations 000001 and 000005.
use ledger_pro.Prelude.{
  ℕ, ◌+◌, String, Bool, true, false, not, ◌&&◌, ◌||◌, List, [], ◌∷◌, ◌++◌, str_eq, ltb, ◌==◌,
  order_by, length, take, where_rows, first_row, exists_row,
}
use ledger_pro.Prelude.Int.{int64_max}
use ledger_pro.Db.Models.{Uuid, Timestamp, AccountType, unknown_type, Account}
use ledger_pro.Db.Tables.{
  Database, DbError, unique_violation, foreign_key_violation, invalid_enum, Result, ok, ◌>>◌,
  require, scan_one, has_tenant,
}

pub record CreateAccountParams : Type 0 where
  pub tenant_id : Uuid
  pub account_name : String
  pub account_type : AccountType
  pub currency : String
  pub metadata : String

-- The labels of the enum `account_type`.
abbrev pub is_account_type : AccountType → Bool
is_account_type (unknown_type _) = false
is_account_type _ = true

-- UNIQUE (tenant_id, account_name)
abbrev pub same_name : Uuid → String → Account → Bool
same_name t n r = (r.tenant_id == t) && str_eq r.account_name n

abbrev pub new_account : Timestamp → CreateAccountParams → Database → Account
new_account now arg db = record {
  id = db.accounts_id_seq;
  account_name = arg.account_name;
  account_type = arg.account_type;
  currency = arg.currency;
  metadata = arg.metadata;
  created_at = now;
  tenant_id = arg.tenant_id;
}

unfoldable pub create_account :
    Timestamp → CreateAccountParams → Database → Result DbError (Account × Database)
create_account now arg db = do
  require (is_account_type arg.account_type) invalid_enum
  require (not (exists_row (same_name arg.tenant_id arg.account_name) db.accounts)) unique_violation
  require (has_tenant arg.tenant_id db) foreign_key_violation
  let row = new_account now arg db
  ok (row, record db { accounts = db.accounts ++ row ∷ []; accounts_id_seq = row.id + 1 })

-- WHERE id = $1 AND tenant_id = $2
abbrev pub is_account : ℕ → Uuid → Account → Bool
is_account i t r = (r.id == i) && (r.tenant_id == t)

unfoldable pub get_account_by_id : ℕ → Uuid → Database → Result DbError Account
get_account_by_id i t db = scan_one (first_row (is_account i t) db.accounts)

unfoldable pub get_account_by_name : String → Uuid → Database → Result DbError Account
get_account_by_name n t db = scan_one (first_row (same_name t n) db.accounts)

unfoldable pub count_accounts : Uuid → Database → ℕ
count_accounts t db = length (where_rows (λ r. r.tenant_id == t) db.accounts)

-- tenant_id = $1 AND id > $2, where the cursor is an int64 and the ids are positive.
abbrev pub after_cursor : Uuid → ℕ → Account → Bool
after_cursor t cursor r = (r.tenant_id == t) && (ltb int64_max cursor || ltb cursor r.id)

-- WHERE … ORDER BY id ASC LIMIT $3
unfoldable pub list_accounts : Uuid → ℕ → ℕ → Database → List Account
list_accounts t cursor page_size db =
    take page_size (order_by (λ r. r.id) (where_rows (after_cursor t cursor) db.accounts))
