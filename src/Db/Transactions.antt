-- ===== src/Db/Transactions.antt =====
-- internal/db/queries.sql.go on transactions.
use ledger_pro.Prelude.{
  ℕ, String, Bool, not, ◌&&◌, List, [], ◌∷◌, ◌++◌, str_eq, ltb, ◌==◌, order_by_desc, length, take,
  where_rows, first_row, exists_row,
}
use ledger_pro.Db.Models.{Uuid, Timestamp, Transaction}
use ledger_pro.Db.Tables.{
  Database, DbError, unique_violation, foreign_key_violation, Result, ok, ◌>>◌, require, scan_one,
  has_tenant,
}

pub record CreateTransactionParams : Type 0 where
  pub tenant_id : Uuid
  pub idempotency_key : String
  pub description : String
  pub metadata : String

-- UNIQUE (tenant_id, idempotency_key)
abbrev pub same_key : Uuid → String → Transaction → Bool
same_key t k r = (r.tenant_id == t) && str_eq r.idempotency_key k

abbrev pub new_transaction : Uuid → Timestamp → CreateTransactionParams → Transaction
new_transaction new_id now arg = record {
  id = new_id;
  idempotency_key = arg.idempotency_key;
  description = arg.description;
  metadata = arg.metadata;
  created_at = now;
  tenant_id = arg.tenant_id;
}

-- `new_id` is what gen_random_uuid() drew; the primary key refuses one that is taken.
unfoldable pub create_transaction :
    Uuid → Timestamp → CreateTransactionParams → Database → Result DbError (Transaction × Database)
create_transaction new_id now arg db = do
  require (not (exists_row (λ r. r.id == new_id) db.transactions)) unique_violation
  require (not (exists_row (same_key arg.tenant_id arg.idempotency_key) db.transactions))
      unique_violation
  require (has_tenant arg.tenant_id db) foreign_key_violation
  let row = new_transaction new_id now arg
  ok (row, record db { transactions = db.transactions ++ row ∷ [] })

-- WHERE id = $1 AND tenant_id = $2
abbrev pub is_transaction : Uuid → Uuid → Transaction → Bool
is_transaction i t r = (r.id == i) && (r.tenant_id == t)

unfoldable pub get_transaction_by_id : Uuid → Uuid → Database → Result DbError Transaction
get_transaction_by_id i t db = scan_one (first_row (is_transaction i t) db.transactions)

unfoldable pub get_transaction_by_idempotency_key :
    String → Uuid → Database → Result DbError Transaction
get_transaction_by_idempotency_key k t db = scan_one (first_row (same_key t k) db.transactions)

unfoldable pub count_transactions : Uuid → Database → ℕ
count_transactions t db = length (where_rows (λ r. r.tenant_id == t) db.transactions)

-- tenant_id = $1 AND created_at < $2
abbrev pub before_cursor : Uuid → Timestamp → Transaction → Bool
before_cursor t cursor r = (r.tenant_id == t) && ltb r.created_at cursor

-- WHERE … ORDER BY created_at DESC LIMIT $3
unfoldable pub list_transactions : Uuid → Timestamp → ℕ → Database → List Transaction
list_transactions t cursor page_size db =
    take page_size
      (order_by_desc (λ r. r.created_at) (where_rows (before_cursor t cursor) db.transactions))
