-- ===== src/Db/Documents.antt =====
-- internal/db/queries.sql.go on documents, with the constraints of db/migrations/000003 and 000005.
use ledger_pro.Prelude.{
  ℕ, String, not, ◌&&◌, List, [], ◌∷◌, ◌++◌, str_eq, ◌==◌, order_by, where_rows, exists_row,
}
use ledger_pro.Db.Models.{Uuid, Timestamp, Document}
use ledger_pro.Db.Tables.{
  Database, DbError, unique_violation, foreign_key_violation, Result, ok, ◌>>◌, require, has_tenant,
}

pub record CreateDocumentParams : Type 0 where
  pub tenant_id : Uuid
  pub transaction_id : Uuid
  pub filename : String
  pub content_type : String
  pub size_bytes : ℕ
  pub object_key : String

abbrev pub new_document : Uuid → Timestamp → CreateDocumentParams → Document
new_document new_id now arg = record {
  id = new_id;
  transaction_id = arg.transaction_id;
  filename = arg.filename;
  content_type = arg.content_type;
  size_bytes = arg.size_bytes;
  object_key = arg.object_key;
  created_at = now;
  tenant_id = arg.tenant_id;
}

unfoldable pub create_document :
    Uuid → Timestamp → CreateDocumentParams → Database → Result DbError (Document × Database)
create_document new_id now arg db = do
  require (not (exists_row (λ r. r.id == new_id) db.documents)) unique_violation
  require (not (exists_row (λ r. str_eq r.object_key arg.object_key) db.documents)) unique_violation
  require (exists_row (λ r. r.id == arg.transaction_id) db.transactions) foreign_key_violation
  require (has_tenant arg.tenant_id db) foreign_key_violation
  let row = new_document new_id now arg
  ok (row, record db { documents = db.documents ++ row ∷ [] })

-- WHERE transaction_id = $1 AND tenant_id = $2 ORDER BY created_at ASC
unfoldable pub get_documents_by_transaction : Uuid → Uuid → Database → List Document
get_documents_by_transaction i t db =
    order_by (λ r. r.created_at)
      (where_rows (λ r. (r.transaction_id == i) && (r.tenant_id == t)) db.documents)
