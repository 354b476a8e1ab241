-- ===== src/Service/Documents.antt =====
-- internal/service/ledger.go: AttachDocument and ListTransactionDocuments. The object store is the
-- list of what has been uploaded; whether it fails and what it signs are arguments.
pub mod Stored
use ledger_pro.Db.Documents.{create_document, get_documents_by_transaction}
use ledger_pro.Db.Transactions.{get_transaction_by_id}
use ledger_pro.Service.Queries.{or_not_found}
use ledger_pro.Service.Errors.{
  verify_transaction, upload_to_storage, save_document_metadata, get_documents_stage, ServiceError,
  transaction_not_found, wrapped, wrap, over_network,
}
use ledger_pro.Prelude.Text.{◌<>◌}
use ledger_pro.Prelude.{
  ℕ, String, Bool, not, Option, none, some, List, ◌∷◌, map, str_eq, if◌then◌else◌, where_rows,
}
use ledger_pro.Db.Models.{Uuid, Timestamp, Document}
use ledger_pro.Db.Tables.{Database, unavailable, Result, ok, err, ◌>>=◌, ◌>>◌}

pub record StoredObject : Type 0 where
  pub object_key : String
  pub content_type : String
  pub content : String

pub record DocumentState : Type 0 where
  pub db : Database
  pub objects : List StoredObject

pub record DocumentResponse : Type 0 where
  pub id : Uuid
  pub transaction_id : Uuid
  pub filename : String
  pub content_type : String
  pub size_bytes : ℕ
  pub download_url : String
  pub created_at : Timestamp

-- The clock, the ids drawn for the object key and the row, which calls fail, what
-- GetPresignedDownloadURL gives for a key, and the text of a UUID.
pub record DocumentConditions : Type 0 where
  pub now : Timestamp
  pub key_id : Uuid
  pub row_id : Uuid
  pub lookup_fails : Bool
  pub upload_fails : Bool
  pub save_fails : Bool
  pub list_fails : Bool
  pub presign : String → Option String
  pub uuid_text : Uuid → String

-- The part that the handler hands over.
pub record Upload : Type 0 where
  pub filename : String
  pub content_type : String
  pub size_bytes : ℕ
  pub content : String

abbrev pub object_key_of : DocumentConditions → Uuid → Uuid → Upload → String
object_key_of c tenant tx u =
    "docs/"
    <> (c.uuid_text tenant
        <> ("/" <> (c.uuid_text tx <> ("/" <> (c.uuid_text c.key_id <> ("_" <> u.filename))))))

-- PutObject replaces what the key held.
abbrev pub put_object : StoredObject → List StoredObject → List StoredObject
put_object o objects = o ∷ where_rows (λ x. not (str_eq x.object_key o.object_key)) objects

-- A URL that cannot be signed is logged and left empty.
abbrev pub download_url_of : DocumentConditions → String → String
download_url_of c key = elim (c.presign key) [ none ↦ "" | some url ↦ url ]

abbrev pub document_response : DocumentConditions → Document → DocumentResponse
document_response c d = record {
  id = d.id;
  transaction_id = d.transaction_id;
  filename = d.filename;
  content_type = d.content_type;
  size_bytes = d.size_bytes;
  download_url = download_url_of c d.object_key;
  created_at = d.created_at;
}

-- Steps 4 and 5. The object stays where the row is refused.
unfoldable pub save_document :
    DocumentConditions
    → Uuid
    → Uuid
    → Upload
    → DocumentState
    → Result ServiceError DocumentResponse × DocumentState
save_document c tenant tx u st =
    elim (wrap save_document_metadata (
      over_network c.save_fails (
        create_document c.row_id c.now
          (record {
            tenant_id = tenant;
            transaction_id = tx;
            filename = u.filename;
            content_type = u.content_type;
            size_bytes = u.size_bytes;
            object_key = object_key_of c tenant tx u;
          })
          st.db))) [
            | err e ↦ (err e, st)
            | ok r ↦ (ok (document_response c r.0), record st { db = r.1 })
          ]

unfoldable pub attach_document :
    DocumentConditions
    → Uuid
    → Uuid
    → Upload
    → DocumentState
    → Result ServiceError DocumentResponse × DocumentState
attach_document c tenant tx u st =
    elim (or_not_found transaction_not_found verify_transaction
      (over_network c.lookup_fails (get_transaction_by_id tx tenant st.db))) [
        | err e ↦ (err e, st)
        | ok _ ↦
            if c.upload_fails
            then (err (wrapped upload_to_storage unavailable), st)
            else save_document c tenant tx u (record st {
              objects =
                  put_object
                    (record {
                      object_key = object_key_of c tenant tx u;
                      content_type = u.content_type;
                      content = u.content;
                    })
                    st.objects;
            })
      ]

unfoldable pub list_transaction_documents :
    DocumentConditions → Uuid → Uuid → Database → Result ServiceError (List DocumentResponse)
list_transaction_documents c tenant tx db = do
  docs ←
      wrap get_documents_stage
        (over_network c.list_fails (ok (get_documents_by_transaction tx tenant db)))
  ok (map (document_response c) docs)
