-- ===== src/Tests/DocumentRuns.antt =====
-- A document of the sample book's sale.
use ledger_pro.Service.Documents.{
  DocumentState, DocumentResponse, DocumentConditions, Upload, attach_document,
}
use ledger_pro.Service.Documents.Stored.{AllStored, new_row, attach_document-AllStored}
use ledger_pro.Tests.LedgerRuns.{sold}
use ledger_pro.Db.Transactions.{create_transaction as insert_transaction_row}
use ledger_pro.Db.Postings.{
  create_posting, check_transaction_balance, get_postings_by_transaction_id,
}
use ledger_pro.Db.Outbox.{create_outbox_event}
use ledger_pro.Service.Ledger.{
  sum_legs, validate_request, insert_postings, run_deferred, run_transaction, replay_of, remember,
  execute, create_transaction,
}
use ledger_pro.Service.Cache.{cache_get}
use ledger_pro.Prelude.{◌≡◌, false, some, [], ◌∷◌, ◌++◌}
use ledger_pro.Db.Tables.{ok, err}
use ledger_pro.Service.Errors.{ServiceError}

abbrev shelf : DocumentState
shelf = record { db = sold.db; objects = [] }

abbrev receipt : Upload
receipt = record {
  filename = "receipt.pdf";
  content_type = "application/pdf";
  size_bytes = 7;
  content = "receipt";
}

abbrev pub quiet : DocumentConditions
quiet = record {
  now = 120;
  key_id = 90;
  row_id = 91;
  lookup_fails = false;
  upload_fails = false;
  save_fails = false;
  list_fails = false;
  presign = λ key. some key;
  uuid_text = λ i. "u";
}

shelf-AllStored : AllStored shelf
unfolding create_transaction validate_request sum_legs replay_of execute run_transaction
    insert_postings run_deferred insert_transaction_row create_posting create_outbox_event
    check_transaction_balance get_postings_by_transaction_id remember cache_get
shelf-AllStored = tt

attach_document-AllStored_example :
    let (r, st') = attach_document quiet 0 55 receipt shelf in
    AllStored st'
    × ((e : ServiceError) → r ≡ err e → st'.db ≡ shelf.db)
    × ((resp : DocumentResponse)
        → r ≡ ok resp
        → st'.db.documents ≡ shelf.db.documents ++ new_row quiet 0 55 receipt ∷ [])
attach_document-AllStored_example =
    attach_document-AllStored quiet 0 55 receipt shelf shelf-AllStored
