-- ===== src/Db/Outbox.antt =====
-- internal/db/queries.sql.go on the transactional outbox.
use ledger_pro.Prelude.{
  ℕ, ◌+◌, String, Bool, true, false, not, ◌&&◌, none, some, List, [], ◌∷◌, ◌++◌, ltb, ◌==◌,
  if◌then◌else◌, order_by, take, where_rows, exists_row,
}
use ledger_pro.Db.Models.{
  Uuid, Timestamp, pending, published, failed, TransactionCreatedEvent, LedgerOutbox,
}
use ledger_pro.Db.Tables.{
  Database, DbError, unique_violation, foreign_key_violation, Result, ok, ◌>>◌, require, has_tenant,
}

pub record CreateOutboxEventParams : Type 0 where
  pub tenant_id : Uuid
  pub event_type : String
  pub routing_key : String
  pub payload : TransactionCreatedEvent

-- The columns' defaults: 'pending', no retries yet, five at most.
abbrev pub new_outbox_event : Uuid → Timestamp → CreateOutboxEventParams → LedgerOutbox
new_outbox_event new_id now arg = record {
  id = new_id;
  event_type = arg.event_type;
  routing_key = arg.routing_key;
  payload = arg.payload;
  status = pending;
  retry_count = 0;
  max_retries = 5;
  last_error = some "";
  created_at = now;
  processed_at = none;
  tenant_id = arg.tenant_id;
}

unfoldable pub create_outbox_event :
    Uuid → Timestamp → CreateOutboxEventParams → Database → Result DbError (LedgerOutbox × Database)
create_outbox_event new_id now arg db = do
  require (not (exists_row (λ r. r.id == new_id) db.ledger_outbox)) unique_violation
  require (has_tenant arg.tenant_id db) foreign_key_violation
  let row = new_outbox_event new_id now arg
  ok (row, record db { ledger_outbox = db.ledger_outbox ++ row ∷ [] })

abbrev pub is_pending : LedgerOutbox → Bool
is_pending r = elim (r.status) [ pending ↦ true | _ ↦ false ]

abbrev pub is_failed : LedgerOutbox → Bool
is_failed r = elim (r.status) [ failed ↦ true | _ ↦ false ]

-- WHERE status = 'pending' ORDER BY created_at ASC LIMIT $1
unfoldable pub get_pending_outbox_events : ℕ → List LedgerOutbox → List LedgerOutbox
get_pending_outbox_events batch_size rows =
    take batch_size (order_by (λ r. r.created_at) (where_rows is_pending rows))

-- UPDATE … WHERE: every row that the test selects is rewritten.
abbrev pub update_rows :
    (LedgerOutbox → Bool) → (LedgerOutbox → LedgerOutbox) → List LedgerOutbox → List LedgerOutbox
update_rows p f [] = []
update_rows p f (r ∷ rows) = (if p r then f r else r) ∷ update_rows p f rows

abbrev pub published_row : Timestamp → LedgerOutbox → LedgerOutbox
published_row now r = record r { status = published; processed_at = some now }

-- WHERE id = $1 AND status = 'pending'
abbrev pub pending_with_id : Uuid → LedgerOutbox → Bool
pending_with_id i r = (r.id == i) && is_pending r

unfoldable pub mark_outbox_event_published :
    Uuid → Timestamp → List LedgerOutbox → List LedgerOutbox
mark_outbox_event_published i now = update_rows (pending_with_id i) (published_row now)

abbrev pub failed_row : String → Timestamp → LedgerOutbox → LedgerOutbox
failed_row e now r = record r { status = failed; last_error = some e; processed_at = some now }

-- WHERE id = $1: this statement does not ask for a pending row.
unfoldable pub mark_outbox_event_failed :
    Uuid → String → Timestamp → List LedgerOutbox → List LedgerOutbox
mark_outbox_event_failed i e now = update_rows (λ r. r.id == i) (failed_row e now)

abbrev pub retried_row : String → LedgerOutbox → LedgerOutbox
retried_row e r = record r { retry_count = r.retry_count + 1; last_error = some e }

unfoldable pub increment_outbox_retry : Uuid → String → List LedgerOutbox → List LedgerOutbox
increment_outbox_retry i e = update_rows (pending_with_id i) (retried_row e)

abbrev pub requeued_row : LedgerOutbox → LedgerOutbox
requeued_row r = record r {
  status = pending;
  retry_count = 0;
  last_error = some "";
  processed_at = none;
}

-- WHERE status = 'failed' AND retry_count < max_retries
unfoldable pub requeue_failed_outbox_events : List LedgerOutbox → List LedgerOutbox
requeue_failed_outbox_events =
    update_rows (λ r. is_failed r && ltb r.retry_count r.max_retries) requeued_row
