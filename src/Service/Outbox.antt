-- ===== src/Service/Outbox.antt =====
-- internal/service/outbox.go: the worker that polls the outbox and publishes to RabbitMQ. What the
-- channel returns and the failures of the database are the `Round` that a batch runs in.
pub mod Draining
pub mod Content
pub mod Delivery
pub mod Interleaving
use ledger_pro.Prelude.{
  ℕ, ◌+◌, ◌*◌, ◌^◌, String, Bool, Option, none, some, List, [], ◌∷◌, leb, if◌then◌else◌,
}
use ledger_pro.Db.Models.{Uuid, Timestamp, TransactionCreatedEvent, LedgerOutbox}
use ledger_pro.Db.Outbox.{
  get_pending_outbox_events, mark_outbox_event_published, mark_outbox_event_failed,
  increment_outbox_retry,
}

-- The part of the configuration that the batches use, and its default.
pub record OutboxWorker : Type 0 where
  pub batch_size : ℕ
  pub max_retries : ℕ

abbrev pub default_worker : OutboxWorker
default_worker = record { batch_size = 50; max_retries = 5 }

-- What one poll meets: the clock, whether the fetch fails, what the n-th PublishWithContext returns
-- (`none` is no error, which without publisher confirms does not say that the broker has the
-- message), and whether the n-th update fails.
pub record Round : Type 0 where
  pub now : Timestamp
  pub fetch_fails : Bool
  pub answer : ℕ → Option String
  pub update_fails : ℕ → Bool

-- amqp.Publishing, as far as the row decides it.
pub record Message : Type 0 where
  pub routing_key : String
  pub message_id : Uuid
  pub timestamp : Timestamp
  pub body : TransactionCreatedEvent
  pub event_type : String
  pub retry_count : ℕ

-- The table, and the messages whose publish has returned no error, newest first.
pub record OutboxState : Type 0 where
  pub rows : List LedgerOutbox
  pub sent : List Message

abbrev pub message_of : LedgerOutbox → Message
message_of e = record {
  routing_key = e.routing_key;
  message_id = e.id;
  timestamp = e.created_at;
  body = e.payload;
  event_type = e.event_type;
  retry_count = e.retry_count;
}

-- An update that fails is logged and leaves the table alone.
abbrev pub try_update : Bool → List LedgerOutbox → List LedgerOutbox → List LedgerOutbox
try_update fails old new = if fails then old else new

unfoldable pub handle_publish_success :
    Round → ℕ → LedgerOutbox → List LedgerOutbox → List LedgerOutbox
handle_publish_success w i e rows =
    try_update (w.update_fails i) rows (mark_outbox_event_published e.id w.now rows)

-- The retry count is the one of the fetched row. The backoff is computed for the log only.
unfoldable pub handle_publish_failure :
    OutboxWorker → Round → ℕ → LedgerOutbox → String → List LedgerOutbox → List LedgerOutbox
handle_publish_failure cfg w i e message rows =
    if leb cfg.max_retries (e.retry_count + 1)
    then try_update (w.update_fails i) rows (mark_outbox_event_failed e.id message w.now rows)
    else try_update (w.update_fails i) rows (increment_outbox_retry e.id message rows)

-- The milliseconds that the log suggests: 2 ^ (retries + 1) * 100.
abbrev pub next_backoff : LedgerOutbox → ℕ
next_backoff e = 2 ^ (e.retry_count + 1) * 100

unfoldable pub publish_event : OutboxWorker → Round → ℕ → LedgerOutbox → OutboxState → OutboxState
publish_event cfg w i e s = elim (w.answer i) [
  | none ↦ record { rows = handle_publish_success w i e s.rows; sent = message_of e ∷ s.sent }
  | some message ↦ record { rows = handle_publish_failure cfg w i e message s.rows; sent = s.sent }
]

unfoldable pub publish_all :
    OutboxWorker → Round → ℕ → List LedgerOutbox → OutboxState → OutboxState
publish_all cfg w i [] s = s
publish_all cfg w i (e ∷ es) s = publish_all cfg w (i + 1) es (publish_event cfg w i e s)

unfoldable pub process_batch : OutboxWorker → Round → OutboxState → OutboxState
process_batch cfg w s =
    if w.fetch_fails
    then s
    else publish_all cfg w 0 (get_pending_outbox_events cfg.batch_size s.rows) s

-- The polling loop, over the rounds that the ticker gives before the worker is stopped.
unfoldable pub run : OutboxWorker → List Round → OutboxState → OutboxState
run cfg [] s = s
run cfg (w ∷ ws) s = run cfg ws (process_batch cfg w s)
