-- ===== src/Db/Models.antt =====
-- internal/db/models.go: the rows. A UUID is the number that its 128 bits stand for, and a
-- timestamp counts microseconds; both are only compared.
use ledger_pro.Prelude.{ℕ, String, Option, List}

abbrev pub Uuid : Type 0
Uuid = ℕ

abbrev pub Timestamp : Type 0
Timestamp = ℕ

-- uuid.Nil, which is also the id of the default tenant.
abbrev pub nil_uuid : Uuid
nil_uuid = 0

-- The Go type is a string; a text that is none of the constants is kept as it came.
pub data AccountType : Type 0 where
  asset liability equity revenue expense : AccountType
  unknown_type : String → AccountType

pub data PostingDirection : Type 0 where
  debit credit : PostingDirection
  unknown_direction : String → PostingDirection

pub data OutboxStatus : Type 0 where
  pending published failed : OutboxStatus

pub record Tenant : Type 0 where
  pub id : Uuid
  pub name : String
  pub created_at : Timestamp

pub record User : Type 0 where
  pub id : Uuid
  pub email : String
  pub password_hash : String
  pub role : String
  pub created_at : Timestamp
  pub updated_at : Timestamp
  pub tenant_id : Uuid

pub record Account : Type 0 where
  pub id : ℕ
  pub account_name : String
  pub account_type : AccountType
  pub currency : String
  pub metadata : String
  pub created_at : Timestamp
  pub tenant_id : Uuid

pub record Transaction : Type 0 where
  pub id : Uuid
  pub idempotency_key : String
  pub description : String
  pub metadata : String
  pub created_at : Timestamp
  pub tenant_id : Uuid

pub record Posting : Type 0 where
  pub id : ℕ
  pub transaction_id : Uuid
  pub account_id : ℕ
  pub amount : ℕ
  pub direction : PostingDirection
  pub created_at : Timestamp
  pub tenant_id : Uuid

pub record Document : Type 0 where
  pub id : Uuid
  pub transaction_id : Uuid
  pub filename : String
  pub content_type : String
  pub size_bytes : ℕ
  pub object_key : String
  pub created_at : Timestamp
  pub tenant_id : Uuid

-- A leg of a transaction request (`service.PostingEntry`), which the event carries.
pub record PostingEntry : Type 0 where
  pub account_id : ℕ
  pub amount : ℕ
  pub direction : PostingDirection

-- The event that the outbox stores as JSON (`service.TransactionCreatedEvent`).
pub record TransactionCreatedEvent : Type 0 where
  pub event_id : Uuid
  pub event_type : String
  pub tenant_id : Uuid
  pub transaction_id : Uuid
  pub idempotency_key : String
  pub description : String
  pub postings : List PostingEntry
  pub metadata : String
  pub created_at : Timestamp

pub record LedgerOutbox : Type 0 where
  pub id : Uuid
  pub event_type : String
  pub routing_key : String
  pub payload : TransactionCreatedEvent
  pub status : OutboxStatus
  pub retry_count : ℕ
  pub max_retries : ℕ
  pub last_error : Option String
  pub created_at : Timestamp
  pub processed_at : Option Timestamp
  pub tenant_id : Uuid
