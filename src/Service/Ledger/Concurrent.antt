-- ===== src/Service/Ledger/Concurrent.antt =====
-- internal/service/ledger.go: calls of CreateTransaction at the same time, one call of Redis or
-- PostgreSQL after the other. The database transaction is serializable: it ends as one that runs
-- alone, which is one step, or a conflict makes its COMMIT fail. Sequences are outside of it, so its
-- posting ids start at any number that is not drawn yet; that the ids of two transactions may also
-- alternate is left aside.
pub mod Exclusive
pub mod Seen
pub mod OneAnswer
use ledger_pro.Prelude.{
  ℕ, ◌≤◌, String, ◌≡◌, inl, inr, Bool, true, false, ◌&&◌, ◌||◌, Option, none, some, arith, str_eq,
  ◌==◌, if◌then◌else◌, Bool-cases,
}
use ledger_pro.Db.Models.{Uuid, Transaction}
use ledger_pro.Db.Tables.{Database, Result, ok, err}
use ledger_pro.Service.Errors.{ServiceError, lock_acquisition_failed}
use ledger_pro.Service.Cache.{TransactionResponse}
use ledger_pro.Service.Ledger.{
  CreateTransactionRequest, LedgerService, Conditions, validate_request, run_transaction, replay_of,
  response_of, remember,
}
use ledger_pro.Service.Ledger.Safety.{Call}

abbrev pub CallAnswer : Type 0
CallAnswer = Result ServiceError TransactionResponse

-- Where a call stands: before Obtain; with the lock, before GET; with nothing to replay; after
-- COMMIT; with its response, before SET; before Release; and after it.
pub data CallStage : Type 0 where
  starting locked missed : Call → CallStage
  committed_row : Call → Transaction → CallStage
  answering : Call → TransactionResponse → CallStage
  leaving : Call → CallAnswer → CallStage
  finished : CallAnswer → CallStage

-- The service, the holder of the lock of each tenant and key, and the calls.
pub record Concurrent : Type 0 where
  pub service : LedgerService
  pub locks : Uuid → String → Option ℕ
  pub stages : ℕ → CallStage

-- Calls that have just come in, any number of them; no lock is held.
abbrev pub begin : LedgerService → (ℕ → Call) → Concurrent
begin s asked = record { service = s; locks = λ tenant key. none; stages = λ k. starting (asked k) }

abbrev pub set_stage : ℕ → CallStage → (ℕ → CallStage) → ℕ → CallStage
set_stage k p stages n = if n == k then p else stages n

abbrev pub set_lock :
    Uuid → String → Option ℕ → (Uuid → String → Option ℕ) → Uuid → String → Option ℕ
set_lock tenant key holder locks t k = if (t == tenant) && str_eq k key then holder else locks t k

abbrev pub held_by : ℕ → Option ℕ → Bool
held_by k none = false
held_by k (some n) = n == k

-- Release deletes the lock if it is still the call's own.
abbrev pub release_lock : ℕ → Uuid → String → (Uuid → String → Option ℕ) → Uuid → String → Option ℕ
release_lock k tenant key locks =
    if held_by k (locks tenant key) then set_lock tenant key none locks else locks

abbrev pub after_read : Call → Option TransactionResponse → CallStage
after_read call none = missed call
after_read call (some r) = leaving call (ok r)

abbrev pub after_run : Call → Result ServiceError (Transaction × Database) → CallStage
after_run call (err e) = leaving call (err e)
after_run call (ok (tx, db)) = committed_row call tx

abbrev pub db_after_run : Database → Result ServiceError (Transaction × Database) → Database
db_after_run db (err e) = db
db_after_run db (ok (tx, db')) = db'

abbrev pub has_left : CallStage → Bool
has_left (finished r) = true
has_left _ = false

-- The next id of the sequence.
abbrev pub drawing : ℕ → Database → Database
drawing id db = record db { postings_id_seq = id }

-- A lock runs out 30 seconds after Obtain, if Release has not deleted it; `lapse` says whether it
-- may do so under a call that still works.
pub data CallStep (lapse : Bool) (f : Concurrent) : Concurrent → Type 0 where
  refuses :
      (k : ℕ) (c : Conditions) (tenant : Uuid) (req : CreateTransactionRequest) (e : ServiceError)
      → f.stages k ≡ starting (c, tenant, req)
      → validate_request req ≡ err e
      → CallStep lapse f (record f { stages = set_stage k (finished (err e)) f.stages })
  obtains :
      (k : ℕ) (c : Conditions) (tenant : Uuid) (req : CreateTransactionRequest)
      → f.stages k ≡ starting (c, tenant, req)
      → validate_request req ≡ ok tt
      → f.locks tenant req.idempotency_key ≡ none
      → CallStep lapse f (record f {
        locks = set_lock tenant req.idempotency_key (some k) f.locks;
        stages = set_stage k (locked (c, tenant, req)) f.stages;
      })
  gives_up :
      (k : ℕ) (c : Conditions) (tenant : Uuid) (req : CreateTransactionRequest)
      → f.stages k ≡ starting (c, tenant, req)
      → validate_request req ≡ ok tt
      → CallStep lapse f
          (record f { stages = set_stage k (finished (err lock_acquisition_failed)) f.stages })
  reads :
      (k : ℕ) (c : Conditions) (tenant : Uuid) (req : CreateTransactionRequest)
      → f.stages k ≡ locked (c, tenant, req)
      → CallStep lapse f (record f {
        stages =
            set_stage k (after_read (c, tenant, req) (replay_of c tenant req f.service)) f.stages;
      })
  runs :
      (k : ℕ) (c : Conditions) (tenant : Uuid) (req : CreateTransactionRequest) (id : ℕ)
      → f.stages k ≡ missed (c, tenant, req)
      → f.service.db.postings_id_seq ≤ id
      → CallStep lapse f (record f {
        service = record f.service {
          db = db_after_run f.service.db (run_transaction c tenant req (drawing id f.service.db));
        };
        stages =
            set_stage k
              (after_run (c, tenant, req) (run_transaction c tenant req (drawing id f.service.db)))
              f.stages;
      })
  fetches :
      (k : ℕ) (c : Conditions) (tenant : Uuid) (req : CreateTransactionRequest) (tx : Transaction)
      → f.stages k ≡ committed_row (c, tenant, req) tx
      → CallStep lapse f (record f {
        stages =
            set_stage k
              (answering (c, tenant, req) (response_of c tenant tx f.service.db))
              f.stages;
      })
  remembers :
      (k : ℕ) (c : Conditions) (tenant : Uuid) (req : CreateTransactionRequest)
      (r : TransactionResponse)
      → f.stages k ≡ answering (c, tenant, req) r
      → CallStep lapse f (record f {
        service = remember c tenant req r f.service;
        stages = set_stage k (leaving (c, tenant, req) (ok r)) f.stages;
      })
  releases :
      (k : ℕ) (c : Conditions) (tenant : Uuid) (req : CreateTransactionRequest) (r : CallAnswer)
      → f.stages k ≡ leaving (c, tenant, req) r
      → CallStep lapse f (record f {
        locks = release_lock k tenant req.idempotency_key f.locks;
        stages = set_stage k (finished r) f.stages;
      })
  fails_to_release :
      (k : ℕ) (c : Conditions) (tenant : Uuid) (req : CreateTransactionRequest) (r : CallAnswer)
      → f.stages k ≡ leaving (c, tenant, req) r
      → CallStep lapse f (record f { stages = set_stage k (finished r) f.stages })
  lapses :
      (k : ℕ) (tenant : Uuid) (key : String)
      → f.locks tenant key ≡ some k
      → (lapse || has_left (f.stages k)) ≡ true
      → CallStep lapse f (record f { locks = set_lock tenant key none f.locks })

pub data Reachable (lapse : Bool) (start : Concurrent) : Concurrent → Type 0 where
  at_start : Reachable lapse start start
  one_later :
      {f g : Concurrent} → Reachable lapse start f → CallStep lapse f g → Reachable lapse start g

pub same_number : (a b : ℕ) → (a == b) ≡ true → a ≡ b
same_number a b h = ground arith

-- What holds of the stage that is set and of all others holds of all.
pub set_stage-each :
    (P : ℕ → CallStage → Type 0) (k : ℕ) (p : CallStage) (stages : ℕ → CallStage)
    → P k p
    → ((n : ℕ) → P n (stages n))
    → (n : ℕ) → P n (set_stage k p stages n)
set_stage-each P k p stages hp h n = elim (Bool-cases (n == k)) [
  | inl e ↦ rw (e, same_number n k e) hp
  | inr e ↦ rw e (h n)
]
