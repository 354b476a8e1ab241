-- ===== src/Service/Ledger/Concurrent/Seen.antt =====
-- What a call of CreateTransaction has seen of the cache, by its stage.
use ledger_pro.Prelude.{ℕ, String, ◌≡◌, refl, true, false, Option, none, some, arith}
use ledger_pro.Db.Models.{Uuid, Transaction}
use ledger_pro.Db.Tables.{Database, Result, ok, err}
use ledger_pro.Service.Errors.{ServiceError}
use ledger_pro.Service.Cache.{TransactionResponse, is_live, expiry}
use ledger_pro.Service.Ledger.{
  CreateTransactionRequest, LedgerService, Conditions, replay_of, remember,
}
use ledger_pro.Service.Ledger.Safety.{Call}
use ledger_pro.Service.Ledger.Concurrent.{
  CallAnswer, CallStage, starting, locked, missed, committed_row, answering, leaving, finished,
  after_read, after_run,
}

-- The calls of one tenant, by their numbers.
abbrev pub calls_of : Uuid → (ℕ → Conditions × CreateTransactionRequest) → ℕ → Call
calls_of tenant asks k = ((asks k).0, tenant, (asks k).1)

-- They have one key, Redis works, and what one of them stores is there when another reads.
pub record IsOneKey (asks : ℕ → Conditions × CreateTransactionRequest) (key : String) (ttl : ℕ)
    : Type 0 where
  pub keys : (k : ℕ) → (asks k).1.idempotency_key ≡ key
  pub gets : (k : ℕ) → (asks k).0.cache_get_fails ≡ false
  pub sets : (k : ℕ) → (asks k).0.cache_set_fails ≡ false
  pub marshals : (k : ℕ) → (asks k).0.marshal_fails ≡ false
  pub live : (k n : ℕ) → is_live (asks n).0.now (expiry (asks k).0.now ttl) ≡ true

-- What a call reads in the cache.
abbrev pub sees : Call → LedgerService → Option TransactionResponse
sees (c, tenant, req) s = replay_of c tenant req s

-- The call of a stage is the one that came in.
abbrev pub IsLinked : Call → CallStage → Type 0
IsLinked own (starting call) = call ≡ own
IsLinked own (locked call) = call ≡ own
IsLinked own (missed call) = call ≡ own
IsLinked own (committed_row call tx) = call ≡ own
IsLinked own (answering call r) = call ≡ own
IsLinked own (leaving call r) = call ≡ own
IsLinked own (finished r) = Unit

-- What a stage says of the cache: nothing is there before SET, and an answer has been read or
-- stored.
abbrev pub Gave : Option TransactionResponse → CallAnswer → Type 0
Gave seen (err e) = Unit
Gave seen (ok r) = seen ≡ some r

abbrev pub Knows : Option TransactionResponse → CallStage → Type 0
Knows seen (starting call) = Unit
Knows seen (locked call) = Unit
Knows seen (missed call) = seen ≡ none
Knows seen (committed_row call tx) = seen ≡ none
Knows seen (answering call r) = seen ≡ none
Knows seen (leaving call r) = Gave seen r
Knows seen (finished r) = Gave seen r

pub after_read-Knows :
    (call : Call) (seen : Option TransactionResponse) → Knows seen (after_read call seen)
after_read-Knows call none = refl
after_read-Knows call (some r) = refl

pub after_read-IsLinked :
    (own call : Call) (r : Option TransactionResponse)
    → call ≡ own
    → IsLinked own (after_read call r)
after_read-IsLinked own call none e = e
after_read-IsLinked own call (some r) e = e

pub after_run-Knows :
    (call : Call) (r : Result ServiceError (Transaction × Database))
    (seen : Option TransactionResponse)
    → seen ≡ none
    → Knows seen (after_run call r)
after_run-Knows call (err e) seen h = tt
after_run-Knows call (ok (tx, db)) seen h = h

pub after_run-IsLinked :
    (own call : Call) (r : Result ServiceError (Transaction × Database))
    → call ≡ own
    → IsLinked own (after_run call r)
after_run-IsLinked own call (err e) h = h
after_run-IsLinked own call (ok (tx, db)) h = h

pub sees-db :
    (call : Call) (s : LedgerService) (db : Database)
    → sees call (record s { db = db }) ≡ sees call s
unfolding replay_of
sees-db (c, t, req) s db = refl

pub remember-ttl :
    (c : Conditions) (t : Uuid) (req : CreateTransactionRequest) (r : TransactionResponse)
    (s : LedgerService)
    → (remember c t req r s).idempotency_ttl ≡ s.idempotency_ttl
unfolding remember
remember-ttl c t req r s = ground arith
