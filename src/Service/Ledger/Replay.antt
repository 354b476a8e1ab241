-- ===== src/Service/Ledger/Replay.antt =====
-- Idempotency: a key that has been answered is answered again from the cache.
use ledger_pro.Prelude.{◌≡◌, ap, ◌∙◌, true, false, none, some, arith}
use ledger_pro.Db.Models.{Uuid}
use ledger_pro.Db.Tables.{ok}
use ledger_pro.Service.Cache.{TransactionResponse, response, is_live, expiry, cache_get-set}
use ledger_pro.Service.Ledger.{
  CreateTransactionRequest, LedgerService, Conditions, validate_request, replay_of, remember,
  create_transaction,
}
use ledger_pro.Service.Ledger.Outcome.{
  Outcome, refused, replayed, committed, create_transaction-Outcome,
}

-- What a call remembers, a call with its key reads until it expires.
pub replay_of-remember :
    (c c' : Conditions) (tenant : Uuid) (req req' : CreateTransactionRequest)
    (r : TransactionResponse) (s : LedgerService)
    → c.marshal_fails ≡ false
    → c.cache_set_fails ≡ false
    → c'.cache_get_fails ≡ false
    → req'.idempotency_key ≡ req.idempotency_key
    → is_live c'.now (expiry c.now s.idempotency_ttl) ≡ true
    → replay_of c' tenant req' (remember c tenant req r s) ≡ some r
unfolding replay_of remember
replay_of-remember c c' tenant req req' r s m w g same live =
    rw (m, w, g, same)
      (rw (
        cache_get-set c.now c'.now s.idempotency_ttl tenant req.idempotency_key (response r) s.cache
          live))

create_transaction_replays :
    (c : Conditions) (tenant : Uuid) (req : CreateTransactionRequest) (s : LedgerService)
    (resp : TransactionResponse)
    → validate_request req ≡ ok tt
    → c.lock_fails ≡ false
    → replay_of c tenant req s ≡ some resp
    → create_transaction c tenant req s ≡ (ok resp, s)
unfolding create_transaction
create_transaction_replays c tenant req s resp v l e = ground arith

-- If a call of CreateTransaction found nothing to replay, succeeded, and stored its response in
-- Redis, then any later call of the tenant with that key that validates, gets the lock and
-- reaches Redis before the entry expires returns the same response and changes nothing, also
-- where its body differs.
pub create_transaction_idempotent :
    (c c' : Conditions) (tenant : Uuid) (req req' : CreateTransactionRequest) (s : LedgerService)
    {resp : TransactionResponse}
    → (create_transaction c tenant req s).0 ≡ ok resp
    → replay_of c tenant req s ≡ none
    → c.marshal_fails ≡ false
    → c.cache_set_fails ≡ false
    → validate_request req' ≡ ok tt
    → req'.idempotency_key ≡ req.idempotency_key
    → c'.lock_fails ≡ false
    → c'.cache_get_fails ≡ false
    → is_live c'.now (expiry c.now s.idempotency_ttl) ≡ true
    → let s' = (create_transaction c tenant req s).1 in
      create_transaction c' tenant req' s' ≡ (ok resp, s')
create_transaction_idempotent c c' tenant req req' s {resp} done miss m w v same l g live =
    from_outcome (create_transaction-Outcome c tenant req s)
  where
    from_outcome :
        let (r, s') = create_transaction c tenant req s in
        Outcome c tenant req s r s'
        → let s' = (create_transaction c tenant req s).1 in
          create_transaction c' tenant req' s' ≡ (ok resp, s')
    from_outcome (refused e er es) = cc
    from_outcome (replayed old h er es) = cc
    from_outcome (committed facts ok_request er es) =
        create_transaction_replays c' tenant req' _ resp v l (
          ap (replay_of c' tenant req') es
          ∙ replay_of-remember c c' tenant req req' _ _ m w g same live
          ∙ cc)
