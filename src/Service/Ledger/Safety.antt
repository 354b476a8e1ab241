-- ===== src/Service/Ledger/Safety.antt =====
-- The ledger stays a ledger: CreateTransaction keeps the invariant of the tables, and only a
-- request whose exact sums agree, under a new key, ever changes the database.
use ledger_pro.Prelude.{
  ℕ, ◌+◌, ◌≡◌, refl, sym, ap, subst, ◌∙◌, ◌≢◌, true, false≢true, List, [], ◌∷◌, arith, total,
  exists_row,
}
use ledger_pro.Db.Models.{Uuid, debit, credit, PostingEntry}
use ledger_pro.Db.Tables.{Database, Result}
use ledger_pro.Service.Errors.{ServiceError}
use ledger_pro.Db.Transactions.{same_key}
use ledger_pro.Db.Postings.{debit_amount, credit_amount}
use ledger_pro.Service.Cache.{TransactionResponse}
use ledger_pro.Service.Ledger.{
  CreateTransactionRequest, LedgerService, Conditions, remember, create_transaction,
}
use ledger_pro.Service.Ledger.Commit.{committed_db, IsCommitted}
use ledger_pro.Service.Ledger.Posted.{posting_rows}
use ledger_pro.Service.Ledger.Invariant.{IsValid, batch-balanced, committed-IsValid}
use ledger_pro.Service.Ledger.Outcome.{
  after_commit, Outcome, refused, replayed, committed, create_transaction-Outcome,
}

abbrev pub leg_debit : PostingEntry → ℕ
leg_debit p = elim (p.direction) [ debit ↦ p.amount | _ ↦ 0 ]

abbrev pub leg_credit : PostingEntry → ℕ
leg_credit p = elim (p.direction) [ credit ↦ p.amount | _ ↦ 0 ]

module _ (tenant tx_id now : ℕ) where
  pub total-posting_rows :
      (seq : ℕ) (legs : List PostingEntry)
      → (total debit_amount (posting_rows tenant tx_id now seq legs) ≡ total leg_debit legs)
        × (total credit_amount (posting_rows tenant tx_id now seq legs) ≡ total leg_credit legs)
  total-posting_rows seq [] = (refl, refl)
  total-posting_rows seq (p ∷ ps) =
      let (d, k) = total-posting_rows (seq + 1) ps in
      (ap (λ (n : ℕ). leg_debit p + n) d, ap (λ (n : ℕ). leg_credit p + n) k)

pub remember-db :
    (c : Conditions) (tenant : Uuid) (req : CreateTransactionRequest) (r : TransactionResponse)
    (s : LedgerService)
    → (remember c tenant req r s).db ≡ s.db
unfolding remember
remember-db c tenant req r s = ground arith

pub after_commit-db :
    (c : Conditions) (tenant : Uuid) (req : CreateTransactionRequest) (s : LedgerService)
    → (after_commit c tenant req s).db ≡ committed_db c tenant req s.db
after_commit-db c tenant req s = remember-db c tenant req _ _

-- Any property of the database that a commit keeps is kept by a call.
pub Outcome-db {ℓ} :
    (P : Database → Type ℓ) (c : Conditions) (tenant : Uuid) (req : CreateTransactionRequest)
    (s : LedgerService) {r : Result ServiceError TransactionResponse} {s' : LedgerService}
    → Outcome c tenant req s r s'
    → P s.db
    → (IsCommitted c tenant req s.db → P (committed_db c tenant req s.db))
    → P s'.db
Outcome-db P c tenant req s (refused e er es) same new = subst (λ x. P x.db) (sym es) same
Outcome-db P c tenant req s (replayed resp h er es) same new = subst (λ x. P x.db) (sym es) same
Outcome-db P c tenant req s (committed done v er es) same new =
    subst P (sym (ap (λ x. x.db) es ∙ after_commit-db c tenant req s)) (new done)

-- If the tables are well formed before a call of CreateTransaction, they are well formed after
-- it, however the call ends: every posting has its transaction, each transaction and each
-- tenant balances exactly, no key occurs twice in a tenant, and posting ids grow.
pub create_transaction-IsValid :
    (c : Conditions) (tenant : Uuid) (req : CreateTransactionRequest) (s : LedgerService)
    → IsValid s.db
    → IsValid (create_transaction c tenant req s).1.db
create_transaction-IsValid c tenant req s valid =
    Outcome-db IsValid c tenant req s (create_transaction-Outcome c tenant req s) valid
      (committed-IsValid c tenant req s.db valid)

-- On a well-formed database, a request whose exact debit and credit sums differ leaves the
-- database as it is, also where the int64 sums of the validation wrap around and agree.
pub create_transaction_unbalanced :
    (c : Conditions) (tenant : Uuid) (req : CreateTransactionRequest) (s : LedgerService)
    → IsValid s.db
    → total leg_debit req.postings ≢ total leg_credit req.postings
    → (create_transaction c tenant req s).1.db ≡ s.db
create_transaction_unbalanced c tenant req s valid ne =
    Outcome-db (λ d. d ≡ s.db) c tenant req s (create_transaction-Outcome c tenant req s) refl
      λ done. absurd (
        let (d, k) =
          total-posting_rows tenant c.transaction_id c.now s.db.postings_id_seq req.postings in
        ne (sym d ∙ batch-balanced c tenant req s.db valid done ∙ k))

-- While a transaction of the tenant has the request's key, no call of CreateTransaction with
-- that key changes the database, whether or not the cache still knows the key.
pub create_transaction-same_key :
    (c : Conditions) (tenant : Uuid) (req : CreateTransactionRequest) (s : LedgerService)
    → exists_row (same_key tenant req.idempotency_key) s.db.transactions ≡ true
    → (create_transaction c tenant req s).1.db ≡ s.db
create_transaction-same_key c tenant req s taken =
    Outcome-db (λ d. d ≡ s.db) c tenant req s (create_transaction-Outcome c tenant req s) refl
      λ done. absurd (false≢true (sym done.fresh_key ∙ taken))

-- A call, as the server makes it: the conditions, the caller's tenant and the request.
abbrev pub Call : Type 0
Call = Conditions × Uuid × CreateTransactionRequest
