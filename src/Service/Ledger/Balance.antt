-- ===== src/Service/Ledger/Balance.antt =====
-- What a committed transaction does to the balances of its tenant's accounts.
use ledger_pro.Db.Postings as Balances
use ledger_pro.Db.Postings.{debit_amount, credit_amount, of_account, GetAccountBalanceRow}
use ledger_pro.Service.Ledger.Outcome.{
  Outcome, refused, replayed, committed, create_transaction-Outcome,
}
use ledger_pro.Service.Ledger.{
  CreateTransactionRequest, LedgerService, Conditions, replay_of, create_transaction,
}
use ledger_pro.Prelude.{
  ℕ, ◌+◌, ◌≡◌, refl, ap, ◌∙◌, none, List, [], ◌∷◌, arith, ◌==◌, if◌then◌else◌, ==-refl, total,
  where_rows, where_rows-append, total-append,
}
use ledger_pro.Prelude.Int.{sub_ℕ}
use ledger_pro.Db.Models.{debit, credit, PostingEntry}
use ledger_pro.Db.Tables.{Database, ok}
use ledger_pro.Service.Ledger.Commit.{committed_db}
use ledger_pro.Service.Ledger.Posted.{posting_rows}
use ledger_pro.Service.Cache.{TransactionResponse}
use ledger_pro.Service.Ledger.Safety.{after_commit-db}

-- What the legs put on the debit side, and on the credit side, of an account.
abbrev pub debit_on : ℕ → PostingEntry → ℕ
debit_on a p = if p.account_id == a then elim (p.direction) [ debit ↦ p.amount | _ ↦ 0 ] else 0

abbrev pub credit_on : ℕ → PostingEntry → ℕ
credit_on a p = if p.account_id == a then elim (p.direction) [ credit ↦ p.amount | _ ↦ 0 ] else 0

rows-debit :
    (a tenant tx_id now seq : ℕ) (legs : List PostingEntry)
    → total debit_amount (where_rows (of_account a tenant) (posting_rows tenant tx_id now seq legs))
      ≡ total (debit_on a) legs
rows-debit a tenant tx_id now seq [] = refl
rows-debit a tenant tx_id now seq (p ∷ ps) =
    ground (arith, rows-debit a tenant tx_id now (seq + 1) ps, ==-refl tenant)

rows-credit :
    (a tenant tx_id now seq : ℕ) (legs : List PostingEntry)
    → total credit_amount
        (where_rows (of_account a tenant) (posting_rows tenant tx_id now seq legs))
      ≡ total (credit_on a) legs
rows-credit a tenant tx_id now seq [] = refl
rows-credit a tenant tx_id now seq (p ∷ ps) =
    ground (arith, rows-credit a tenant tx_id now (seq + 1) ps, ==-refl tenant)

-- The row that the balance query returns, where no cast is refused.
balance_row :
    (a tenant : ℕ) (db : Database) (row : GetAccountBalanceRow)
    → Balances.get_account_balance a tenant db ≡ ok row
    → (row.total_debits ≡ total debit_amount (where_rows (of_account a tenant) db.postings))
      × (row.total_credits ≡ total credit_amount (where_rows (of_account a tenant) db.postings))
      × (row.net_balance ≡ sub_ℕ row.total_debits row.total_credits)
unfolding Balances.get_account_balance
balance_row a tenant db row h = ground arith

-- What a commit adds to an account, read through the balance query before and after it.
committed-balance :
    (c : Conditions) (tenant a : ℕ) (req : CreateTransactionRequest) (db : Database)
    (before after : GetAccountBalanceRow)
    → Balances.get_account_balance a tenant db ≡ ok before
    → Balances.get_account_balance a tenant (committed_db c tenant req db) ≡ ok after
    → (after.total_debits ≡ before.total_debits + total (debit_on a) req.postings)
      × (after.total_credits ≡ before.total_credits + total (credit_on a) req.postings)
      × (after.net_balance ≡ sub_ℕ after.total_debits after.total_credits)
committed-balance c tenant a req db before after hb ha =
    let batch = posting_rows tenant c.transaction_id c.now db.postings_id_seq req.postings in
    let split = where_rows-append (of_account a tenant) db.postings batch in
    let (bd, bc, bn) = balance_row a tenant db before hb in
    let (ad, ac, an) = balance_row a tenant (committed_db c tenant req db) after ha in
    let old = where_rows (of_account a tenant) db.postings in
    let new = where_rows (of_account a tenant) batch in
    let debits = rows-debit a tenant c.transaction_id c.now db.postings_id_seq req.postings in
    let credits = rows-credit a tenant c.transaction_id c.now db.postings_id_seq req.postings in
    (
      omega (
        arith,
        ad ∙ (ap (total debit_amount) split ∙ total-append debit_amount old new),
        bd,
        debits,
      ),
      omega (
        arith,
        ac ∙ (ap (total credit_amount) split ∙ total-append credit_amount old new),
        bc,
        credits,
      ),
      an,
    )

-- A successful call of CreateTransaction that replays nothing adds to an account of its tenant
-- exactly the debits and the credits of the request's legs on that account, as the balance query
-- shows where it answers before and after; the net balance is debits less credits.
pub create_transaction_balance :
    (c : Conditions) (tenant a : ℕ) (req : CreateTransactionRequest) (s : LedgerService)
    (resp : TransactionResponse) (before after : GetAccountBalanceRow)
    → replay_of c tenant req s ≡ none
    → (create_transaction c tenant req s).0 ≡ ok resp
    → Balances.get_account_balance a tenant s.db ≡ ok before
    → Balances.get_account_balance a tenant (create_transaction c tenant req s).1.db ≡ ok after
    → (after.total_debits ≡ before.total_debits + total (debit_on a) req.postings)
      × (after.total_credits ≡ before.total_credits + total (credit_on a) req.postings)
      × (after.net_balance ≡ sub_ℕ after.total_debits after.total_credits)
create_transaction_balance c tenant a req s resp before after miss success hb ha =
    from_outcome (create_transaction-Outcome c tenant req s)
  where
    from_outcome :
        let (r, s') = create_transaction c tenant req s in
        Outcome c tenant req s r s'
        → (after.total_debits ≡ before.total_debits + total (debit_on a) req.postings)
          × (after.total_credits ≡ before.total_credits + total (credit_on a) req.postings)
          × (after.net_balance ≡ sub_ℕ after.total_debits after.total_credits)
    from_outcome (refused e er es) = absurd (cc)
    from_outcome (replayed old h er es) = absurd (cc)
    from_outcome (committed facts v er es) =
        committed-balance c tenant a req s.db before after hb
          (rw (ap (λ x. x.db) es ∙ after_commit-db c tenant req s) at ha)
