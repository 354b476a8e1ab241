-- ===== src/Service/Ledger/Refinement.antt =====
-- An abstract ledger: the journal, a list of entries, to which a call appends one balanced entry
-- under a new key, or nothing. The tables of the database implement it.
use ledger_pro.Prelude.{
  ℕ, ◌+◌, String, ◌≡◌, refl, sym, ap, subst, ◌∙◌, inl, inr, Bool, false, ◌&&◌, List, [], ◌∷◌, ◌++◌,
  map, append-nil, arith, str_eq, ◌==◌, ==-refl, Bool-cases, total, where_rows, exists_row,
  where_rows-append,
}
use ledger_pro.Service.Ledger.{
  CreateTransactionRequest, LedgerService, Conditions, create_transaction,
}
use ledger_pro.Db.Transactions.{same_key}
use ledger_pro.Service.Ledger.Safety.{leg_debit, leg_credit, total-posting_rows, Outcome-db}
use ledger_pro.Db.Models.{Uuid, Transaction, Posting, PostingEntry}
use ledger_pro.Db.Tables.{Database}
use ledger_pro.Db.Postings.{of_transaction}
use ledger_pro.Service.Ledger.Commit.{transaction_row, committed_db, IsCommitted}
use ledger_pro.Service.Ledger.Posted.{posting_rows}
use ledger_pro.Service.Ledger.Invariant.{IsValid, where_rows-fresh, batch-balanced}
use ledger_pro.Service.Ledger.Outcome.{create_transaction-Outcome}

pub record Entry : Type 0 where
  pub tenant_id : Uuid
  pub idempotency_key : String
  pub description : String
  pub legs : List PostingEntry

abbrev pub leg_of : Posting → PostingEntry
leg_of p = record { account_id = p.account_id; amount = p.amount; direction = p.direction }

abbrev pub entry_of : List Posting → Transaction → Entry
entry_of rows tx = record {
  tenant_id = tx.tenant_id;
  idempotency_key = tx.idempotency_key;
  description = tx.description;
  legs = map leg_of (where_rows (of_transaction tx.id) rows);
}

-- The journal that the tables stand for.
abbrev pub journal : Database → List Entry
journal db = map (entry_of db.postings) db.transactions

abbrev pub entry_for : Uuid → CreateTransactionRequest → Entry
entry_for tenant req = record {
  tenant_id = tenant;
  idempotency_key = req.idempotency_key;
  description = req.description;
  legs = req.postings;
}

abbrev pub has_key : Uuid → String → Entry → Bool
has_key tenant key e = (e.tenant_id == tenant) && str_eq e.idempotency_key key

-- What the abstract ledger may do on a request.
pub data JournalStep (tenant : Uuid) (req : CreateTransactionRequest) (j : List Entry)
    : List Entry → Type 0 where
  unchanged : JournalStep tenant req j j
  appended :
      exists_row (has_key tenant req.idempotency_key) j ≡ false
      → total leg_debit req.postings ≡ total leg_credit req.postings
      → JournalStep tenant req j (j ++ entry_for tenant req ∷ [])

map_append {ℓ κ} :
    {A : Type ℓ} {B : Type κ} (f : A → B) (xs ys : List A) → map f (xs ++ ys) ≡ map f xs ++ map f ys
map_append f [] ys = refl
map_append f (x ∷ xs) ys = ap (λ r. f x ∷ r) (map_append f xs ys)

batch_of_other :
    (tenant tx_id now seq t : ℕ) (legs : List PostingEntry)
    → (tx_id == t) ≡ false
    → where_rows (of_transaction t) (posting_rows tenant tx_id now seq legs) ≡ []
batch_of_other tenant tx_id now seq t [] ne = refl
batch_of_other tenant tx_id now seq t (p ∷ ps) ne =
    rw ne (batch_of_other tenant tx_id now (seq + 1) t ps ne)

batch_of_own :
    (tenant tx_id now seq : ℕ) (legs : List PostingEntry)
    → map leg_of (where_rows (of_transaction tx_id) (posting_rows tenant tx_id now seq legs)) ≡ legs
batch_of_own tenant tx_id now seq [] = refl
batch_of_own tenant tx_id now seq (p ∷ ps) =
    rw (==-refl tx_id) (ap (λ r. p ∷ r) (batch_of_own tenant tx_id now (seq + 1) ps))

-- The entries of older transactions stay as they were.
old_entries :
    (tenant tx_id now seq : ℕ) (legs : List PostingEntry) (rows : List Posting)
    (txs : List Transaction)
    → exists_row (λ r. r.id == tx_id) txs ≡ false
    → map (entry_of (rows ++ posting_rows tenant tx_id now seq legs)) txs ≡ map (entry_of rows) txs
old_entries tenant tx_id now seq legs rows [] h = refl
old_entries tenant tx_id now seq legs rows (t ∷ ts) h = elim (Bool-cases (t.id == tx_id)) [
  | inl e ↦ absurd (ground (arith, rw e at h))
  | inr e ↦
      let others = old_entries tenant tx_id now seq legs rows ts (rw e at h) in
      let none_new = batch_of_other tenant tx_id now seq t.id legs (ground (arith, e)) in
      rw (where_rows-append (of_transaction t.id) rows (posting_rows tenant tx_id now seq legs)) (
        rw none_new (
          rw (append-nil (where_rows (of_transaction t.id) rows))
            (ap (λ r. entry_of rows t ∷ r) others)))
]

key-journal :
    (tenant : Uuid) (key : String) (rows : List Posting) (txs : List Transaction)
    → exists_row (has_key tenant key) (map (entry_of rows) txs)
      ≡ exists_row (same_key tenant key) txs
key-journal tenant key rows [] = refl
key-journal tenant key rows (t ∷ ts) = ground (arith, key-journal tenant key rows ts)

module _ (c : Conditions) (tenant : Uuid) (req : CreateTransactionRequest) (db : Database)
    (valid : IsValid db) (done : IsCommitted c tenant req db) where
  new_entry :
      entry_of (committed_db c tenant req db).postings (transaction_row c tenant req)
      ≡ entry_for tenant req
  new_entry =
      let batch = posting_rows tenant c.transaction_id c.now db.postings_id_seq req.postings in
      let none_old = where_rows-fresh c.transaction_id db db.postings done.fresh_id valid.linked in
      rw (where_rows-append (of_transaction c.transaction_id) db.postings batch) (
        rw none_old
          (rw (batch_of_own tenant c.transaction_id c.now db.postings_id_seq req.postings) refl))

  journal-committed :
      journal (committed_db c tenant req db) ≡ journal db ++ entry_for tenant req ∷ []
  journal-committed =
      let rows = (committed_db c tenant req db).postings in
      map_append (entry_of rows) db.transactions (transaction_row c tenant req ∷ [])
      ∙ (ap (λ r. r ++ entry_of rows (transaction_row c tenant req) ∷ [])
            (old_entries tenant c.transaction_id c.now db.postings_id_seq req.postings db.postings
              db.transactions done.fresh_id)
          ∙ ap (λ e. journal db ++ e ∷ []) new_entry)

  legs_balance : total leg_debit req.postings ≡ total leg_credit req.postings
  legs_balance =
      let (d, k) =
        total-posting_rows tenant c.transaction_id c.now db.postings_id_seq req.postings in
      sym d ∙ batch-balanced c tenant req db valid done ∙ k

  committed-JournalStep :
      JournalStep tenant req (journal db) (journal (committed_db c tenant req db))
  committed-JournalStep = subst (JournalStep tenant req (journal db)) (sym journal-committed) (
      appended (key-journal tenant req.idempotency_key db.postings db.transactions ∙ done.fresh_key)
        legs_balance)

-- On well-formed tables every call of CreateTransaction, however it ends, is a step of the abstract
-- ledger: the journal of entries that the tables stand for is unchanged, or has the request as one
-- entry more at its end, which balances exactly and whose key no entry of the tenant had.
pub create_transaction-JournalStep :
    (c : Conditions) (tenant : Uuid) (req : CreateTransactionRequest) (s : LedgerService)
    → IsValid s.db
    → JournalStep tenant req (journal s.db) (journal (create_transaction c tenant req s).1.db)
create_transaction-JournalStep c tenant req s valid =
    Outcome-db (λ d. JournalStep tenant req (journal s.db) (journal d)) c tenant req s
      (create_transaction-Outcome c tenant req s) unchanged
      (committed-JournalStep c tenant req s.db valid)
