-- ===== src/Service/Ledger/Invariant.antt =====
-- What holds of the ledger's tables between two calls, and that CreateTransaction keeps it.
use ledger_pro.Prelude.{
  ℕ, suc, ◌+◌, ◌≤◌, ◌≡◌, refl, Bool, true, false, List, [], ◌∷◌, ◌++◌, arith, eq_iff, ◌==◌,
  if◌then◌else◌, ==-refl, All, total, length, where_rows, exists_row, where_rows-append, All-append,
  All-map, total-append, exists_row-append,
}
use ledger_pro.Db.Models.{Uuid, Transaction, Posting, PostingEntry}
use ledger_pro.Db.Tables.{Database}
use ledger_pro.Db.Transactions.{same_key}
use ledger_pro.Db.Postings.{debit_amount, credit_amount, of_transaction}
use ledger_pro.Service.Ledger.Commit.{transaction_row, committed_db, IsCommitted}
use ledger_pro.Service.Ledger.Posted.{posting_rows}
use ledger_pro.Service.Ledger.{CreateTransactionRequest, Conditions}

-- No two rows share a tenant and an idempotency key.
abbrev pub UniqueKeys : List Transaction → Type 0
UniqueKeys [] = Unit
UniqueKeys (r ∷ rs) =
    (exists_row (same_key r.tenant_id r.idempotency_key) rs ≡ false) × UniqueKeys rs

-- The ids grow from `lo` on, and stay below `hi`.
abbrev pub Numbered : ℕ → ℕ → List Posting → Type 0
Numbered lo hi [] = lo ≤ hi
Numbered lo hi (p ∷ ps) = (lo ≤ p.id) × Numbered (p.id + 1) hi ps

abbrev pub Linked : Database → Posting → Type 0
Linked db p = exists_row (λ r. r.id == p.transaction_id) db.transactions ≡ true

-- The trial balance of the rows that a test selects.
abbrev pub Balanced : (Posting → Bool) → List Posting → Type 0
Balanced test rows =
    total debit_amount (where_rows test rows) ≡ total credit_amount (where_rows test rows)

abbrev pub of_tenant : Uuid → Posting → Bool
of_tenant t p = p.tenant_id == t

pub record IsValid (db : Database) : Type 0 where
  pub linked : All (Linked db) db.postings
  pub transactions_balance : (t : ℕ) → Balanced (of_transaction t) db.postings
  pub tenants_balance : (t : ℕ) → Balanced (of_tenant t) db.postings
  pub unique_keys : UniqueKeys db.transactions
  pub numbered : Numbered 0 db.postings_id_seq db.postings

-- A row that a posting refers to does not have an id that no row has.
linked-fresh :
    (t u : ℕ) (rows : List Transaction)
    → exists_row (λ r. r.id == t) rows ≡ false
    → exists_row (λ r. r.id == u) rows ≡ true
    → (u == t) ≡ false
linked-fresh t u [] fresh h = cc
linked-fresh t u (r ∷ rs) fresh h = ground (arith, linked-fresh t u rs)

-- No posting refers to an id that no transaction has.
pub where_rows-fresh :
    (t : ℕ) (db : Database) (rows : List Posting)
    → exists_row (λ r. r.id == t) db.transactions ≡ false
    → All (Linked db) rows
    → where_rows (of_transaction t) rows ≡ []
where_rows-fresh t db [] fresh h = refl
where_rows-fresh t db (p ∷ ps) fresh h =
    rw (linked-fresh t p.transaction_id db.transactions fresh h.0)
      (where_rows-fresh t db ps fresh h.1)

UniqueKeys-append :
    (rs : List Transaction) (r : Transaction)
    → UniqueKeys rs
    → exists_row (same_key r.tenant_id r.idempotency_key) rs ≡ false
    → UniqueKeys (rs ++ r ∷ [])
UniqueKeys-append [] r u h = ground arith
UniqueKeys-append (x ∷ xs) r u h = (
  ground (
    arith,
    exists_row-append (same_key x.tenant_id x.idempotency_key) xs (r ∷ []),
    eq_iff x.idempotency_key r.idempotency_key,
    eq_iff r.idempotency_key x.idempotency_key,
  ),
  UniqueKeys-append xs r u.1 (ground arith),
)

-- A balanced batch keeps every trial balance.
Balanced-append :
    (test : Posting → Bool) (rows batch : List Posting)
    → Balanced test rows
    → Balanced test batch
    → Balanced test (rows ++ batch)
Balanced-append test rows batch h k = rw (where_rows-append test rows batch) (
    omega (
      arith,
      total-append {0} debit_amount (where_rows test rows) (where_rows test batch),
      total-append {0} credit_amount (where_rows test rows) (where_rows test batch),
    ))

add_suc_left : (a b : ℕ) → a + suc b ≡ a + 1 + b
add_suc_left a b = omega arith

module _ (tenant tx_id now : ℕ) where
  pub where_rows-posting_rows :
      (t seq : ℕ) (legs : List PostingEntry)
      → where_rows (of_transaction t) (posting_rows tenant tx_id now seq legs)
        ≡ (if tx_id == t then posting_rows tenant tx_id now seq legs else [])
  where_rows-posting_rows t seq [] = ground arith
  where_rows-posting_rows t seq (p ∷ ps) = ground (arith, where_rows-posting_rows t (seq + 1) ps)

  where_rows-posting_rows_tenant :
      (t seq : ℕ) (legs : List PostingEntry)
      → where_rows (of_tenant t) (posting_rows tenant tx_id now seq legs)
        ≡ (if tenant == t then posting_rows tenant tx_id now seq legs else [])
  where_rows-posting_rows_tenant t seq [] = ground arith
  where_rows-posting_rows_tenant t seq (p ∷ ps) =
      ground (arith, where_rows-posting_rows_tenant t (seq + 1) ps)

  posting_rows-Linked :
      (db : Database) (seq : ℕ) (legs : List PostingEntry)
      → exists_row (λ r. r.id == tx_id) db.transactions ≡ true
      → All (Linked db) (posting_rows tenant tx_id now seq legs)
  posting_rows-Linked db seq [] h = tt
  posting_rows-Linked db seq (p ∷ ps) h = (h, posting_rows-Linked db (seq + 1) ps h)

  posting_rows-Numbered :
      (lo hi : ℕ) (legs : List PostingEntry)
      → lo ≤ hi
      → Numbered lo (hi + length legs) (posting_rows tenant tx_id now hi legs)
  posting_rows-Numbered lo hi [] h = omega arith
  posting_rows-Numbered lo hi (p ∷ ps) h = (
    h,
    rw (add_suc_left hi (length ps)) (posting_rows-Numbered (hi + 1) (hi + 1) ps (omega arith)),
  )

  Numbered-append :
      (lo hi : ℕ) (rows : List Posting) (legs : List PostingEntry)
      → Numbered lo hi rows
      → Numbered lo (hi + length legs) (rows ++ posting_rows tenant tx_id now hi legs)
  Numbered-append lo hi [] legs h = posting_rows-Numbered lo hi legs h
  Numbered-append lo hi (p ∷ ps) legs h = (h.0, Numbered-append (p.id + 1) hi ps legs h.1)

module _ (c : Conditions) (tenant : Uuid) (req : CreateTransactionRequest) (db : Database)
    (valid : IsValid db) (done : IsCommitted c tenant req db) where
  abbrev batch : List Posting
  batch = posting_rows tenant c.transaction_id c.now db.postings_id_seq req.postings

  -- The id is fresh, so what the trigger has summed is the new batch alone.
  pub own_rows : where_rows (of_transaction c.transaction_id) (db.postings ++ batch) ≡ batch
  own_rows = rw (where_rows-append (of_transaction c.transaction_id) db.postings batch) (
      rw (where_rows-fresh c.transaction_id db db.postings done.fresh_id valid.linked) (
        rw
          (where_rows-posting_rows tenant c.transaction_id c.now c.transaction_id db.postings_id_seq
            req.postings)
          (rw (==-refl c.transaction_id))))

  pub batch-balanced : total debit_amount batch ≡ total credit_amount batch
  batch-balanced = rw own_rows at done.balanced

  batch-Balanced : (t : ℕ) → Balanced (of_transaction t) batch
  batch-Balanced t =
      rw (where_rows-posting_rows tenant c.transaction_id c.now t db.postings_id_seq req.postings)
        (ground (arith, batch-balanced))

  batch-Balanced_tenant : (t : ℕ) → Balanced (of_tenant t) batch
  batch-Balanced_tenant t =
      rw
        (where_rows-posting_rows_tenant tenant c.transaction_id c.now t db.postings_id_seq
          req.postings)
        (ground (arith, batch-balanced))

  still-Linked : (p : Posting) → Linked db p → Linked (committed_db c tenant req db) p
  still-Linked p h =
      rw
        (exists_row-append (λ r. r.id == p.transaction_id) db.transactions
          (transaction_row c tenant req ∷ []))
        (rw h)

  now_linked :
      exists_row (λ r. r.id == c.transaction_id) (committed_db c tenant req db).transactions ≡ true
  now_linked = ground (
    arith,
    exists_row-append (λ r. r.id == c.transaction_id) db.transactions
        (transaction_row c tenant req ∷ []),
  )

  pub committed-IsValid : IsValid (committed_db c tenant req db)
  committed-IsValid = record {
    linked =
        All-append (Linked (committed_db c tenant req db)) db.postings batch
          (posting_rows-Linked tenant c.transaction_id c.now (committed_db c tenant req db)
            db.postings_id_seq req.postings now_linked)
          (All-map still-Linked db.postings valid.linked);
    transactions_balance = λ t.
        Balanced-append (of_transaction t) db.postings batch (valid.transactions_balance t)
          (batch-Balanced t);
    tenants_balance = λ t.
        Balanced-append (of_tenant t) db.postings batch (valid.tenants_balance t)
          (batch-Balanced_tenant t);
    unique_keys =
        UniqueKeys-append db.transactions (transaction_row c tenant req) valid.unique_keys
          done.fresh_key;
    numbered =
        Numbered-append tenant c.transaction_id c.now 0 db.postings_id_seq db.postings req.postings
          valid.numbered;
  }
