-- ===== src/Service/Ledger/Isolation.antt =====
-- Tenants do not see one another: what a call for one tenant leaves unchanged for the others.
use ledger_pro.Db.Postings as Balances
use ledger_pro.Db.Transactions as Listing
use ledger_pro.Prelude.{
  ℕ, ◌+◌, String, ◌≡◌, refl, ap, ◌∙◌, ◌≢◌, Bool, false, List, [], ◌∷◌, ◌++◌, append-nil, arith,
  ◌==◌, where_rows, first_row, where_rows-append,
}
use ledger_pro.Db.Models.{Uuid, PostingEntry}
use ledger_pro.Db.Tables.{Database}
use ledger_pro.Db.Transactions.{
  same_key, is_transaction, get_transaction_by_id, get_transaction_by_idempotency_key,
  before_cursor,
}
use ledger_pro.Db.Postings.{of_account, of_transaction_in, get_postings_by_transaction_id}
use ledger_pro.Service.Ledger.{
  CreateTransactionRequest, LedgerService, Conditions, create_transaction,
}
use ledger_pro.Service.Ledger.Commit.{transaction_row, committed_db}
use ledger_pro.Service.Ledger.Posted.{posting_rows}
use ledger_pro.Service.Ledger.Outcome.{create_transaction-Outcome}
use ledger_pro.Service.Ledger.Safety.{Outcome-db}

pub first_row-append {ℓ} :
    {A : Type ℓ} (p : A → Bool) (xs : List A) (y : A)
    → p y ≡ false
    → first_row p (xs ++ y ∷ []) ≡ first_row p xs
first_row-append p [] y h = rw h
first_row-append p (x ∷ xs) y h = ground (arith, first_row-append p xs y h)

pub where_rows-append_none {ℓ} :
    {A : Type ℓ} (p : A → Bool) (xs ys : List A)
    → where_rows p ys ≡ []
    → where_rows p (xs ++ ys) ≡ where_rows p xs
where_rows-append_none p xs ys h =
    where_rows-append p xs ys ∙ ap (λ r. where_rows p xs ++ r) h ∙ append-nil (where_rows p xs)

-- What the queries of one tenant show, before and after.
pub record SameView (u : Uuid) (db db' : Database) : Type 0 where
  pub balances :
      (a : ℕ) → Balances.get_account_balance a u db' ≡ Balances.get_account_balance a u db
  pub transactions : (i : ℕ) → get_transaction_by_id i u db' ≡ get_transaction_by_id i u db
  pub by_key :
      (k : String)
      → get_transaction_by_idempotency_key k u db' ≡ get_transaction_by_idempotency_key k u db
  pub listing :
      (cursor n : ℕ)
      → Listing.list_transactions u cursor n db' ≡ Listing.list_transactions u cursor n db
  pub legs :
      (i : ℕ) → get_postings_by_transaction_id i u db' ≡ get_postings_by_transaction_id i u db

module _ (tenant u tx_id now : ℕ) (other : (tenant == u) ≡ false) where
  pub foreign_rows :
      (a seq : ℕ) (ps : List PostingEntry)
      → (where_rows (of_account a u) (posting_rows tenant tx_id now seq ps) ≡ [])
        × (where_rows (of_transaction_in a u) (posting_rows tenant tx_id now seq ps) ≡ [])
  foreign_rows a seq [] = (refl, refl)
  foreign_rows a seq (p ∷ ps) = ground (arith, foreign_rows a (seq + 1) ps, other)

module _ (c : Conditions) (tenant u : Uuid) (req : CreateTransactionRequest) (db : Database)
    (other : (tenant == u) ≡ false) where
  pub committed-SameView : SameView u db (committed_db c tenant req db)
  unfolding Balances.get_account_balance get_transaction_by_id get_transaction_by_idempotency_key
      Listing.list_transactions get_postings_by_transaction_id
  committed-SameView = record {
    balances = λ a. rw (
        where_rows-append_none (of_account a u) db.postings
          (posting_rows tenant c.transaction_id c.now db.postings_id_seq req.postings)
          (foreign_rows tenant u c.transaction_id c.now other a db.postings_id_seq req.postings).0);
    transactions = λ i. rw (
        first_row-append (is_transaction i u) db.transactions (transaction_row c tenant req)
          (ground (arith, other)));
    by_key = λ k. rw (
        first_row-append (same_key u k) db.transactions (transaction_row c tenant req)
          (ground (arith, other)));
    listing = λ cursor n. rw (
        where_rows-append_none (before_cursor u cursor) db.transactions
          (transaction_row c tenant req ∷ []) (ground (arith, other)));
    legs = λ i. rw (
        where_rows-append_none (of_transaction_in i u) db.postings
          (posting_rows tenant c.transaction_id c.now db.postings_id_seq req.postings)
          (foreign_rows tenant u c.transaction_id c.now other i db.postings_id_seq req.postings).1);
  }

-- A call of CreateTransaction for one tenant changes nothing that another tenant's queries for
-- balances, transactions (by id, by key, listed) and a transaction's postings return.
pub create_transaction-SameView :
    (c : Conditions) (tenant u : Uuid) (req : CreateTransactionRequest) (s : LedgerService)
    → tenant ≢ u
    → SameView u s.db (create_transaction c tenant req s).1.db
create_transaction-SameView c tenant u req s ne =
    Outcome-db (SameView u s.db) c tenant req s (create_transaction-Outcome c tenant req s)
      (record {
        balances = λ a. refl;
        transactions = λ i. refl;
        by_key = λ k. refl;
        listing = λ n m. refl;
        legs = λ i. refl;
      })
      (λ done. committed-SameView c tenant u req s.db (ground arith))
