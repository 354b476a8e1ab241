-- ===== src/Api/Server/Tenants.antt =====
-- internal/db: what the queries of one tenant show when rows of another are added.
use ledger_pro.Db.Joins.{
  All-where_rows, HasAccount, HasTransaction, All-every, SameAccount, SameBoth, join_accounts-eq,
  join_rows-eq, join_account-grown, join_both-grown,
}
use ledger_pro.Db.Accounts as Accounts
use ledger_pro.Db.Accounts.{is_account, get_account_by_id, after_cursor}
use ledger_pro.Db.Documents.{get_documents_by_transaction}
use ledger_pro.Db.History.{join_rows, get_postings_by_account_id}
use ledger_pro.Db.Postings as Balances
use ledger_pro.Db.Postings.{of_account, of_transaction_in, get_postings_by_transaction_id}
use ledger_pro.Service.Ledger.{CreateTransactionRequest, Conditions}
use ledger_pro.Service.Ledger.Commit.{transaction_row, committed_db}
use ledger_pro.Service.Ledger.Isolation.{
  first_row-append, where_rows-append_none, SameView, foreign_rows, committed-SameView,
}
use ledger_pro.Service.Queries.Ids.{with_account}
use ledger_pro.Db.Transactions as Listing
use ledger_pro.Db.Transactions.{get_transaction_by_id, get_transaction_by_idempotency_key}
use ledger_pro.Prelude.{
  ℕ, ◌≡◌, refl, sym, ap, ◌∙◌, false, ◌&&◌, List, [], ◌∷◌, ◌++◌, append-nil, arith, ◌==◌, All,
  order_by, where_rows, All-map,
}
use ledger_pro.Prelude.Int.{ℤ, pos, negsuc}
use ledger_pro.Db.Models.{Uuid, Tenant, User, Account, Transaction, Document}
use ledger_pro.Db.Tables.{Database}

-- What every query of a tenant shows: those of the ledger, the accounts, an account's history and
-- a transaction's documents.
pub record SameTenantView (u : Uuid) (db db' : Database) : Type 0 where
  pub ledger : SameView u db db'
  pub account : (i : ℕ) → get_account_by_id i u db' ≡ get_account_by_id i u db
  pub accounts :
      (after n : ℕ) → Accounts.list_accounts u after n db' ≡ Accounts.list_accounts u after n db
  pub history :
      (a : ℕ) (offset : ℤ) (n : ℕ)
      → get_postings_by_account_id a u offset n db' ≡ get_postings_by_account_id a u offset n db
  pub documents :
      (i : ℕ) → get_documents_by_transaction i u db' ≡ get_documents_by_transaction i u db

pub SameTenantView-refl : (u : Uuid) (db : Database) → SameTenantView u db db
SameTenantView-refl u db = record {
  ledger = record {
    balances = λ a. refl;
    transactions = λ i. refl;
    by_key = λ k. refl;
    listing = λ n m. refl;
    legs = λ i. refl;
  };
  account = λ i. refl;
  accounts = λ c n. refl;
  history = λ a o n. refl;
  documents = λ i. refl;
}

pub SameTenantView-trans :
    (u : Uuid) (a b c : Database)
    → SameTenantView u a b
    → SameTenantView u b c
    → SameTenantView u a c
SameTenantView-trans u a b c h k = record {
  ledger = record {
    balances = λ i. k.ledger.balances i ∙ h.ledger.balances i;
    transactions = λ i. k.ledger.transactions i ∙ h.ledger.transactions i;
    by_key = λ i. k.ledger.by_key i ∙ h.ledger.by_key i;
    listing = λ i n. k.ledger.listing i n ∙ h.ledger.listing i n;
    legs = λ i. k.ledger.legs i ∙ h.ledger.legs i;
  };
  account = λ i. k.account i ∙ h.account i;
  accounts = λ i n. k.accounts i n ∙ h.accounts i n;
  history = λ i o n. k.history i o n ∙ h.history i o n;
  documents = λ i. k.documents i ∙ h.documents i;
}

history-eq :
    (u a : ℕ) (offset : ℤ) (n : ℕ) (db db' : Database)
    → join_rows db' (where_rows (of_account a u) db'.postings)
      ≡ join_rows db (where_rows (of_account a u) db.postings)
    → get_postings_by_account_id a u offset n db' ≡ get_postings_by_account_id a u offset n db
unfolding get_postings_by_account_id
history-eq u a (negsuc k) n db db' h = refl
history-eq u a (pos k) n db db' h = rw h refl

All-zip {ℓ κ μ ν} :
    {A : Type ℓ} {P : A → Type κ} {Q : A → Type μ} {R : A → Type ν}
    → ((x : A) → P x → Q x → R x)
    → (xs : List A) → All P xs
    → All Q xs
    → All R xs
All-zip f [] h k = tt
All-zip f (x ∷ xs) h k = (f x h.0 k.0, All-zip f xs h.1 k.1)

module _ (u : Uuid) (db : Database) where
  -- A change of the tenants, the users or the documents leaves the other queries alone.
  pub others-SameTenantView :
      (ts : List Tenant) (us : List User) (ds : List Document)
      → ((i : ℕ)
          → get_documents_by_transaction i u (record db { documents = ds })
            ≡ get_documents_by_transaction i u db)
      → SameTenantView u db (record db { tenants = ts; users = us; documents = ds })
  unfolding Balances.get_account_balance get_transaction_by_id get_transaction_by_idempotency_key
      Listing.list_transactions get_postings_by_transaction_id get_account_by_id
      Accounts.list_accounts get_documents_by_transaction
  others-SameTenantView ts us ds same =
      let db' : Database = record db { tenants = ts; users = us; documents = ds } in
      record {
        ledger = record {
          balances = λ a. refl;
          transactions = λ i. refl;
          by_key = λ k. refl;
          listing = λ n m. refl;
          legs = λ i. ap (order_by (λ r. r.id)) (
              join_accounts-eq db db' (where_rows (of_transaction_in i u) db.postings)
                (All-every (SameAccount db db') (λ p. refl) _));
        };
        account = λ i. refl;
        accounts = λ c n. refl;
        history = λ a o n. history-eq u a o n db db' (
            join_rows-eq db db' (where_rows (of_account a u) db.postings)
              (All-every (SameBoth db db') (λ p. refl) _));
        documents = same;
      }

  pub with_document-SameTenantView :
      (row : Document)
      → (row.tenant_id == u) ≡ false
      → SameTenantView u db (record db { documents = db.documents ++ row ∷ [] })
  unfolding get_documents_by_transaction
  with_document-SameTenantView row other =
      others-SameTenantView db.tenants db.users (db.documents ++ row ∷ []) (λ i. rw (
        where_rows-append_none (λ r. (r.transaction_id == i) && (r.tenant_id == u)) db.documents
          (row ∷ []) (ground (arith, other))))

  module _ (hasa : All (HasAccount db) db.postings)
      (hast : All (HasTransaction db) db.postings) where
    -- The rows of a query that every posting is joined for as before.
    history_grown :
        (db' : Database) (more : List Account) (ts : List Transaction) (a : ℕ)
        → db'.accounts ≡ db.accounts ++ more
        → db'.transactions ≡ db.transactions ++ ts
        → join_rows db' (where_rows (of_account a u) db.postings)
          ≡ join_rows db (where_rows (of_account a u) db.postings)
    history_grown db' more ts a e f =
        join_rows-eq db db' (where_rows (of_account a u) db.postings) (
          All-where_rows (of_account a u) (SameBoth db db') db.postings
            (All-zip (λ p h k. join_both-grown db db' p more ts e f h k) db.postings hasa hast))

    pub with_account-SameTenantView :
        (row : Account) → (row.tenant_id == u) ≡ false → SameTenantView u db (with_account db row)
    unfolding Balances.get_account_balance get_transaction_by_id get_transaction_by_idempotency_key
        Listing.list_transactions get_postings_by_transaction_id get_account_by_id
        Accounts.list_accounts get_documents_by_transaction
    with_account-SameTenantView row other =
        let db' = with_account db row in
        record {
          ledger = record {
            balances = λ a. refl;
            transactions = λ i. refl;
            by_key = λ k. refl;
            listing = λ n m. refl;
            legs = λ i. ap (order_by (λ r. r.id)) (
                join_accounts-eq db db' (where_rows (of_transaction_in i u) db.postings) (
                  All-where_rows (of_transaction_in i u) (SameAccount db db') db.postings
                    (All-map (λ p. join_account-grown db db' p (row ∷ []) refl) db.postings hasa)));
          };
          account =
              λ i. rw (first_row-append (is_account i u) db.accounts row (ground (arith, other)));
          accounts = λ c n. rw (
              where_rows-append_none (after_cursor u c) db.accounts (row ∷ [])
                (ground (arith, other)));
          history = λ a o n.
              history-eq u a o n db db'
                (history_grown db' (row ∷ []) [] a refl (sym (append-nil db.transactions)));
          documents = λ i. refl;
        }

    pub committed-SameTenantView :
        (c : Conditions) (tenant : Uuid) (req : CreateTransactionRequest)
        → (tenant == u) ≡ false
        → SameTenantView u db (committed_db c tenant req db)
    unfolding get_account_by_id Accounts.list_accounts get_documents_by_transaction
    committed-SameTenantView c tenant req other =
        let db' = committed_db c tenant req db in
        record {
          ledger = committed-SameView c tenant u req db other;
          account = λ i. refl;
          accounts = λ n m. refl;
          history = λ a o n. history-eq u a o n db db' (
              ap (join_rows db') (
                where_rows-append_none (of_account a u) db.postings _
                  (foreign_rows tenant u c.transaction_id c.now other a db.postings_id_seq
                    req.postings).0)
              ∙ history_grown db' [] (transaction_row c tenant req ∷ []) a
                  (sym (append-nil db.accounts)) refl);
          documents = λ i. refl;
        }
