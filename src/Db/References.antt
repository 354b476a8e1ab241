-- ===== src/Db/References.antt =====
-- The foreign keys of db/migrations 000001, 000003 and 000005: what every row refers to is there.
use ledger_pro.Prelude.{
  ℕ, ◌≡◌, true, List, [], ◌∷◌, ◌++◌, ◌==◌, All, exists_row, All-append, All-map, exists_row-grows,
}
use ledger_pro.Db.Models.{Uuid, Tenant, User, Account, Document}
use ledger_pro.Db.Tables.{Database, has_tenant}

-- REFERENCES tenants(id)
abbrev pub Owned : Database → Uuid → Type 0
Owned db t = has_tenant t db ≡ true

pub record IsReferential (db : Database) : Type 0 where
  pub users : All (λ r. Owned db r.tenant_id) db.users
  pub accounts : All (λ r. Owned db r.tenant_id) db.accounts
  pub transactions : All (λ r. Owned db r.tenant_id) db.transactions
  pub postings : All (λ r. Owned db r.tenant_id) db.postings
  pub outbox : All (λ r. Owned db r.tenant_id) db.ledger_outbox
  pub documents : All (λ r. Owned db r.tenant_id) db.documents
  pub posting_accounts :
      All (λ p. exists_row (λ a. a.id == p.account_id) db.accounts ≡ true) db.postings
  pub document_transactions :
      All (λ d. exists_row (λ t. t.id == d.transaction_id) db.transactions ≡ true) db.documents

-- A row at the end.
All-snoc {ℓ κ} :
    {A : Type ℓ} (P : A → Type κ) (xs : List A) (x : A) → P x → All P xs → All P (xs ++ x ∷ [])
All-snoc P xs x h k = All-append P xs (x ∷ []) (h, tt) k

pub with_tenant-IsReferential :
    (db : Database) (row : Tenant)
    → IsReferential db
    → IsReferential (record db { tenants = db.tenants ++ row ∷ [] })
with_tenant-IsReferential db row h =
    let grows =
      λ (t : Uuid) (o : Owned db t). exists_row-grows (λ r. r.id == t) db.tenants (row ∷ []) o in
    record {
      users = All-map (λ r. grows r.tenant_id) db.users h.users;
      accounts = All-map (λ r. grows r.tenant_id) db.accounts h.accounts;
      transactions = All-map (λ r. grows r.tenant_id) db.transactions h.transactions;
      postings = All-map (λ r. grows r.tenant_id) db.postings h.postings;
      outbox = All-map (λ r. grows r.tenant_id) db.ledger_outbox h.outbox;
      documents = All-map (λ r. grows r.tenant_id) db.documents h.documents;
      posting_accounts = h.posting_accounts;
      document_transactions = h.document_transactions;
    }

pub with_user-IsReferential :
    (db : Database) (row : User)
    → Owned db row.tenant_id
    → IsReferential db
    → IsReferential (record db { users = db.users ++ row ∷ [] })
with_user-IsReferential db row own h = record {
  users = All-snoc (λ r. Owned db r.tenant_id) db.users row own h.users;
  accounts = h.accounts;
  transactions = h.transactions;
  postings = h.postings;
  outbox = h.outbox;
  documents = h.documents;
  posting_accounts = h.posting_accounts;
  document_transactions = h.document_transactions;
}

pub with_account-IsReferential :
    (db : Database) (row : Account) (seq : ℕ)
    → Owned db row.tenant_id
    → IsReferential db
    → IsReferential (record db { accounts = db.accounts ++ row ∷ []; accounts_id_seq = seq })
with_account-IsReferential db row seq own h = record {
  users = h.users;
  accounts = All-snoc (λ r. Owned db r.tenant_id) db.accounts row own h.accounts;
  transactions = h.transactions;
  postings = h.postings;
  outbox = h.outbox;
  documents = h.documents;
  posting_accounts =
      All-map (λ p. exists_row-grows (λ a. a.id == p.account_id) db.accounts (row ∷ [])) db.postings
        h.posting_accounts;
  document_transactions = h.document_transactions;
}

pub with_document-IsReferential :
    (db : Database) (row : Document)
    → Owned db row.tenant_id
    → exists_row (λ t. t.id == row.transaction_id) db.transactions ≡ true
    → IsReferential db
    → IsReferential (record db { documents = db.documents ++ row ∷ [] })
with_document-IsReferential db row own of_tx h = record {
  users = h.users;
  accounts = h.accounts;
  transactions = h.transactions;
  postings = h.postings;
  outbox = h.outbox;
  documents = All-snoc (λ r. Owned db r.tenant_id) db.documents row own h.documents;
  posting_accounts = h.posting_accounts;
  document_transactions =
      All-snoc (λ d. exists_row (λ t. t.id == d.transaction_id) db.transactions ≡ true) db.documents
        row of_tx h.document_transactions;
}
