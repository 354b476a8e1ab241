-- ===== src/Service/Ledger/References.antt =====
-- A committed transaction refers to rows that are there.
use ledger_pro.Service.Ledger.Commit.{transaction_row, event_row, committed_db, IsCommitted}
use ledger_pro.Service.Ledger.Posted.{posting_rows, IsAccepted}
use ledger_pro.Db.References.{Owned, IsReferential}
use ledger_pro.Prelude.{
  ℕ, ◌+◌, ◌≡◌, true, List, [], ◌∷◌, ◌==◌, All, exists_row, All-append, All-map, exists_row-grows,
}
use ledger_pro.Db.Models.{Uuid, Account, PostingEntry}
use ledger_pro.Db.Tables.{Database}
use ledger_pro.Service.Ledger.{CreateTransactionRequest, Conditions}

posting_rows-Owned :
    (db : Database) (tenant tx_id now seq : ℕ) (legs : List PostingEntry)
    → Owned db tenant
    → All (λ p. Owned db p.tenant_id) (posting_rows tenant tx_id now seq legs)
posting_rows-Owned db tenant tx_id now seq [] own = tt
posting_rows-Owned db tenant tx_id now seq (p ∷ ps) own =
    (own, posting_rows-Owned db tenant tx_id now (seq + 1) ps own)

posting_rows-accounts :
    (accounts : List Account) (tenant tx_id now seq : ℕ) (legs : List PostingEntry)
    → All (IsAccepted accounts) legs
    → All
        (λ p. exists_row (λ a. a.id == p.account_id) accounts ≡ true)
        (posting_rows tenant tx_id now seq legs)
posting_rows-accounts accounts tenant tx_id now seq [] h = tt
posting_rows-accounts accounts tenant tx_id now seq (p ∷ ps) h =
    (h.0.account, posting_rows-accounts accounts tenant tx_id now (seq + 1) ps h.1)

pub committed-IsReferential :
    (c : Conditions) (tenant : Uuid) (req : CreateTransactionRequest) (db : Database)
    → IsCommitted c tenant req db
    → IsReferential db
    → IsReferential (committed_db c tenant req db)
committed-IsReferential c tenant req db done h = record {
  users = h.users;
  accounts = h.accounts;
  transactions =
      All-append (λ r. Owned db r.tenant_id) db.transactions (transaction_row c tenant req ∷ [])
        (done.owner, tt) h.transactions;
  postings =
      All-append (λ r. Owned db r.tenant_id) db.postings _
        (posting_rows-Owned db tenant c.transaction_id c.now db.postings_id_seq req.postings
          done.owner)
        h.postings;
  outbox =
      All-append (λ r. Owned db r.tenant_id) db.ledger_outbox (event_row c tenant req ∷ [])
        (done.owner, tt) h.outbox;
  documents = h.documents;
  posting_accounts =
      All-append (λ p. exists_row (λ a. a.id == p.account_id) db.accounts ≡ true) db.postings _
        (posting_rows-accounts db.accounts tenant c.transaction_id c.now db.postings_id_seq
          req.postings done.legs)
        h.posting_accounts;
  document_transactions =
      All-map
        (λ d.
          exists_row-grows (λ t. t.id == d.transaction_id) db.transactions
            (transaction_row c tenant req ∷ []))
        db.documents h.document_transactions;
}
