-- ===== src/Service/Ledger/Response.antt =====
-- The response of a committed call lists the request's legs.
use mathlib.Core.Option
use ledger_pro.Prelude.{
  ℕ, ◌+◌, String, ◌≡◌, refl, ap, ◌∙◌, inl, inr, Bool, true, false, false≢true, Option, none, some,
  List, [], ◌∷◌, map, arith, ◌==◌, Bool-cases, All, where_rows, first_row, exists_row,
  where_rows-append, Ascending, order_by-Ascending, Ascending-weaken,
}
use ledger_pro.Db.Models.{Uuid, Account, Posting, PostingEntry}
use ledger_pro.Db.Tables.{Database, ok}
use ledger_pro.Db.Postings.{
  of_transaction, PostingRow, join_account, join_accounts, of_transaction_in,
  get_postings_by_transaction_id,
}
use ledger_pro.Service.Cache.{TransactionResponse}
use ledger_pro.Service.Ledger.{
  CreateTransactionRequest, LedgerService, Conditions, replay_of, response_of, create_transaction,
}
use ledger_pro.Service.Ledger.Commit.{transaction_row, committed_db, IsCommitted}
use ledger_pro.Service.Ledger.Posted.{posting_rows, IsAccepted}
use ledger_pro.Service.Ledger.Invariant.{IsValid, where_rows-fresh}
use ledger_pro.Service.Ledger.Outcome.{
  Outcome, refused, replayed, committed, create_transaction-Outcome,
}

-- The leg that a row of the response stands for.
abbrev pub leg_of_row : PostingRow → PostingEntry
leg_of_row r = record { account_id = r.account_id; amount = r.amount; direction = r.direction }

-- The name of the account with the leg's id, of whatever tenant the account is.
abbrev pub name_of_leg : Database → PostingEntry → Option String
name_of_leg db p =
    Option.map (λ a. a.account_name) (first_row (λ a. a.id == p.account_id) db.accounts)

first_row-exists {ℓ} :
    {A : Type ℓ} (p : A → Bool) (xs : List A)
    → exists_row p xs ≡ true
    → (a : A) × (first_row p xs ≡ some a)
first_row-exists p [] h = absurd (false≢true h)
first_row-exists p (x ∷ xs) h = elim (Bool-cases (p x)) [
  | inl e ↦ (x, rw e)
  | inr e ↦ let (a, f) = first_row-exists p xs (rw e at h) in (a, rw e f)
]

-- The row of a posting whose account is `a`.
abbrev row_of : Account → Posting → PostingRow
row_of a p = record {
  id = p.id;
  tenant_id = p.tenant_id;
  transaction_id = p.transaction_id;
  account_id = p.account_id;
  account_name = a.account_name;
  amount = p.amount;
  direction = p.direction;
  created_at = p.created_at;
}

join_accounts-cons :
    (db : Database) (a : Account) (p : Posting) (ps : List Posting)
    → first_row (λ r. r.id == p.account_id) db.accounts ≡ some a
    → join_accounts db (p ∷ ps) ≡ row_of a p ∷ join_accounts db ps
join_accounts-cons db a p ps h = rw (h, join_accounts, join_account)

module _ (db : Database) (tenant tx_id now : ℕ) where
  abbrev posting_of : ℕ → PostingEntry → Posting
  posting_of seq p = record {
    id = seq;
    transaction_id = tx_id;
    account_id = p.account_id;
    amount = p.amount;
    direction = p.direction;
    created_at = now;
    tenant_id = tenant;
  }

  abbrev joined : ℕ → List PostingEntry → List PostingRow
  joined seq legs = join_accounts db (posting_rows tenant tx_id now seq legs)

  -- Every accepted leg finds its account, and comes back as it was.
  joined-legs :
      (seq : ℕ) (legs : List PostingEntry)
      → All (IsAccepted db.accounts) legs
      → (map leg_of_row (joined seq legs) ≡ legs)
        × Ascending (λ (r : PostingRow). r.id) seq (joined seq legs)
  joined-legs seq [] h = (refl, tt)
  joined-legs seq (p ∷ ps) h =
      let (a, found) = first_row-exists (λ r. r.id == p.account_id) db.accounts h.0.account in
      let (legs, ordered) = joined-legs (seq + 1) ps h.1 in
      rw
        (join_accounts-cons db a (posting_of seq p) (posting_rows tenant tx_id now (seq + 1) ps)
          found)
        (
          ap (λ r. p ∷ r) legs,
          (
            omega arith,
            Ascending-weaken (λ (r : PostingRow). r.id) (seq + 1) seq (joined (seq + 1) ps)
                (omega arith) ordered,
          ),
        )

  -- Every row has the name of the account with the leg's id.
  joined-names :
      (seq : ℕ) (legs : List PostingEntry)
      → All (IsAccepted db.accounts) legs
      → map (λ r. some r.account_name) (joined seq legs) ≡ map (name_of_leg db) legs
  joined-names seq [] h = refl
  joined-names seq (p ∷ ps) h =
      let (a, found) = first_row-exists (λ r. r.id == p.account_id) db.accounts h.0.account in
      rw
        (join_accounts-cons db a (posting_of seq p) (posting_rows tenant tx_id now (seq + 1) ps)
          found)
        (rw found (ap (λ r. some a.account_name ∷ r) (joined-names (seq + 1) ps h.1)))

  own_batch :
      (seq : ℕ) (legs : List PostingEntry)
      → where_rows (of_transaction_in tx_id tenant) (posting_rows tenant tx_id now seq legs)
        ≡ posting_rows tenant tx_id now seq legs
  own_batch seq [] = refl
  own_batch seq (p ∷ ps) = ground (arith, own_batch (seq + 1) ps)

where_rows-narrower :
    (t u : ℕ) (rows : List Posting)
    → where_rows (of_transaction t) rows ≡ []
    → where_rows (of_transaction_in t u) rows ≡ []
where_rows-narrower t u [] h = refl
where_rows-narrower t u (p ∷ ps) h = ground (arith, where_rows-narrower t u ps)

module _ (c : Conditions) (tenant : Uuid) (req : CreateTransactionRequest) (db : Database)
    (valid : IsValid db) (done : IsCommitted c tenant req db) where
  -- What the query reads back: the batch, joined with its accounts.
  committed-rows :
      get_postings_by_transaction_id c.transaction_id tenant (committed_db c tenant req db)
      ≡ joined
          (committed_db c tenant req db)
          tenant
          c.transaction_id
          c.now
          db.postings_id_seq
          req.postings
  unfolding get_postings_by_transaction_id
  committed-rows =
      let own = of_transaction_in c.transaction_id tenant in
      let rows = posting_rows tenant c.transaction_id c.now db.postings_id_seq req.postings in
      let (legs, ordered) =
        joined-legs (committed_db c tenant req db) tenant c.transaction_id c.now db.postings_id_seq
          req.postings done.legs in
      rw (where_rows-append own db.postings rows) (
        rw
          (where_rows-narrower c.transaction_id tenant db.postings
            (where_rows-fresh c.transaction_id db db.postings done.fresh_id valid.linked))
          (rw
            (own_batch (committed_db c tenant req db) tenant c.transaction_id c.now
              db.postings_id_seq req.postings)
            (order_by-Ascending (λ (r : PostingRow). r.id) db.postings_id_seq
              (joined (committed_db c tenant req db) tenant c.transaction_id c.now
                db.postings_id_seq req.postings)
              ordered)))

  committed-legs :
      map leg_of_row
        (get_postings_by_transaction_id c.transaction_id tenant (committed_db c tenant req db))
      ≡ req.postings
  committed-legs =
      ap (map leg_of_row) committed-rows
      ∙ (joined-legs (committed_db c tenant req db) tenant c.transaction_id c.now db.postings_id_seq
          req.postings done.legs).0

  committed-names :
      map
        (λ r. some r.account_name)
        (get_postings_by_transaction_id c.transaction_id tenant (committed_db c tenant req db))
      ≡ map (name_of_leg db) req.postings
  committed-names =
      ap (map (λ r. some r.account_name)) committed-rows
      ∙ joined-names (committed_db c tenant req db) tenant c.transaction_id c.now db.postings_id_seq
          req.postings done.legs

-- On a well-formed database, a successful call of CreateTransaction that replays nothing and can
-- read the postings back answers with the request's key and description, and with exactly the
-- request's legs, in the request's order.
pub create_transaction_response :
    (c : Conditions) (tenant : Uuid) (req : CreateTransactionRequest) (s : LedgerService)
    (resp : TransactionResponse)
    → IsValid s.db
    → (create_transaction c tenant req s).0 ≡ ok resp
    → replay_of c tenant req s ≡ none
    → c.fetch_fails ≡ false
    → (resp.idempotency_key ≡ req.idempotency_key)
      × (resp.description ≡ req.description)
      × (map leg_of_row resp.postings ≡ req.postings)
create_transaction_response c tenant req s resp valid success miss reads =
    from_outcome (create_transaction-Outcome c tenant req s)
  where
    from_outcome :
        let (r, s') = create_transaction c tenant req s in
        Outcome c tenant req s r s'
        → (resp.idempotency_key ≡ req.idempotency_key)
          × (resp.description ≡ req.description)
          × (map leg_of_row resp.postings ≡ req.postings)
    from_outcome (refused e er es) = absurd (cc)
    from_outcome (replayed old h er es) = absurd (cc)
    from_outcome (committed facts v er es) =
        let same : resp
            ≡ response_of c tenant (transaction_row c tenant req) (committed_db c tenant req s.db) =
          cc in
        rw (same, reads) (refl, refl, committed-legs c tenant req s.db valid facts)

-- On a well-formed database, a successful call of CreateTransaction that replays nothing and can
-- read the postings back shows for each leg, in order, the name of the account with the leg's id,
-- of whatever tenant that account is.
pub create_transaction_names :
    (c : Conditions) (tenant : Uuid) (req : CreateTransactionRequest) (s : LedgerService)
    (resp : TransactionResponse)
    → IsValid s.db
    → (create_transaction c tenant req s).0 ≡ ok resp
    → replay_of c tenant req s ≡ none
    → c.fetch_fails ≡ false
    → map (λ r. some r.account_name) resp.postings ≡ map (name_of_leg s.db) req.postings
create_transaction_names c tenant req s resp valid success miss reads =
    from_outcome (create_transaction-Outcome c tenant req s)
  where
    from_outcome :
        let (r, s') = create_transaction c tenant req s in
        Outcome c tenant req s r s'
        → map (λ r. some r.account_name) resp.postings ≡ map (name_of_leg s.db) req.postings
    from_outcome (refused e er es) = absurd (cc)
    from_outcome (replayed old h er es) = absurd (cc)
    from_outcome (committed facts v er es) =
        let same : resp
            ≡ response_of c tenant (transaction_row c tenant req) (committed_db c tenant req s.db) =
          cc in
        rw (same, reads) (committed-names c tenant req s.db valid facts)
