-- ===== src/Api/System/Announced.antt =====
-- internal/service/ledger.go, internal/service/outbox.go: the transactional outbox. Every
-- transaction has its event, and every event its transaction.
use ledger_pro.Service.Ledger.Isolation.{where_rows-append_none}
use ledger_pro.Db.Postings.{of_transaction}
use ledger_pro.Service.Ledger.{CreateTransactionRequest, Conditions}
use ledger_pro.Service.Ledger.Commit.{transaction_row, event_row, committed_db, IsCommitted}
use ledger_pro.Service.Ledger.Posted.{posting_rows}
use ledger_pro.Service.Ledger.Invariant.{IsValid, where_rows-posting_rows, own_rows}
use ledger_pro.Prelude.{
  ℕ, ◌+◌, String, ◌≡◌, refl, sym, ap, ◌∙◌, Bool, false, List, [], ◌∷◌, ◌++◌, map, arith, ◌==◌,
  where_rows, exists_row,
}
use ledger_pro.Db.Models.{Uuid, Timestamp, Transaction, Posting, PostingEntry, LedgerOutbox}
use ledger_pro.Db.Tables.{Database}

-- What an event says of its transaction: all but the event's own id and type.
pub record Announcement : Type 0 where
  pub tenant_id : Uuid
  pub transaction_id : Uuid
  pub idempotency_key : String
  pub description : String
  pub postings : List PostingEntry
  pub metadata : String
  pub created_at : Timestamp

abbrev pub announced : LedgerOutbox → Announcement
announced e = record {
  tenant_id = e.payload.tenant_id;
  transaction_id = e.payload.transaction_id;
  idempotency_key = e.payload.idempotency_key;
  description = e.payload.description;
  postings = e.payload.postings;
  metadata = e.payload.metadata;
  created_at = e.payload.created_at;
}

abbrev pub leg_of : Posting → PostingEntry
leg_of p = record { account_id = p.account_id; amount = p.amount; direction = p.direction }

-- The same of the tables.
abbrev pub announcement_of : List Posting → Transaction → Announcement
announcement_of rows t = record {
  tenant_id = t.tenant_id;
  transaction_id = t.id;
  idempotency_key = t.idempotency_key;
  description = t.description;
  postings = map leg_of (where_rows (of_transaction t.id) rows);
  metadata = t.metadata;
  created_at = t.created_at;
}

-- One event for each transaction, in the order of the commits.
abbrev pub IsAnnounced : Database → Type 0
IsAnnounced db = map announced db.ledger_outbox ≡ map (announcement_of db.postings) db.transactions

map-snoc {ℓ κ} :
    {A : Type ℓ} {B : Type κ} (f : A → B) (xs : List A) (x : A)
    → map f (xs ++ x ∷ []) ≡ map f xs ++ f x ∷ []
map-snoc f [] x = refl
map-snoc f (y ∷ xs) x = ap (λ r. f y ∷ r) (map-snoc f xs x)

leg_of-posting_rows :
    (tenant tx_id now seq : ℕ) (legs : List PostingEntry)
    → map leg_of (posting_rows tenant tx_id now seq legs) ≡ legs
leg_of-posting_rows tenant tx_id now seq [] = refl
leg_of-posting_rows tenant tx_id now seq (p ∷ ps) =
    ap (λ r. p ∷ r) (leg_of-posting_rows tenant tx_id now (seq + 1) ps)

exists_row-cons-false {ℓ} :
    {A : Type ℓ} (p : A → Bool) (x : A) (xs : List A)
    → exists_row p (x ∷ xs) ≡ false
    → (p x ≡ false) × (exists_row p xs ≡ false)
exists_row-cons-false p x xs h = ground arith

not_equal : (a b : ℕ) → (a == b) ≡ false → (b == a) ≡ false
not_equal a b h = ground (arith, h)

pub cons-eq {ℓ} : {A : Type ℓ} {x y : A} {xs ys : List A} → x ≡ y → xs ≡ ys → x ∷ xs ≡ y ∷ ys
cons-eq {y = y} {xs = xs} e f = ap (λ z. z ∷ xs) e ∙ ap (λ zs. y ∷ zs) f

snoc-eq {ℓ} :
    {A : Type ℓ} {x y : A} {xs ys : List A} → xs ≡ ys → x ≡ y → xs ++ x ∷ [] ≡ ys ++ y ∷ []
snoc-eq {x = x} {ys = ys} e f = ap (λ zs. zs ++ x ∷ []) e ∙ ap (λ z. ys ++ z ∷ []) f

-- A batch under a new id adds nothing to the older transactions.
old_announcements :
    (tenant tx_id now seq : ℕ) (legs : List PostingEntry) (rows : List Posting)
    (ts : List Transaction)
    → exists_row (λ r. r.id == tx_id) ts ≡ false
    → map (announcement_of (rows ++ posting_rows tenant tx_id now seq legs)) ts
      ≡ map (announcement_of rows) ts
old_announcements tenant tx_id now seq legs rows [] fresh = refl
old_announcements tenant tx_id now seq legs rows (t ∷ ts) fresh =
    let (other, others) = exists_row-cons-false (λ r. r.id == tx_id) t ts fresh in
    let none_new = where_rows-posting_rows tenant tx_id now t.id seq legs in
    let same : where_rows (of_transaction t.id) (rows ++ posting_rows tenant tx_id now seq legs)
        ≡ where_rows (of_transaction t.id) rows =
      where_rows-append_none (of_transaction t.id) rows (posting_rows tenant tx_id now seq legs)
        (none_new ∙ rw (not_equal t.id tx_id other) refl) in
    cons-eq (rw same refl) (old_announcements tenant tx_id now seq legs rows ts others)

pub committed-IsAnnounced :
    (c : Conditions) (tenant : Uuid) (req : CreateTransactionRequest) (db : Database)
    → IsValid db
    → IsCommitted c tenant req db
    → IsAnnounced db
    → IsAnnounced (committed_db c tenant req db)
committed-IsAnnounced c tenant req db valid done h =
    let batch = posting_rows tenant c.transaction_id c.now db.postings_id_seq req.postings in
    let tx = transaction_row c tenant req in
    let old =
      old_announcements tenant c.transaction_id c.now db.postings_id_seq req.postings db.postings
        db.transactions done.fresh_id in
    let new : announced (event_row c tenant req) ≡ announcement_of (db.postings ++ batch) tx =
      rw (own_rows c tenant req db valid done) (
        rw (leg_of-posting_rows tenant c.transaction_id c.now db.postings_id_seq req.postings)
          refl) in
    map-snoc announced db.ledger_outbox (event_row c tenant req)
    ∙ (snoc-eq (h ∙ sym old) new
        ∙ sym (map-snoc (announcement_of (db.postings ++ batch)) db.transactions tx))
