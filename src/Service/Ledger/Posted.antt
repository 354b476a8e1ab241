-- ===== src/Service/Ledger/Posted.antt =====
-- What the loop of CreateTransaction over the legs has written when it ends.
use ledger_pro.Prelude.{
  ℕ, suc, ◌+◌, ◌≤◌, ◌<◌, ◌≡◌, refl, ap, ◌∙◌, ◌⊎◌, inl, inr, Bool, true, false, List, [], ◌∷◌, ◌++◌,
  append-nil, append_assoc, arith, ◌==◌, All, length, exists_row,
}
use ledger_pro.Db.Postings.{CreatePostingParams, is_direction, new_posting, create_posting}
use ledger_pro.Prelude.Int.{int64_max}
use ledger_pro.Db.Models.{Uuid, Timestamp, Account, Posting, PostingEntry}
use ledger_pro.Db.Tables.{Database, DbError, Result, ok, err, ◌>>=◌}
use ledger_pro.Service.Errors.{Stage, insert_posting, ServiceError, wrap, over_network}
use ledger_pro.Service.Ledger.{Conditions, insert_postings}

-- The rows that the legs become, with ids from the sequence.
abbrev pub posting_rows : Uuid → Uuid → Timestamp → ℕ → List PostingEntry → List Posting
posting_rows tenant tx_id now seq [] = []
posting_rows tenant tx_id now seq (p ∷ ps) =
    record {
      id = seq;
      transaction_id = tx_id;
      account_id = p.account_id;
      amount = p.amount;
      direction = p.direction;
      created_at = now;
      tenant_id = tenant;
    }
    ∷ posting_rows tenant tx_id now (seq + 1) ps

-- A leg that the postings table accepts.
pub record IsAccepted (accounts : List Account) (p : PostingEntry) : Type 0 where
  pub positive : 0 < p.amount
  pub bounded : p.amount ≤ int64_max
  pub directed : is_direction p.direction ≡ true
  pub account : exists_row (λ r. r.id == p.account_id) accounts ≡ true

abbrev with_posting : Database → Posting → Database
with_posting db row = record db { postings = db.postings ++ row ∷ []; postings_id_seq = row.id + 1 }

create_posting-eq-ok :
    (now : Timestamp) (arg : CreatePostingParams) (db : Database) {r : Posting × Database}
    → create_posting now arg db ≡ ok r
    → (r ≡ (
      new_posting now arg db.postings_id_seq,
      with_posting db (new_posting now arg db.postings_id_seq),
    ))
      × (0 < arg.amount)
      × (arg.amount ≤ int64_max)
      × (is_direction arg.direction ≡ true)
      × (exists_row (λ r. r.id == arg.account_id) db.accounts ≡ true)
unfolding create_posting
create_posting-eq-ok now arg db h = ground arith

-- A call that succeeded was neither cut off nor refused.
wrap-eq-ok {ℓ} :
    {A : Type ℓ} (stage : Stage) (fails : Bool) (r : Result DbError A) {a : A}
    → wrap stage (over_network fails r) ≡ ok a
    → r ≡ ok a
wrap-eq-ok stage true r h = cc
wrap-eq-ok stage false (ok b) h = cc
wrap-eq-ok stage false (err e) h = cc

-- What the two steps of a chain that succeeded returned.
>>=-eq-ok {ℓ κ} :
    {A : Type ℓ} {B : Type κ} (first : Result ServiceError A) (next : A → Result ServiceError B)
    → {last : B} → (first >>= next) ≡ ok last
    → (mid : A) × (first ≡ ok mid) × (next mid ≡ ok last)
>>=-eq-ok (err e) next run = cc
>>=-eq-ok (ok mid) next run = (mid, refl, run)

abbrev pub with_postings : Database → List Posting → ℕ → Database
with_postings db rows count = record db {
  postings = db.postings ++ rows;
  postings_id_seq = db.postings_id_seq + count;
}

abbrev pub leg_params : Uuid → Uuid → PostingEntry → CreatePostingParams
leg_params tenant tx_id p = record {
  tenant_id = tenant;
  transaction_id = tx_id;
  account_id = p.account_id;
  amount = p.amount;
  direction = p.direction;
}

-- One round of the loop.
abbrev pub post_leg :
    Conditions
    → Uuid
    → Uuid
    → ℕ
    → PostingEntry
    → Database
    → Result ServiceError (Posting × Database)
post_leg c tenant tx_id i p db =
    wrap (insert_posting i)
      (over_network (c.posting_fails i) (create_posting c.now (leg_params tenant tx_id p) db))

post_leg-eq-ok :
    (c : Conditions) (tenant tx_id i : ℕ) (p : PostingEntry) (db : Database)
    {r : Posting × Database}
    → post_leg c tenant tx_id i p db ≡ ok r
    → (r.1 ≡ with_posting db (new_posting c.now (leg_params tenant tx_id p) db.postings_id_seq))
      × IsAccepted db.accounts p
post_leg-eq-ok c tenant tx_id i p db h =
    let (e, positive, bounded, directed, account) =
      create_posting-eq-ok c.now (leg_params tenant tx_id p) db (
        wrap-eq-ok (insert_posting i) (c.posting_fails i)
          (create_posting c.now (leg_params tenant tx_id p) db) h) in
    (
      ap (λ r. r.1) e,
      record { positive = positive; bounded = bounded; directed = directed; account = account },
    )

with_postings-cons :
    (now : Timestamp) (arg : CreatePostingParams) (db : Database) (rows : List Posting) (n : ℕ)
    → with_postings (with_posting db (new_posting now arg db.postings_id_seq)) rows n
      ≡ with_postings db (new_posting now arg db.postings_id_seq ∷ rows) (suc n)
with_postings-cons now arg db rows n =
    ground (arith, append_assoc db.postings (new_posting now arg db.postings_id_seq ∷ []) rows)

insert_postings-eq-ok :
    (c : Conditions) (tenant tx_id i : ℕ) (legs : List PostingEntry) (db : Database)
    {db' : Database}
    → insert_postings c tenant tx_id i legs db ≡ ok db'
    → (db'
        ≡ with_postings db (posting_rows tenant tx_id c.now db.postings_id_seq legs) (length legs))
      × All (IsAccepted db.accounts) legs
unfolding insert_postings
insert_postings-eq-ok c tenant tx_id i [] db h = (ground (arith, append-nil db.postings), tt)
insert_postings-eq-ok c tenant tx_id i (p ∷ ps) db h =
    let (r, first, rest) =
      >>=-eq-ok (post_leg c tenant tx_id i p db)
        (λ inserted. insert_postings c tenant tx_id (i + 1) ps inserted.1) h in
    let (e, accepted) = post_leg-eq-ok c tenant tx_id i p db first in
    let later = insert_postings-eq-ok c tenant tx_id (i + 1) ps r.1 rest in
    let (e', others) = rw e at later in
    (e' ∙ with_postings-cons c.now (leg_params tenant tx_id p) db _ _, (accepted, others))

-- The loop either stops with an error or has inserted every leg.
pub insert_postings-cases :
    (c : Conditions) (tenant tx_id i : ℕ) (legs : List PostingEntry) (db : Database)
    → ((insert_postings c tenant tx_id i legs db
          ≡ ok (
              with_postings db
                (posting_rows tenant tx_id c.now db.postings_id_seq legs)
                (length legs)))
        × All (IsAccepted db.accounts) legs)
      ⊎ ((e : ServiceError) × (insert_postings c tenant tx_id i legs db ≡ err e))
insert_postings-cases c tenant tx_id i legs db = go (insert_postings c tenant tx_id i legs db) refl
  where
    go :
        (r : Result ServiceError Database)
        → insert_postings c tenant tx_id i legs db ≡ r
        → ((insert_postings c tenant tx_id i legs db
              ≡ ok (
                  with_postings db
                    (posting_rows tenant tx_id c.now db.postings_id_seq legs)
                    (length legs)))
            × All (IsAccepted db.accounts) legs)
          ⊎ ((e : ServiceError) × (insert_postings c tenant tx_id i legs db ≡ err e))
    go (err e) h = inr (e, h)
    go (ok db') h =
        let (e, accepted) = insert_postings-eq-ok c tenant tx_id i legs db h in
        inl (h ∙ ap ok e, accepted)
