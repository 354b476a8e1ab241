-- ===== src/Service/Queries/Ids.antt =====
-- internal/service/ledger.go: CreateAccount, and the ids that the sequence of db/migrations 000001
-- gives the accounts.
use ledger_pro.Service.Queries.{CreateAccountRequest, get_account, create_account as open_account}
use ledger_pro.Db.Accounts.{
  CreateAccountParams, is_account_type, same_name, new_account, is_account, get_account_by_id,
  create_account as insert_account,
}
use ledger_pro.Prelude.Paging.{Rising}
use ledger_pro.Prelude.{
  ℕ, suc, ◌+◌, ◌≤◌, ◌<◌, ◌≡◌, refl, ◌≢◌, Bool, true, false, List, [], ◌∷◌, ◌++◌, arith, All,
  first_row, exists_row, All-append, All-map,
}
use ledger_pro.Prelude.Int.{int64_max}
use ledger_pro.Db.Models.{Uuid, Timestamp, Account}
use ledger_pro.Db.Tables.{Database, ok, has_tenant}
use ledger_pro.Service.Ledger.{or_empty_object}

-- The ids of the accounts rise from 1, below the sequence, and are int64 values.
pub record IdsRise (db : Database) : Type 0 where
  pub rising : Rising (λ a. a.id) 1 db.accounts
  pub drawn : All (λ a. a.id < db.accounts_id_seq) db.accounts
  pub positive : 1 ≤ db.accounts_id_seq
  pub in_range : All (λ a. a.id ≤ int64_max) db.accounts

pub Rising-append :
    (lo : ℕ) (xs : List Account) (a : Account)
    → Rising (λ r. r.id) lo xs
    → All (λ r. r.id < a.id) xs
    → lo ≤ a.id
    → Rising (λ r. r.id) lo (xs ++ a ∷ [])
Rising-append lo [] a h below le = (le, tt)
Rising-append lo (x ∷ xs) a h below le =
    (h.0, Rising-append (suc x.id) xs a h.1 below.1 (omega (arith, below.0)))

first_row-new :
    (t : Uuid) (xs : List Account) (a : Account)
    → All (λ r. r.id < a.id) xs
    → first_row (is_account a.id t) (xs ++ a ∷ []) ≡ first_row (is_account a.id t) (a ∷ [])
first_row-new t [] a below = refl
first_row-new t (x ∷ xs) a below = ground (arith, below.0, first_row-new t xs a below.1)

abbrev pub account_params : Uuid → CreateAccountRequest → CreateAccountParams
account_params tenant req = record {
  tenant_id = tenant;
  account_name = req.account_name;
  account_type = req.account_type;
  currency = req.currency;
  metadata = or_empty_object req.metadata;
}

abbrev pub with_account : Database → Account → Database
with_account db a = record db { accounts = db.accounts ++ a ∷ []; accounts_id_seq = a.id + 1 }

first_row-other :
    (t i : ℕ) (xs : List Account) (a : Account)
    → i ≢ a.id
    → first_row (is_account i t) (xs ++ a ∷ []) ≡ first_row (is_account i t) xs
first_row-other t i [] a ne = ground (arith, ne)
first_row-other t i (x ∷ xs) a ne = ground (arith, first_row-other t i xs a ne)

-- What a successful CreateAccount has done, and what it had found.
pub create_account-eq-ok :
    (fails : Bool) (now : Timestamp) (tenant : Uuid) (req : CreateAccountRequest) (db : Database)
    {r : Account × Database}
    → open_account fails now tenant req db ≡ ok r
    → let row = new_account now (account_params tenant req) db in
      (r ≡ (row, with_account db row))
      × (is_account_type req.account_type ≡ true)
      × (exists_row (same_name tenant req.account_name) db.accounts ≡ false)
      × (has_tenant tenant db ≡ true)
unfolding open_account insert_account
create_account-eq-ok fails now tenant req db h = ground arith

with_account-IdsRise :
    (now : Timestamp) (arg : CreateAccountParams) (db : Database)
    → db.accounts_id_seq ≤ int64_max
    → IdsRise db
    → IdsRise (with_account db (new_account now arg db))
with_account-IdsRise now arg db room h = record {
  rising = Rising-append 1 db.accounts (new_account now arg db) h.rising h.drawn h.positive;
  drawn =
      All-append (λ a. a.id < db.accounts_id_seq + 1) db.accounts (new_account now arg db ∷ [])
        (omega arith, tt) (All-map (λ a lt. omega (arith, lt)) db.accounts h.drawn);
  positive = omega arith;
  in_range =
      All-append (λ a. a.id ≤ int64_max) db.accounts (new_account now arg db ∷ []) (room, tt)
        h.in_range;
}

found_again :
    (now : Timestamp) (tenant : Uuid) (arg : CreateAccountParams) (db : Database)
    → arg.tenant_id ≡ tenant
    → IdsRise db
    → get_account false tenant db.accounts_id_seq (with_account db (new_account now arg db))
      ≡ ok (new_account now arg db)
unfolding get_account get_account_by_id
found_again now tenant arg db owner h =
    rw (first_row-new tenant db.accounts (new_account now arg db) h.drawn) (ground (arith, owner))

other_id :
    (now : Timestamp) (arg : CreateAccountParams) (db : Database) (t i : ℕ)
    → i ≢ db.accounts_id_seq
    → get_account false t i (with_account db (new_account now arg db)) ≡ get_account false t i db
unfolding get_account get_account_by_id
other_id now arg db t i ne = rw (first_row-other t i db.accounts (new_account now arg db) ne) refl

-- A successful CreateAccount draws a new id, if the sequence is within int64 and the ids have
-- risen below it: the ids go on rising, the account is found under its id and its tenant right
-- afterwards, and every query by another id answers as before.
pub create_account-found :
    (now : Timestamp) (tenant : Uuid) (req : CreateAccountRequest) (db : Database)
    {r : Account × Database}
    → IdsRise db
    → db.accounts_id_seq ≤ int64_max
    → open_account false now tenant req db ≡ ok r
    → IdsRise r.1
      × (get_account false tenant r.0.id r.1 ≡ ok r.0)
      × ((t i : ℕ) → i ≢ r.0.id → get_account false t i r.1 ≡ get_account false t i db)
create_account-found now tenant req db h room e =
    let (made, known, unused, owner) = create_account-eq-ok false now tenant req db e in
    rw made (
      with_account-IdsRise now (account_params tenant req) db room h,
      found_again now tenant (account_params tenant req) db refl h,
      λ t i ne. other_id now (account_params tenant req) db t i ne,
    )
