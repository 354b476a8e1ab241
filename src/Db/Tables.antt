-- ===== src/Db/Tables.antt =====
-- The database that db/migrations creates: one list of rows for each table, in insertion order,
-- and the sequences behind the BIGSERIAL columns. A statement that fails changes nothing.
use ledger_pro.Prelude.{
  ℕ, ◌≡◌, refl, ◌⊎◌, inl, inr, Bool, true, false, Option, none, some, List, ◌∷◌, ◌==◌, exists_row,
}
use ledger_pro.Db.Models.{Uuid, Tenant, User, Account, Transaction, Posting, Document, LedgerOutbox}

pub record Database : Type 0 where
  pub tenants : List Tenant
  pub users : List User
  pub accounts : List Account
  pub transactions : List Transaction
  pub postings : List Posting
  pub ledger_outbox : List LedgerOutbox
  pub documents : List Document
  pub accounts_id_seq : ℕ
  pub postings_id_seq : ℕ

-- Why PostgreSQL or the connection to it refuses a statement. `no_rows` is pgx.ErrNoRows.
pub data DbError : Type 0 where
  no_rows unique_violation foreign_key_violation check_violation : DbError
  invalid_enum too_long out_of_range negative_offset unavailable : DbError

pub data Result {ℓ κ} (E : Type ℓ) (A : Type κ) : Type (ℓ ⊔ κ) where
  ok : A → Result E A
  err : E → Result E A

infixl 5 ◌>>=◌ ◌>>◌
abbrev pub ◌>>=◌ {ℓ κ μ} :
    {E : Type ℓ} {A : Type κ} {B : Type μ} → Result E A → (A → Result E B) → Result E B
ok a >>= f = f a
err e >>= f = err e

abbrev pub ◌>>◌ {ℓ κ} : {E : Type ℓ} {B : Type κ} → Result E (Unit {0}) → Result E B → Result E B
m >> k = m >>= λ _. k

-- A constraint: the statement is refused with `e` where the test fails.
abbrev pub require : Bool → DbError → Result DbError (Unit {0})
require true e = ok tt
require false e = err e

-- A `:one` query scans the first row, or gives pgx.ErrNoRows.
abbrev pub scan_one {ℓ} : {A : Type ℓ} → Option A → Result DbError A
scan_one none = err no_rows
scan_one (some a) = ok a

-- An inner join keeps what has a partner.
abbrev pub add_joined {ℓ} : {Row : Type ℓ} → Option Row → List Row → List Row
add_joined none rest = rest
add_joined (some r) rest = r ∷ rest

-- The foreign key that every table but `tenants` has since 000005.
abbrev pub has_tenant : Uuid → Database → Bool
has_tenant t db = exists_row (λ r. r.id == t) db.tenants

pub Result-cases {ℓ κ} :
    {E : Type ℓ} {A : Type κ} (r : Result E A) → ((a : A) × (r ≡ ok a)) ⊎ ((e : E) × (r ≡ err e))
Result-cases (ok a) = inl (a, refl)
Result-cases (err e) = inr (e, refl)

-- Where a chain fails: in its first step, or after it.
pub >>=-eq-err {ℓ κ μ} :
    {E : Type ℓ} {A : Type κ} {B : Type μ} (m : Result E A) (f : A → Result E B) (e : E)
    → (m >>= f) ≡ err e
    → (m ≡ err e) ⊎ ((a : A) × (m ≡ ok a) × (f a ≡ err e))
>>=-eq-err (ok a) f e h = inr (a, refl, h)
>>=-eq-err (err x) f e h = inl (cc)
