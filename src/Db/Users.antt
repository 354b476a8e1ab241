-- ===== src/Db/Users.antt =====
-- internal/db/queries.sql.go on tenants and users, with the constraints of db/migrations/000004
-- and 000005: a user's e-mail address is unique in its tenant only, and the texts have a longest
-- length.
use ledger_pro.Prelude.{
  ℕ, zero, suc, String, Bool, not, ◌&&◌, Option, none, some, List, [], ◌∷◌, ◌++◌, str_eq, leb, ◌==◌,
  length, where_rows, exists_row,
}
use ledger_pro.Prelude.Text.{codes}
use ledger_pro.Db.Models.{Uuid, Timestamp, Tenant, User}
use ledger_pro.Db.Tables.{
  Database, DbError, unique_violation, foreign_key_violation, too_long, Result, ok, ◌>>◌, require,
  scan_one, has_tenant,
}

-- VARCHAR(n) counts characters. An excess of spaces alone, which PostgreSQL cuts off, is left aside:
-- it counts as too long here.
abbrev pub fits : ℕ → String → Bool
fits n s = leb (length (codes s)) n

abbrev pub new_tenant : Uuid → Timestamp → String → Tenant
new_tenant new_id now name = record { id = new_id; name = name; created_at = now }

unfoldable pub create_tenant :
    Uuid → Timestamp → String → Database → Result DbError (Tenant × Database)
create_tenant new_id now name db = do
  require (fits 255 name) too_long
  require (not (exists_row (λ r. r.id == new_id) db.tenants)) unique_violation
  let row = new_tenant new_id now name
  ok (row, record db { tenants = db.tenants ++ row ∷ [] })

pub record CreateUserParams : Type 0 where
  pub tenant_id : Uuid
  pub email : String
  pub password_hash : String
  pub role : String

-- UNIQUE (tenant_id, email)
abbrev pub same_user : Uuid → String → User → Bool
same_user t e r = (r.tenant_id == t) && str_eq r.email e

abbrev pub new_user : Uuid → Timestamp → CreateUserParams → User
new_user new_id now arg = record {
  id = new_id;
  email = arg.email;
  password_hash = arg.password_hash;
  role = arg.role;
  created_at = now;
  updated_at = now;
  tenant_id = arg.tenant_id;
}

unfoldable pub create_user :
    Uuid → Timestamp → CreateUserParams → Database → Result DbError (User × Database)
create_user new_id now arg db = do
  require (fits 255 arg.email) too_long
  require (fits 255 arg.password_hash) too_long
  require (fits 50 arg.role) too_long
  require (not (exists_row (λ r. r.id == new_id) db.users)) unique_violation
  require (not (exists_row (same_user arg.tenant_id arg.email) db.users)) unique_violation
  require (has_tenant arg.tenant_id db) foreign_key_violation
  let row = new_user new_id now arg
  ok (row, record db { users = db.users ++ row ∷ [] })

-- One row of those that a query has found: the one that `choice` counts to, or the first.
abbrev pub chosen_row : ℕ → List User → Option User
chosen_row choice [] = none
chosen_row zero (r ∷ rows) = some r
chosen_row (suc choice) (r ∷ rows) = elim (chosen_row choice rows) [
  | none ↦ some r
  | some u ↦ some u
]

-- WHERE email = $1 LIMIT 1, with no order: PostgreSQL chooses the row.
unfoldable pub get_user_by_email : ℕ → String → Database → Result DbError User
get_user_by_email choice e db =
    scan_one (chosen_row choice (where_rows (λ r. str_eq r.email e) db.users))
