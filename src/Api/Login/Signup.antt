-- ===== src/Api/Login/Signup.antt =====
-- internal/api/auth_handler.go: what a signup is good for.
use ledger_pro.Api.Access.{ApiKeyEntry, Identity}
use ledger_pro.Api.Login.{
  Bcrypt, SignupRequest, SignIn, AuthState, LoginConditions, verify_credentials, sign_in,
  login_handler, register, signup_handler,
}
use ledger_pro.Api.Http.{Context, Reply, reply_json, status_of}
use ledger_pro.Db.Users.{
  fits, new_tenant, create_tenant, same_user, new_user, create_user, chosen_row, get_user_by_email,
}
use ledger_pro.Service.Sessions.{create_session}
use ledger_pro.Prelude.{
  ℕ, zero, suc, String, ◌≡◌, refl, ap, ◌∙◌, inl, inr, Bool, true, false, some, List, [], ◌∷◌, ◌++◌,
  append_assoc, arith, str_eq, eq_iff, ◌==◌, ==-refl, Bool-cases, length, where_rows, exists_row,
}
use ledger_pro.Db.Models.{Uuid, Tenant, User}
use ledger_pro.Db.Tables.{Database, ok, Result-cases}
use ledger_pro.Prelude.Text.{◌<>◌}

abbrev pub has_email : String → User → Bool
has_email email r = str_eq r.email email

abbrev pub signup_user : LoginConditions → String → String → User
signup_user c email hash =
    new_user c.new_user_id c.now
      (record { tenant_id = c.new_tenant_id; email = email; password_hash = hash; role = "admin" })

-- A tenant and a user more.
abbrev pub registered_db : LoginConditions → String → String → Database → Database
registered_db c email hash db = record db {
  tenants = db.tenants ++ new_tenant c.new_tenant_id c.now ("Organization of " <> email) ∷ [];
  users = db.users ++ signup_user c email hash ∷ [];
}

-- A registration that succeeds has added the user.
register-ok :
    (c : LoginConditions) (email hash : String) (db : Database) {who : Identity}
    → (register c email hash db).0 ≡ ok who
    → register c email hash db
      ≡ (ok (record { role = "admin"; tenant_id = c.new_tenant_id }), registered_db c email hash db)
unfolding register create_tenant create_user
register-ok c email hash db h = ground arith

-- A signup that answers 201 has registered the user.
signup-registered :
    (b : Bcrypt) (ctx : Context) (c : LoginConditions) (req : SignupRequest) (st : AuthState)
    {r : SignIn} (hash : String)
    → b.generate req.password ≡ some hash
    → (signup_handler b ctx c (some req) st).0 ≡ reply_json 201 r
    → (signup_handler b ctx c (some req) st).1.db ≡ registered_db c req.email hash st.db
unfolding signup_handler sign_in create_session
signup-registered b ctx c req st hash hashed h =
    elim (Result-cases (register c req.email hash st.db).0) [
      | inl (who, e) ↦ ground (arith, hashed, register-ok c req.email hash st.db e)
      | inr (p, e) ↦ absurd (ground (arith, hashed, e))
    ]

-- Nothing fails, the ids drawn for the tenant and the user are new, and the texts fit.
pub record CanRegister (c : LoginConditions) (email hash : String) (db : Database) : Type 0 where
  pub name_fits : fits 255 ("Organization of " <> email) ≡ true
  pub email_fits : fits 255 email ≡ true
  pub hash_fits : fits 255 hash ≡ true
  pub tenant_works : c.tenant_fails ≡ false
  pub user_works : c.user_fails ≡ false
  pub random_works : c.random_fails ≡ false
  pub store_works : c.store_fails ≡ false
  pub new_tenant_id : exists_row (λ r. r.id == c.new_tenant_id) db.tenants ≡ false
  pub new_user_id : exists_row (λ r. r.id == c.new_user_id) db.users ≡ false
  pub no_user_of_it : exists_row (λ r. r.tenant_id == c.new_tenant_id) db.users ≡ false

no_same_user :
    (t : Uuid) (email : String) (us : List User)
    → exists_row (λ r. r.tenant_id == t) us ≡ false
    → exists_row (same_user t email) us ≡ false
no_same_user t email [] h = refl
no_same_user t email (u ∷ us) h = ground (arith, no_same_user t email us)

has_new_tenant :
    (ts : List Tenant) (t : Tenant) → exists_row (λ r. r.id == t.id) (ts ++ t ∷ []) ≡ true
has_new_tenant [] t = ground (arith, ==-refl t.id)
has_new_tenant (x ∷ ts) t = ground (arith, has_new_tenant ts t)

register-created :
    (c : LoginConditions) (email hash : String) (db : Database)
    → CanRegister c email hash db
    → register c email hash db
      ≡ (ok (record { role = "admin"; tenant_id = c.new_tenant_id }), registered_db c email hash db)
unfolding register create_tenant create_user
register-created c email hash db can = ground (
  arith,
  can.name_fits,
  can.email_fits,
  can.hash_fits,
  can.tenant_works,
  can.user_works,
  can.new_tenant_id,
  can.new_user_id,
  no_same_user c.new_tenant_id email db.users can.no_user_of_it,
  has_new_tenant db.tenants (new_tenant c.new_tenant_id c.now ("Organization of " <> email)),
)

signup-created :
    (b : Bcrypt) (ctx : Context) (c : LoginConditions) (email password hash : String)
    (st : AuthState)
    → str_eq email "" ≡ false
    → str_eq password "" ≡ false
    → b.generate password ≡ some hash
    → CanRegister c email hash st.db
    → (signup_handler b ctx c (some (record { email = email; password = password })) st).0
      ≡ reply_json 201 (record { role = "admin"; cookie = c.token })
unfolding signup_handler sign_in create_session
signup-created b ctx c email password hash st e p hashed can =
    rw (e, p, hashed, register-created c email hash st.db can, can.random_works, can.store_works)
      refl

abbrev pub users_of : String → Database → List User
users_of email db = where_rows (has_email email) db.users

users-new :
    (email : String) (us : List User) (u : User)
    → exists_row (has_email email) us ≡ false
    → str_eq u.email email ≡ true
    → where_rows (has_email email) (us ++ u ∷ []) ≡ u ∷ []
users-new email [] u absent same = rw same refl
users-new email (v ∷ us) u absent same = ground (arith, users-new email us u, same)

users-more :
    (email : String) (us : List User) (u : User)
    → str_eq u.email email ≡ true
    → where_rows (has_email email) (us ++ u ∷ []) ≡ where_rows (has_email email) us ++ u ∷ []
users-more email [] u same = rw same refl
users-more email (v ∷ us) u same = elim (Bool-cases (has_email email v)) [
  | inl e ↦ rw e (ap (λ vs. v ∷ vs) (users-more email us u same))
  | inr e ↦ rw e (users-more email us u same)
]

-- A row that is chosen by its place is chosen among more rows too.
chosen_row-before :
    (us vs : List User) (old : User) → chosen_row (length us) (us ++ old ∷ vs) ≡ some old
chosen_row-before [] vs old = refl
chosen_row-before (u ∷ us) vs old = rw (chosen_row-before us vs old) refl

chosen_row-only : (choice : ℕ) (u : User) → chosen_row choice (u ∷ []) ≡ some u
chosen_row-only zero u = refl
chosen_row-only (suc choice) u = refl

-- What a login by e-mail and password answers, by the user that the query finds.
login-found :
    (b : Bcrypt) (keys : List ApiKeyEntry) (ctx : Context) (c : LoginConditions)
    (email password : String) (st : AuthState) (u : User)
    → str_eq email "" ≡ false
    → str_eq password "" ≡ false
    → c.user_query_fails ≡ false
    → c.random_fails ≡ false
    → c.store_fails ≡ false
    → chosen_row c.user_choice (users_of email st.db) ≡ some u
    → b.matches u.password_hash password ≡ true
    → (login_handler b keys ctx c
        (some (record { api_key = ""; email = email; password = password }))
        st).0
      ≡ reply_json 200 (record { role = u.role; cookie = c.token })
unfolding login_handler verify_credentials get_user_by_email sign_in create_session
login-found b keys ctx c email password st u e p q r s found good = ground arith

login-refused :
    (b : Bcrypt) (keys : List ApiKeyEntry) (ctx : Context) (c : LoginConditions)
    (email password : String) (st : AuthState) (u : User)
    → str_eq email "" ≡ false
    → str_eq password "" ≡ false
    → c.user_query_fails ≡ false
    → chosen_row c.user_choice (users_of email st.db) ≡ some u
    → b.matches u.password_hash password ≡ false
    → status_of
        (login_handler b keys ctx c
          (some (record { api_key = ""; email = email; password = password }))
          st).0
      ≡ 401
unfolding login_handler verify_credentials get_user_by_email
login-refused b keys ctx c email password st u e p q found bad = ground arith

-- A user who has signed up with an e-mail address that nobody had, and was answered 201, can log
-- in with that address and password and gets the role admin, if bcrypt agrees with the hash that
-- it made, and the query and Redis work.
pub signup_then_login :
    (b : Bcrypt) (keys : List ApiKeyEntry) (ctx ctx' : Context) (c c' : LoginConditions)
    (email password hash : String) (st : AuthState) (r : SignIn)
    → str_eq email "" ≡ false
    → str_eq password "" ≡ false
    → b.generate password ≡ some hash
    → b.matches hash password ≡ true
    → exists_row (has_email email) st.db.users ≡ false
    → (signup_handler b ctx c (some (record { email = email; password = password })) st).0
      ≡ reply_json 201 r
    → c'.user_query_fails ≡ false
    → c'.random_fails ≡ false
    → c'.store_fails ≡ false
    → (login_handler b keys ctx' c'
        (some (record { api_key = ""; email = email; password = password }))
        (signup_handler b ctx c (some (record { email = email; password = password })) st).1).0
      ≡ reply_json 200 (record { role = "admin"; cookie = c'.token })
signup_then_login b keys ctx ctx' c c' email password hash st r e p hashed good absent created q s
      t =
    let req : SignupRequest = record { email = email; password = password } in
    let user = signup_user c email hash in
    let added = signup-registered b ctx c req st hash hashed created in
    let found = users-new email st.db.users user absent ((eq_iff email email).1 refl) in
    login-found b keys ctx' c' email password (signup_handler b ctx c (some req) st).1 user e p q s
      t
      (ap (λ db. chosen_row c'.user_choice (users_of email db)) added
        ∙ ap (chosen_row c'.user_choice) found
        ∙ chosen_row-only c'.user_choice user)
      good

-- An e-mail address that users of other tenants have is not refused: where nothing fails, the ids
-- drawn are new, and the tenant's name, the address and the hash fit their columns, the signup
-- answers 201. Afterwards the query of a login may get the row of any of these users; where it gets
-- the one of another user, whose hash the new password does not fit, the login answers 401; where it
-- gets the new one, which bcrypt agrees with, the login answers 200.
pub signup_taken_email :
    (b : Bcrypt) (keys : List ApiKeyEntry) (ctx ctx' : Context) (c c' : LoginConditions)
    (email password hash : String) (st : AuthState) (before after : List User) (old : User)
    → str_eq email "" ≡ false
    → str_eq password "" ≡ false
    → b.generate password ≡ some hash
    → b.matches hash password ≡ true
    → users_of email st.db ≡ before ++ old ∷ after
    → b.matches old.password_hash password ≡ false
    → CanRegister c email hash st.db
    → c'.user_query_fails ≡ false
    → c'.random_fails ≡ false
    → c'.store_fails ≡ false
    → let (reply, st') =
        signup_handler b ctx c (some (record { email = email; password = password })) st in
      let login : ℕ → Reply SignIn = λ choice.
        (login_handler b keys ctx'
          (record c' { user_choice = choice })
          (some (record { api_key = ""; email = email; password = password }))
          st').0 in
      (reply ≡ reply_json 201 (record { role = "admin"; cookie = c.token }))
      × (status_of (login (length before)) ≡ 401)
      × (status_of (login (length (before ++ old ∷ after))) ≡ 200)
signup_taken_email b keys ctx ctx' c c' email password hash st before after old e p hashed good
      taken bad can q s t =
    let req : SignupRequest = record { email = email; password = password } in
    let user = signup_user c email hash in
    let created = signup-created b ctx c email password hash st e p hashed can in
    let added = signup-registered b ctx c req st hash hashed created in
    let rows =
      ap (users_of email) added
      ∙ users-more email st.db.users user ((eq_iff email email).1 refl)
      ∙ ap (λ us. us ++ user ∷ []) taken in
    (
      created,
      login-refused b keys ctx' (record c' { user_choice = length before }) email password
          (signup_handler b ctx c (some req) st).1 old e p q
          (ap (chosen_row (length before)) (rows ∙ append_assoc before (old ∷ after) (user ∷ []))
            ∙ chosen_row-before before (after ++ user ∷ []) old)
          bad,
      ap status_of (
          login-found b keys ctx' (record c' { user_choice = length (before ++ old ∷ after) }) email
            password (signup_handler b ctx c (some req) st).1 user e p q s t
            (ap (chosen_row (length (before ++ old ∷ after))) rows
              ∙ chosen_row-before (before ++ old ∷ after) [] user)
            good),
    )
