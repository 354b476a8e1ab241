-- ===== src/Api/Server/Handlers.antt =====
-- internal/api: what a handler may do to the database, in terms of the service calls that it makes.
use ledger_pro.Service.Queries.{CreateAccountRequest, create_account as open_account}
use ledger_pro.Service.Ledger as Ledger
use ledger_pro.Service.Ledger.{CreateTransactionRequest, LedgerService, Conditions}
use ledger_pro.Service.Documents.{DocumentState, DocumentConditions, Upload, attach_document}
use ledger_pro.Api.Accounts.{with_currency, create_valid_account, create_account_handler}
use ledger_pro.Api.Transactions.{with_key, handle_valid, create_transaction_handler}
use ledger_pro.Api.Documents.{
  Form, bad_form, no_file, file_part, with_content_type, attach_document_handler,
}
use ledger_pro.Api.Validation.{
  has_errors, validate_create_account_request, validate_create_transaction_request,
}
use ledger_pro.Api.Login.{
  Bcrypt, SignupRequest, AuthState, LoginConditions, sign_in, register, signup_handler,
}
use ledger_pro.Db.Users.{create_tenant, create_user}
use ledger_pro.Api.Http.{Context}
use ledger_pro.Prelude.{
  String, ◌≡◌, inl, inr, Bool, true, false, ◌||◌, Option, none, some, str_eq, Bool-cases,
  Option-cases,
}
use ledger_pro.Prelude.Text.{◌<>◌}
use ledger_pro.Db.Models.{Uuid, Timestamp, Tenant, User, Account}
use ledger_pro.Db.Tables.{Database, DbError, Result, ok, err, Result-cases}
use ledger_pro.Service.Errors.{over_network}

over_network-eq-ok {ℓ} :
    {A : Type ℓ} (fails : Bool) (r : Result DbError A) {a : A}
    → over_network fails r ≡ ok a
    → r ≡ ok a
over_network-eq-ok true r h = cc
over_network-eq-ok false r h = h

module _ {ℓ} (P : Database → Type ℓ) where
  create_valid_account_keeps :
      (ctx : Context) (fails : Bool) (now : Timestamp) (req : CreateAccountRequest) (db : Database)
      → P db
      → ((r : Account × Database) → open_account fails now ctx.tenant_id req db ≡ ok r → P r.1)
      → P (create_valid_account ctx fails now req db).1
  create_valid_account_keeps ctx fails now req db h k =
      elim (Result-cases (open_account fails now ctx.tenant_id req db)) [
        | inl (r, e) ↦ rw (e, create_valid_account) (k r e)
        | inr (x, e) ↦ rw (e, create_valid_account) h
      ]

  pub create_account_handler_keeps :
      (ctx : Context) (fails : Bool) (now : Timestamp) (body : Result String CreateAccountRequest)
      (db : Database)
      → P db
      → ((req : CreateAccountRequest) (r : Account × Database)
          → open_account fails now ctx.tenant_id req db ≡ ok r
          → P r.1)
      → P (create_account_handler ctx fails now body db).1
  unfolding create_account_handler
  create_account_handler_keeps ctx fails now (err message) db h k = h
  create_account_handler_keeps ctx fails now (ok body) db h k =
      elim (Bool-cases (has_errors (validate_create_account_request (with_currency body)))) [
        | inl e ↦ rw (e, create_account_handler) h
        | inr e ↦
            rw (e, create_account_handler)
              (create_valid_account_keeps ctx fails now (with_currency body) db h
                (k (with_currency body)))
      ]

  pub create_transaction_handler_keeps :
      (ctx : Context) (c : Conditions) (key : String)
      (body : Result String CreateTransactionRequest) (s : LedgerService)
      → P s.db
      → ((req : CreateTransactionRequest)
          → P (Ledger.create_transaction c ctx.tenant_id req s).1.db)
      → P (create_transaction_handler ctx c key body s).1.db
  unfolding create_transaction_handler handle_valid
  create_transaction_handler_keeps ctx c key (err message) s h k = h
  create_transaction_handler_keeps ctx c key (ok body) s h k =
      elim (Bool-cases (has_errors (validate_create_transaction_request (with_key key body)))) [
        | inl e ↦ rw (e, create_transaction_handler) h
        | inr e ↦ rw (e, create_transaction_handler) (k (with_key key body))
      ]

  pub register_keeps :
      (c : LoginConditions) (email hash : String) (db : Database)
      → P db
      → ((t : Tenant × Database)
          → create_tenant c.new_tenant_id c.now ("Organization of " <> email) db ≡ ok t
          → P t.1)
      → ((t : Tenant × Database) (u : User × Database)
          → create_tenant c.new_tenant_id c.now ("Organization of " <> email) db ≡ ok t
          → create_user c.new_user_id c.now
              (record { tenant_id = t.0.id; email = email; password_hash = hash; role = "admin" })
              t.1
            ≡ ok u
          → P u.1)
      → P (register c email hash db).1
  unfolding register
  register_keeps c email hash db h after_tenant after_user =
      let made = create_tenant c.new_tenant_id c.now ("Organization of " <> email) db in
      elim (Result-cases (over_network c.tenant_fails made)) [
        | inr (x, e) ↦ rw (e, register) h
        | inl (t, e) ↦
            let tenant_made = over_network-eq-ok c.tenant_fails made e in
            let added =
              create_user c.new_user_id c.now
                (record { tenant_id = t.0.id; email = email; password_hash = hash; role = "admin" })
                t.1 in
            elim (Result-cases (over_network c.user_fails added)) [
              | inr (x, f) ↦ rw (e, f, register) (after_tenant t tenant_made)
              | inl (u, f) ↦
                  rw (e, f, register)
                    (after_user t u tenant_made (over_network-eq-ok c.user_fails added f))
            ]
      ]

  pub signup_handler_keeps :
      (b : Bcrypt) (ctx : Context) (c : LoginConditions) (body : Option SignupRequest)
      (st : AuthState)
      → P st.db
      → ((email hash : String) → P (register c email hash st.db).1)
      → P (signup_handler b ctx c body st).1.db
  unfolding signup_handler sign_in
  signup_handler_keeps b ctx c none st h k = h
  signup_handler_keeps b ctx c (some req) st h k =
      elim (Bool-cases (str_eq req.email "" || str_eq req.password "")) [
        | inl e ↦ rw (e, signup_handler) h
        | inr e ↦ elim (Option-cases (b.generate req.password)) [
          | inl g ↦ rw (e, g, signup_handler) h
          | inr (hash, g) ↦
              let after = k req.email hash in
              elim (Result-cases (register c req.email hash st.db).0) [
                | inl (who, r) ↦ rw (e, g, r, signup_handler) after
                | inr (p, r) ↦ rw (e, g, r, signup_handler) after
              ]
        ]
      ]

module _ {ℓ} (P : DocumentState → Type ℓ) (parse_uuid : String → Option Uuid) (ctx : Context)
    (c : DocumentConditions) (i : String) (st : DocumentState) (h : P st)
    (k : (tx : Uuid) (u : Upload) → P (attach_document c ctx.tenant_id tx u st).1) where
  known_transaction_keeps :
      (tx : Uuid) (form : Form)
      → parse_uuid i ≡ some tx
      → P (attach_document_handler parse_uuid ctx c i form st).1
  unfolding attach_document_handler
  known_transaction_keeps tx bad_form e = rw (e, attach_document_handler) h
  known_transaction_keeps tx no_file e = rw (e, attach_document_handler) h
  known_transaction_keeps tx (file_part u) e =
      rw (e, attach_document_handler) (k tx (with_content_type u))

  pub attach_document_handler_keeps :
      (form : Form) → P (attach_document_handler parse_uuid ctx c i form st).1
  unfolding attach_document_handler
  attach_document_handler_keeps form = elim (Option-cases (parse_uuid i)) [
    | inl e ↦ rw (e, attach_document_handler) h
    | inr (tx, e) ↦ known_transaction_keeps tx form e
  ]
