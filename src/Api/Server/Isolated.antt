-- ===== src/Api/Server/Isolated.antt =====
-- internal/api/router.go: a request for one tenant changes nothing that another tenant's queries
-- show.
use ledger_pro.Api.Server.{guard, serve}
use ledger_pro.Api.Requests.{RouterConfig, Target, HttpRequest, Moment, World, documents_of}
use ledger_pro.Api.Server.Writers.{WritersKeep, serve_keeps}
use ledger_pro.Api.Server.Handlers.{
  create_account_handler_keeps, create_transaction_handler_keeps, register_keeps,
  signup_handler_keeps, attach_document_handler_keeps,
}
use ledger_pro.Api.Server.Sound.{writers-IsSound}
use ledger_pro.Api.Server.Calls.{IsSound, create_tenant-eq-ok, create_user-eq-ok}
use ledger_pro.Api.Server.Tenants.{
  SameTenantView, SameTenantView-refl, SameTenantView-trans, others-SameTenantView,
  with_document-SameTenantView, with_account-SameTenantView, committed-SameTenantView,
}
use ledger_pro.Db.Accounts.{new_account}
use ledger_pro.Db.Documents.{get_documents_by_transaction}
use ledger_pro.Service.Ledger as Ledger
use ledger_pro.Service.Ledger.{CreateTransactionRequest, LedgerService, Conditions}
use ledger_pro.Service.Ledger.Outcome.{create_transaction-Outcome}
use ledger_pro.Service.Ledger.Safety.{Outcome-db}
use ledger_pro.Service.Queries.{CreateAccountRequest, create_account as open_account}
use ledger_pro.Service.Queries.Ids.{account_params, create_account-eq-ok}
use ledger_pro.Service.Documents.{
  StoredObject, DocumentState, DocumentResponse, DocumentConditions, Upload,
}
use ledger_pro.Service.Documents.Stored.{
  new_row, Attached, stopped, orphaned, attached, attach_document-Attached,
}
use ledger_pro.Api.Access.{Identity}
use ledger_pro.Api.Login.{LoginConditions, register}
use ledger_pro.Prelude.{ℕ, String, ◌≡◌, refl, ◌≢◌, Bool, false, List, arith, ◌==◌}
use ledger_pro.Db.Models.{Uuid, Timestamp, Tenant, User, Account}
use ledger_pro.Db.Tables.{Database, Result, ok}
use ledger_pro.Service.Errors.{ServiceError}

module _ (u tenant : Uuid) (other : (tenant == u) ≡ false) where
  create_account-SameTenantView :
      (fails : Bool) (now : Timestamp) (req : CreateAccountRequest) (st : DocumentState)
      (r : Account × Database)
      → open_account fails now tenant req st.db ≡ ok r
      → IsSound st
      → SameTenantView u st.db r.1
  create_account-SameTenantView fails now req st r e h =
      rw (create_account-eq-ok fails now tenant req st.db e).0 (
        with_account-SameTenantView u st.db h.references.posting_accounts h.ledger.linked
          (new_account now (account_params tenant req) st.db) other)

  create_transaction-SameTenantView :
      (c : Conditions) (req : CreateTransactionRequest) (s : LedgerService)
      (objects : List StoredObject)
      → IsSound (record { db = s.db; objects = objects })
      → SameTenantView u s.db (Ledger.create_transaction c tenant req s).1.db
  create_transaction-SameTenantView c req s objects h =
      Outcome-db (SameTenantView u s.db) c tenant req s (create_transaction-Outcome c tenant req s)
        (SameTenantView-refl u s.db)
        (λ done.
          committed-SameTenantView u s.db h.references.posting_accounts h.ledger.linked c tenant req
            other)

  Attached-SameTenantView :
      (c : DocumentConditions) (tx : Uuid) (p : Upload) (st : DocumentState)
      {r : Result ServiceError DocumentResponse} {st' : DocumentState}
      → Attached c tenant tx p st r st'
      → SameTenantView u st.db st'.db
  Attached-SameTenantView c tx p st (stopped e er es) = rw es (SameTenantView-refl u st.db)
  Attached-SameTenantView c tx p st (orphaned e er es) = rw es (SameTenantView-refl u st.db)
  Attached-SameTenantView c tx p st (attached refers er es) =
      rw es (with_document-SameTenantView u st.db (new_row c tenant tx p) other)

-- New tenants and users are in no query of a tenant's books.
with_users-SameTenantView :
    (u : Uuid) (db : Database) (ts : List Tenant) (us : List User)
    → SameTenantView u db (record db { tenants = ts; users = us })
unfolding get_documents_by_transaction
with_users-SameTenantView u db ts us = others-SameTenantView u db ts us db.documents (λ i. refl)

register-SameTenantView :
    (u : Uuid) (c : LoginConditions) (email hash : String) (db : Database)
    → SameTenantView u db (register c email hash db).1
register-SameTenantView u c email hash db =
    register_keeps (SameTenantView u db) c email hash db (SameTenantView-refl u db)
      (λ t made.
        rw (create_tenant-eq-ok c.new_tenant_id c.now _ db made)
          (with_users-SameTenantView u db _ db.users))
      (λ t v made added.
        let organized : SameTenantView u db t.1 =
          rw (create_tenant-eq-ok c.new_tenant_id c.now _ db made)
            (with_users-SameTenantView u db _ db.users) in
        rw (create_user-eq-ok c.new_user_id c.now _ t.1 added).0 (
          SameTenantView-trans u db t.1 _ organized
            (with_users-SameTenantView u t.1 t.1.tenants _)))

not_same : (a b : ℕ) → a ≢ b → (a == b) ≡ false
not_same a b ne = ground (arith, ne)

-- The database is sound, and shows the tenant what it showed.
abbrev SoundAndSame : Uuid → Database → DocumentState → Type 0
SoundAndSame u db st = IsSound st × SameTenantView u db st.db

writers-SoundAndSame :
    (u : Uuid) (db : Database) (tenant : Uuid) (target : Target)
    → (tenant == u) ≡ false
    → WritersKeep (SoundAndSame u db) tenant target
writers-SoundAndSame u db tenant target other =
    let sound = writers-IsSound tenant target in
    record {
      on_account = λ ctx fails now body st to own h. (
        sound.on_account ctx fails now body st to own h.0,
        SameTenantView-trans u db st.db _ h.1 (
            create_account_handler_keeps (SameTenantView u st.db) ctx fails now body st.db
              (SameTenantView-refl u st.db)
              (λ req r e.
                create_account-SameTenantView u ctx.tenant_id (rw own other) fails now req st r e
                  h.0)),
      );
      on_transaction = λ ctx c key body s objects to own h. (
        sound.on_transaction ctx c key body s objects to own h.0,
        SameTenantView-trans u db s.db _ h.1 (
            create_transaction_handler_keeps (SameTenantView u s.db) ctx c key body s
              (SameTenantView-refl u s.db)
              (λ req.
                create_transaction-SameTenantView u ctx.tenant_id (rw own other) c req s objects
                  h.0)),
      );
      on_document = λ parse_uuid ctx c i form st to own h. (
        sound.on_document parse_uuid ctx c i form st to own h.0,
        attach_document_handler_keeps (λ s. SameTenantView u db s.db) parse_uuid ctx c i st h.1
            (λ tx p. SameTenantView-trans u db st.db _ h.1 (
              Attached-SameTenantView u ctx.tenant_id (rw own other) c tx p st
                (attach_document-Attached c ctx.tenant_id tx p st)))
            form,
      );
      on_signup = λ b ctx c body st objects to h. (
        sound.on_signup b ctx c body st objects to h.0,
        SameTenantView-trans u db st.db _ h.1 (
            signup_handler_keeps (SameTenantView u st.db) b ctx c body st
              (SameTenantView-refl u st.db)
              (λ email hash. register-SameTenantView u c email hash st.db)),
      );
    }

-- On sound tables, a request whose caller comes through the guards for another tenant, or does not
-- come through at all, changes nothing that the queries of this tenant show: its balances, its
-- transactions by id, by key and listed, their postings with the account names, its accounts, their
-- histories, and the documents of its transactions.
pub serve-SameTenantView :
    (cfg : RouterConfig) (m : Moment) (req : HttpRequest) (w : World) (u : Uuid)
    → IsSound (documents_of w)
    → ((who : Identity) → (guard cfg m req w).0 ≡ ok who → who.tenant_id ≢ u)
    → SameTenantView u w.ledger.db (serve cfg m req w).1.ledger.db
serve-SameTenantView cfg m req w u sound foreign =
    (serve_keeps (SoundAndSame u w.ledger.db) cfg m req w
      (λ who e.
        writers-SoundAndSame u w.ledger.db who.tenant_id req.target
          (not_same who.tenant_id u (foreign who e)))
      (sound, SameTenantView-refl u w.ledger.db)).1
