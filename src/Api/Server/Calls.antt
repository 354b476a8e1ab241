-- ===== src/Api/Server/Calls.antt =====
-- internal/service, internal/db: what holds of the database and the object store in every state that
-- the server reaches, and that each call of the services keeps it.
use ledger_pro.Api.Server.Handlers.{register_keeps}
use ledger_pro.Db.References.{
  Owned, IsReferential, with_tenant-IsReferential, with_user-IsReferential,
  with_account-IsReferential, with_document-IsReferential,
}
use ledger_pro.Db.Accounts.{new_account}
use ledger_pro.Db.Users.{new_tenant, create_tenant, CreateUserParams, new_user, create_user}
use ledger_pro.Prelude.Paging.{Rising}
use ledger_pro.Service.Ledger as Ledger
use ledger_pro.Service.Ledger.{CreateTransactionRequest, LedgerService, Conditions}
use ledger_pro.Service.Ledger.Commit.{committed_db, IsCommitted}
use ledger_pro.Service.Ledger.Invariant.{IsValid, committed-IsValid}
use ledger_pro.Service.Ledger.Outcome.{create_transaction-Outcome}
use ledger_pro.Service.Ledger.Safety.{Outcome-db}
use ledger_pro.Service.Ledger.References.{committed-IsReferential}
use ledger_pro.Service.Queries.{CreateAccountRequest, create_account as open_account}
use ledger_pro.Service.Queries.Ids.{
  Rising-append, account_params, with_account, create_account-eq-ok,
}
use ledger_pro.Service.Documents.{
  StoredObject, DocumentState, DocumentResponse, DocumentConditions, Upload, attach_document,
}
use ledger_pro.Service.Documents.Stored.{
  AllStored, new_row, Attached, stopped, orphaned, attached, attach_document-Attached,
  attach_document-AllStored,
}
use ledger_pro.Api.Login.{LoginConditions, register}
use ledger_pro.Prelude.{
  ℕ, ◌+◌, ◌≤◌, ◌<◌, String, ◌≡◌, refl, sym, subst, Bool, List, [], ◌∷◌, ◌++◌, arith, All,
  All-append, All-map,
}
use ledger_pro.Prelude.Text.{◌<>◌}
use ledger_pro.Db.Models.{Uuid, Timestamp, Tenant, User, Account, Document}
use ledger_pro.Db.Tables.{Database, Result, ok}
use ledger_pro.Service.Errors.{ServiceError}

-- The ids of the accounts rise from 1 and stay below the sequence.
pub record AccountIds (db : Database) : Type 0 where
  pub rising : Rising (λ a. a.id) 1 db.accounts
  pub drawn : All (λ a. a.id < db.accounts_id_seq) db.accounts
  pub positive : 1 ≤ db.accounts_id_seq

pub record IsSound (st : DocumentState) : Type 0 where
  pub ledger : IsValid st.db
  pub references : IsReferential st.db
  pub account_ids : AccountIds st.db
  pub stored : AllStored st

-- The ledger's invariant looks at the transactions and the postings only.
pub IsValid-other :
    (db : Database) (ts : List Tenant) (us : List User) (cs : List Account) (ds : List Document)
    (seq : ℕ)
    → IsValid db
    → IsValid (record db {
      tenants = ts;
      users = us;
      accounts = cs;
      documents = ds;
      accounts_id_seq = seq;
    })
IsValid-other db ts us cs ds seq h = record {
  linked = h.linked;
  transactions_balance = h.transactions_balance;
  tenants_balance = h.tenants_balance;
  unique_keys = h.unique_keys;
  numbered = h.numbered;
}

AccountIds-other :
    (db : Database) (ts : List Tenant) (us : List User) (ds : List Document)
    → AccountIds db
    → AccountIds (record db { tenants = ts; users = us; documents = ds })
AccountIds-other db ts us ds h = record {
  rising = h.rising;
  drawn = h.drawn;
  positive = h.positive;
}

pub committed-IsSound :
    (c : Conditions) (tenant : Uuid) (req : CreateTransactionRequest) (st : DocumentState)
    → IsCommitted c tenant req st.db
    → IsSound st
    → IsSound (record st { db = committed_db c tenant req st.db })
committed-IsSound c tenant req st done h = record {
  ledger = committed-IsValid c tenant req st.db h.ledger done;
  references = committed-IsReferential c tenant req st.db done h.references;
  account_ids = record {
    rising = h.account_ids.rising;
    drawn = h.account_ids.drawn;
    positive = h.account_ids.positive;
  };
  stored = h.stored;
}

pub create_transaction-IsSound :
    (c : Conditions) (tenant : Uuid) (req : CreateTransactionRequest) (s : LedgerService)
    (objects : List StoredObject)
    → IsSound (record { db = s.db; objects = objects })
    → IsSound (record { db = (Ledger.create_transaction c tenant req s).1.db; objects = objects })
create_transaction-IsSound c tenant req s objects h =
    Outcome-db (λ db. IsSound (record { db = db; objects = objects })) c tenant req s
      (create_transaction-Outcome c tenant req s) h
      (λ done. committed-IsSound c tenant req (record { db = s.db; objects = objects }) done h)

with_account-AccountIds :
    (db : Database) (row : Account)
    → row.id ≡ db.accounts_id_seq
    → AccountIds db
    → AccountIds (with_account db row)
with_account-AccountIds db row e h = record {
  rising = Rising-append 1 db.accounts row h.rising (rw e h.drawn) (rw e h.positive);
  drawn =
      All-append (λ a. a.id < row.id + 1) db.accounts (row ∷ []) (omega arith, tt)
        (All-map (λ a lt. omega (arith, lt, e)) db.accounts h.drawn);
  positive = omega arith;
}

pub create_account-IsSound :
    (fails : Bool) (now : Timestamp) (tenant : Uuid) (req : CreateAccountRequest)
    (st : DocumentState) (r : Account × Database)
    → open_account fails now tenant req st.db ≡ ok r
    → IsSound st
    → IsSound (record st { db = r.1 })
create_account-IsSound fails now tenant req st r e h =
    let (made, known, unused, owner) = create_account-eq-ok fails now tenant req st.db e in
    let row = new_account now (account_params tenant req) st.db in
    rw made (record {
      ledger = IsValid-other st.db _ _ _ _ _ h.ledger;
      references = with_account-IsReferential st.db row (row.id + 1) owner h.references;
      account_ids = with_account-AccountIds st.db row refl h.account_ids;
      stored = h.stored;
    })

-- The objects are looked at by `stored` only.
Attached-IsSound :
    (c : DocumentConditions) (tenant tx : Uuid) (u : Upload) (st : DocumentState)
    {r : Result ServiceError DocumentResponse} {st' : DocumentState}
    → Attached c tenant tx u st r st'
    → IsSound st
    → AllStored st'
    → IsSound st'
Attached-IsSound c tenant tx u st (stopped e er es) h all = subst IsSound (sym es) h
Attached-IsSound c tenant tx u st (orphaned e er es) h all = subst IsSound (sym es) (record {
  ledger = h.ledger;
  references = h.references;
  account_ids = h.account_ids;
  stored = subst AllStored es all;
})
Attached-IsSound c tenant tx u st (attached refers er es) h all = subst IsSound (sym es) (record {
  ledger = IsValid-other st.db _ _ _ _ _ h.ledger;
  references =
      with_document-IsReferential st.db (new_row c tenant tx u) refers.0 refers.1 h.references;
  account_ids = AccountIds-other st.db _ _ _ h.account_ids;
  stored = subst AllStored es all;
})

pub attach_document-IsSound :
    (c : DocumentConditions) (tenant tx : Uuid) (u : Upload) (st : DocumentState)
    → IsSound st
    → IsSound (attach_document c tenant tx u st).1
attach_document-IsSound c tenant tx u st h =
    Attached-IsSound c tenant tx u st (attach_document-Attached c tenant tx u st) h
      (attach_document-AllStored c tenant tx u st h.stored).0

with_tenant-IsSound :
    (st : DocumentState) (row : Tenant)
    → IsSound st
    → IsSound (record st { db = record st.db { tenants = st.db.tenants ++ row ∷ [] } })
with_tenant-IsSound st row h = record {
  ledger = IsValid-other st.db _ _ _ _ _ h.ledger;
  references = with_tenant-IsReferential st.db row h.references;
  account_ids = AccountIds-other st.db _ _ _ h.account_ids;
  stored = h.stored;
}

with_user-IsSound :
    (st : DocumentState) (row : User)
    → Owned st.db row.tenant_id
    → IsSound st
    → IsSound (record st { db = record st.db { users = st.db.users ++ row ∷ [] } })
with_user-IsSound st row own h = record {
  ledger = IsValid-other st.db _ _ _ _ _ h.ledger;
  references = with_user-IsReferential st.db row own h.references;
  account_ids = AccountIds-other st.db _ _ _ h.account_ids;
  stored = h.stored;
}

pub create_tenant-eq-ok :
    (new_id now : ℕ) (name : String) (db : Database) {t : Tenant × Database}
    → create_tenant new_id now name db ≡ ok t
    → t ≡ (
      new_tenant new_id now name,
      record db { tenants = db.tenants ++ new_tenant new_id now name ∷ [] },
    )
unfolding create_tenant
create_tenant-eq-ok new_id now name db h = ground arith

pub create_user-eq-ok :
    (new_id now : ℕ) (arg : CreateUserParams) (db : Database) {u : User × Database}
    → create_user new_id now arg db ≡ ok u
    → (u
        ≡ (new_user new_id now arg, record db { users = db.users ++ new_user new_id now arg ∷ [] }))
      × Owned db arg.tenant_id
unfolding create_user
create_user-eq-ok new_id now arg db h = ground arith

pub register-IsSound :
    (c : LoginConditions) (email hash : String) (st : DocumentState)
    → IsSound st
    → IsSound (record st { db = (register c email hash st.db).1 })
register-IsSound c email hash st h =
    let organization = "Organization of " <> email in
    register_keeps (λ db. IsSound (record st { db = db })) c email hash st.db h
      (λ t made.
        rw (create_tenant-eq-ok c.new_tenant_id c.now organization st.db made)
          (with_tenant-IsSound st (new_tenant c.new_tenant_id c.now organization) h))
      (λ t u made added.
        let with_tenant : IsSound (record st { db = t.1 }) =
          rw (create_tenant-eq-ok c.new_tenant_id c.now organization st.db made)
            (with_tenant-IsSound st (new_tenant c.new_tenant_id c.now organization) h) in
        let (e, own) = create_user-eq-ok c.new_user_id c.now _ t.1 added in
        rw e (with_user-IsSound (record st { db = t.1 }) _ own with_tenant))
