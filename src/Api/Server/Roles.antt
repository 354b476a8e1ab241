-- ===== src/Api/Server/Roles.antt =====
-- internal/api/router.go: only callers with a writing role change the books.
use ledger_pro.Api.Access as Access
use ledger_pro.Api.Server.Handlers.{signup_handler_keeps}
use ledger_pro.Api.Server.{guard, serve}
use ledger_pro.Api.Requests.{RouterConfig, route_of, HttpRequest, Moment, World, documents_of}
use ledger_pro.Api.Server.Writers.{WritersKeep, serve_keeps, SameBooks, IsWriter}
use ledger_pro.Api.Access.{ApiKeyEntry, Identity, writers, allowed_roles}
use ledger_pro.Api.Access.Granted.{access-role}
use ledger_pro.Api.Login.{
  Bcrypt, SignupRequest, AuthState, LoginConditions, register, signup_handler,
}
use ledger_pro.Api.Http.{Context}
use ledger_pro.Db.Users.{create_tenant, create_user}
use ledger_pro.Service.Documents.{StoredObject, DocumentState}
use ledger_pro.Prelude.{
  String, ◌≡◌, refl, ap, ◌∙◌, ◌⊎◌, inl, inr, Option, some, List, [], ◌∷◌, arith,
}
use ledger_pro.Db.Tables.{Database, ok}

SameBooks-refl : (st : DocumentState) → SameBooks st st
SameBooks-refl st = record {
  accounts = refl;
  transactions = refl;
  postings = refl;
  outbox = refl;
  documents = refl;
  objects = refl;
}

-- The ledger's tables, without `tenants` and `users`.
abbrev pub books_of : Database → Database
books_of db = record db { tenants = []; users = [] }

register-books :
    (c : LoginConditions) (email hash : String) (db : Database)
    → books_of (register c email hash db).1 ≡ books_of db
unfolding register create_tenant create_user
register-books c email hash db = ground arith

pub signup_handler-books :
    (b : Bcrypt) (ctx : Context) (c : LoginConditions) (body : Option SignupRequest)
    (st : AuthState)
    → books_of (signup_handler b ctx c body st).1.db ≡ books_of st.db
signup_handler-books b ctx c body st =
    signup_handler_keeps (λ db. books_of db ≡ books_of st.db) b ctx c body st refl
      (λ email hash. register-books c email hash st.db)

books-SameBooks :
    (db db' : Database) (objects : List StoredObject)
    → books_of db' ≡ books_of db
    → SameBooks (record { db = db; objects = objects }) (record { db = db'; objects = objects })
books-SameBooks db db' objects h = record {
  accounts = ap (λ d. d.accounts) h;
  transactions = ap (λ d. d.transactions) h;
  postings = ap (λ d. d.postings) h;
  outbox = ap (λ d. d.ledger_outbox) h;
  documents = ap (λ d. d.documents) h;
  objects = refl;
}

SameBooks-trans : (a b c : DocumentState) → SameBooks a b → SameBooks b c → SameBooks a c
SameBooks-trans a b c h k = record {
  accounts = k.accounts ∙ h.accounts;
  transactions = k.transactions ∙ h.transactions;
  postings = k.postings ∙ h.postings;
  outbox = k.outbox ∙ h.outbox;
  documents = k.documents ∙ h.documents;
  objects = k.objects ∙ h.objects;
}

module _ (cfg : RouterConfig) (m : Moment) (req : HttpRequest) (w : World) (k : ApiKeyEntry)
    (ks : List ApiKeyEntry) (keys : cfg.api_keys ≡ k ∷ ks) where
  -- Whoever comes through to a writing route has a writing role.
  passed-IsWriter :
      (route : Access.Route) (who : Identity)
      → route_of req.target ≡ some route
      → allowed_roles route ≡ some writers
      → (guard cfg m req w).0 ≡ ok who
      → IsWriter cfg m req w
  unfolding guard
  passed-IsWriter route who to_route roles h = record {
    who = who;
    passed = h;
    may_write =
        (access-role k ks m.clock route req.auth w.sessions writers who roles
          (rw (to_route, keys, guard) at h)).1;
  }

  abbrev BooksOrWriter : DocumentState → Type 0
  BooksOrWriter st = SameBooks (documents_of w) st ⊎ IsWriter cfg m req w

  writers-BooksOrWriter :
      (who : Identity)
      → (guard cfg m req w).0 ≡ ok who
      → WritersKeep BooksOrWriter who.tenant_id req.target
  writers-BooksOrWriter who passed = record {
    on_account = λ ctx fails now body st to own h.
        inr (passed-IsWriter Access.create_account who (ap route_of to) refl passed);
    on_transaction = λ ctx c key body s objects to own h.
        inr (passed-IsWriter Access.create_transaction who (ap route_of to) refl passed);
    on_document = λ parse_uuid ctx c i form st to own h.
        inr (passed-IsWriter Access.attach_document who (ap route_of to) refl passed);
    on_signup = λ b ctx c body st objects to h. elim h [
      | inr writer ↦ inr writer
      | inl same ↦ inl (
          SameBooks-trans (documents_of w) (record { db = st.db; objects = objects }) _ same
            (books-SameBooks st.db _ objects (signup_handler-books b ctx c body st)))
    ];
  }

  -- Where API keys are configured, a request changes the accounts, the transactions, the postings,
  -- the outbox, the documents or the objects only if its caller has come through the guards with
  -- the role admin or write.
  pub serve_writers :
      SameBooks (documents_of w) (documents_of (serve cfg m req w).1) ⊎ IsWriter cfg m req w
  serve_writers =
      serve_keeps BooksOrWriter cfg m req w writers-BooksOrWriter
        (inl (SameBooks-refl (documents_of w)))
