-- ===== src/Api/System/Consistent.antt =====
-- The server and the outbox workers together: the tables stay sound, and the outbox and the
-- transactions stay in step.
use ledger_pro.Api.System.Announced.{announced, IsAnnounced, cons-eq, committed-IsAnnounced}
use ledger_pro.Api.Server.Roles.{signup_handler-books}
use ledger_pro.Api.System.{SystemStep, serves, updates, SystemReachable, start_here, one_more}
use ledger_pro.Api.Requests.{RouterConfig, Target, World, documents_of}
use ledger_pro.Api.Server.Writers.{WritersKeep, serve_keeps}
use ledger_pro.Api.Server.Handlers.{
  create_account_handler_keeps, create_transaction_handler_keeps, attach_document_handler_keeps,
}
use ledger_pro.Api.Server.Sound.{writers-IsSound}
use ledger_pro.Api.Server.Calls.{IsSound}
use ledger_pro.Db.References.{Owned}
use ledger_pro.Db.Outbox.{
  update_rows, published_row, pending_with_id, mark_outbox_event_published, failed_row,
  mark_outbox_event_failed, retried_row, increment_outbox_retry,
}
use ledger_pro.Service.Outbox.{
  OutboxWorker, Round, OutboxState, handle_publish_success, handle_publish_failure,
}
use ledger_pro.Service.Outbox.Interleaving.{after_update}
use ledger_pro.Service.Ledger.Outcome.{create_transaction-Outcome}
use ledger_pro.Service.Ledger.Safety.{Outcome-db}
use ledger_pro.Service.Queries.Ids.{create_account-eq-ok}
use ledger_pro.Service.Documents.{DocumentState, DocumentResponse, DocumentConditions, Upload}
use ledger_pro.Service.Documents.Stored.{
  Attached, stopped, orphaned, attached, attach_document-Attached,
}
use ledger_pro.Prelude.{
  ℕ, ◌+◌, String, ◌≡◌, refl, sym, subst, ◌∙◌, inl, inr, Bool, Option, none, some, List, [], ◌∷◌,
  map, leb, ◌==◌, Bool-cases, All,
}
use ledger_pro.Db.Models.{Uuid, LedgerOutbox}
use ledger_pro.Db.Tables.{Database, Result}
use ledger_pro.Service.Errors.{ServiceError}

-- An update that leaves what the event says, and whose it is.
abbrev Harmless : (LedgerOutbox → LedgerOutbox) → Type 0
Harmless f = (r : LedgerOutbox) → (announced (f r) ≡ announced r) × ((f r).tenant_id ≡ r.tenant_id)

-- The workers' three updates are harmless.
after_update_keeps {ℓ} :
    (P : List LedgerOutbox → Type ℓ) (worker : OutboxWorker) (round : Round) (i : ℕ)
    (answer : Option String) (e : LedgerOutbox) (s : OutboxState)
    → P s.rows
    → ((p : LedgerOutbox → Bool) (f : LedgerOutbox → LedgerOutbox)
        → Harmless f
        → P (update_rows p f s.rows))
    → P (after_update worker round i answer e s).rows
unfolding handle_publish_success handle_publish_failure mark_outbox_event_published
    mark_outbox_event_failed increment_outbox_retry
after_update_keeps P worker round i none e s h k = elim (Bool-cases (round.update_fails i)) [
  | inl f ↦ rw f h
  | inr f ↦ rw f (k (pending_with_id e.id) (published_row round.now) (λ r. (refl, refl)))
]
after_update_keeps P worker round i (some m) e s h k =
    elim (Bool-cases (leb worker.max_retries (e.retry_count + 1))) [
      | inl last ↦ elim (Bool-cases (round.update_fails i)) [
        | inl f ↦ rw (last, f) h
        | inr f ↦ rw (last, f) (k (λ r. r.id == e.id) (failed_row m round.now) (λ r. (refl, refl)))
      ]
      | inr more ↦ elim (Bool-cases (round.update_fails i)) [
        | inl f ↦ rw (more, f) h
        | inr f ↦ rw (more, f) (k (pending_with_id e.id) (retried_row m) (λ r. (refl, refl)))
      ]
    ]

announced-update_rows :
    (p : LedgerOutbox → Bool) (f : LedgerOutbox → LedgerOutbox) (rows : List LedgerOutbox)
    → Harmless f
    → map announced (update_rows p f rows) ≡ map announced rows
announced-update_rows p f [] h = refl
announced-update_rows p f (r ∷ rows) h = elim (Bool-cases (p r)) [
  | inl e ↦ rw e (cons-eq (h r).0 (announced-update_rows p f rows h))
  | inr e ↦ rw e (cons-eq refl (announced-update_rows p f rows h))
]

Owned-update_rows :
    (db : Database) (p : LedgerOutbox → Bool) (f : LedgerOutbox → LedgerOutbox)
    (rows : List LedgerOutbox)
    → Harmless f
    → All (λ r. Owned db r.tenant_id) rows
    → All (λ r. Owned db r.tenant_id) (update_rows p f rows)
Owned-update_rows db p f [] h all = tt
Owned-update_rows db p f (r ∷ rows) h all = elim (Bool-cases (p r)) [
  | inl e ↦ rw e (rw (h r).1 all.0, Owned-update_rows db p f rows h all.1)
  | inr e ↦ rw e (all.0, Owned-update_rows db p f rows h all.1)
]

-- Sound tables, and one event for each transaction.
abbrev pub IsConsistent : DocumentState → Type 0
IsConsistent st = IsSound st × IsAnnounced st.db

with_outbox-IsConsistent :
    (st : DocumentState) (rows : List LedgerOutbox)
    → All (λ r. Owned st.db r.tenant_id) rows
    → map announced rows ≡ map announced st.db.ledger_outbox
    → IsConsistent st
    → IsConsistent (record st { db = record st.db { ledger_outbox = rows } })
with_outbox-IsConsistent st rows own same (s, h) = (
  record {
    ledger = record {
      linked = s.ledger.linked;
      transactions_balance = s.ledger.transactions_balance;
      tenants_balance = s.ledger.tenants_balance;
      unique_keys = s.ledger.unique_keys;
      numbered = s.ledger.numbered;
    };
    references = record {
      users = s.references.users;
      accounts = s.references.accounts;
      transactions = s.references.transactions;
      postings = s.references.postings;
      outbox = own;
      documents = s.references.documents;
      posting_accounts = s.references.posting_accounts;
      document_transactions = s.references.document_transactions;
    };
    account_ids = record {
      rising = s.account_ids.rising;
      drawn = s.account_ids.drawn;
      positive = s.account_ids.positive;
    };
    stored = s.stored;
  },
  same ∙ h,
)

Attached-IsAnnounced :
    (c : DocumentConditions) (tenant tx : Uuid) (u : Upload) (st : DocumentState)
    {r : Result ServiceError DocumentResponse} {st' : DocumentState}
    → Attached c tenant tx u st r st'
    → IsAnnounced st.db
    → IsAnnounced st'.db
Attached-IsAnnounced c tenant tx u st (stopped e er es) h = rw es h
Attached-IsAnnounced c tenant tx u st (orphaned e er es) h = rw es h
Attached-IsAnnounced c tenant tx u st (attached refers er es) h = rw es h

-- The handlers that write.
writers-IsConsistent : (tenant : Uuid) (target : Target) → WritersKeep IsConsistent tenant target
writers-IsConsistent tenant target =
    let sound = writers-IsSound tenant target in
    record {
      on_account = λ ctx fails now body st to own h. (
        sound.on_account ctx fails now body st to own h.0,
        create_account_handler_keeps IsAnnounced ctx fails now body st.db h.1
            (λ req r e. rw (create_account-eq-ok fails now ctx.tenant_id req st.db e).0 h.1),
      );
      on_transaction = λ ctx c key body s objects to own h. (
        sound.on_transaction ctx c key body s objects to own h.0,
        create_transaction_handler_keeps IsAnnounced ctx c key body s h.1 (λ req.
            Outcome-db IsAnnounced c ctx.tenant_id req s
              (create_transaction-Outcome c ctx.tenant_id req s) h.1
              (λ done. committed-IsAnnounced c ctx.tenant_id req s.db h.0.ledger done h.1)),
      );
      on_document = λ parse_uuid ctx c i form st to own h. (
        sound.on_document parse_uuid ctx c i form st to own h.0,
        attach_document_handler_keeps (λ s. IsAnnounced s.db) parse_uuid ctx c i st h.1
            (λ tx u.
              Attached-IsAnnounced c ctx.tenant_id tx u st
                (attach_document-Attached c ctx.tenant_id tx u st) h.1)
            form,
      );
      on_signup = λ b ctx c body st objects to h. (
        sound.on_signup b ctx c body st objects to h.0,
        subst (λ db. IsAnnounced db) (sym (signup_handler-books b ctx c body st)) h.1,
      );
    }

SystemStep-IsConsistent :
    (cfg : RouterConfig) (worker : OutboxWorker) {w w' : World}
    → SystemStep cfg worker w w'
    → IsConsistent (documents_of w)
    → IsConsistent (documents_of w')
SystemStep-IsConsistent cfg worker {w} (serves m req) h =
    serve_keeps IsConsistent cfg m req w (λ who e. writers-IsConsistent who.tenant_id req.target) h
SystemStep-IsConsistent cfg worker {w} (updates round i answer e) h =
    after_update_keeps
      (λ rows.
        IsConsistent
          (record { db = record w.ledger.db { ledger_outbox = rows }; objects = w.objects }))
      worker round i answer e (record { rows = w.ledger.db.ledger_outbox; sent = [] }) h
      (λ p f harmless.
        with_outbox-IsConsistent (documents_of w) (update_rows p f w.ledger.db.ledger_outbox)
          (Owned-update_rows w.ledger.db p f _ harmless h.0.references.outbox)
          (announced-update_rows p f _ harmless) h)

-- If the tables are sound at the start and the outbox has exactly one event for each transaction, in
-- the order of the commits, which says what the tables say (the tenant, the key, the description,
-- the metadata, the time, and the legs in their order), then all of that holds in every state that
-- requests and outbox workers reach together, interleaved in any way.
pub SystemReachable-IsConsistent :
    (cfg : RouterConfig) (worker : OutboxWorker) {start w : World}
    → SystemReachable cfg worker start w
    → IsConsistent (documents_of start)
    → IsConsistent (documents_of w)
SystemReachable-IsConsistent cfg worker start_here h = h
SystemReachable-IsConsistent cfg worker (one_more path step) h =
    SystemStep-IsConsistent cfg worker step (SystemReachable-IsConsistent cfg worker path h)
