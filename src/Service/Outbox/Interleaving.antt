-- ===== src/Service/Outbox/Interleaving.antt =====
-- internal/service/outbox.go: several workers on one table, interleaved call by call, while
-- transactions add events.
use ledger_pro.Db.Outbox.{get_pending_outbox_events}
use ledger_pro.Service.Outbox.{
  OutboxWorker, Round, Message, OutboxState, message_of, handle_publish_success,
  handle_publish_failure,
}
use ledger_pro.Service.Outbox.Content.{
  content, IsKeyed, Known, fetched-Known, appended-Known, appended-IsKeyed,
}
use ledger_pro.Service.Outbox.Delivery.{
  is_published, HandedOver, IsHandedOver, AllHandedOver, sent-grows, success-AllHandedOver,
  failure-AllHandedOver, success-IsKeyed, failure-IsKeyed, success-Known, failure-Known,
}
use ledger_pro.Prelude.{
  ℕ, String, ◌≡◌, refl, sym, subst, ◌∙◌, inl, inr, false, false≢true, Option, none, some, List, [],
  ◌∷◌, ◌++◌, ◌==◌, if◌then◌else◌, Bool-cases, All, exists_row, All-append, All-map,
}
use ledger_pro.Db.Models.{LedgerOutbox}

-- Where a worker stands: between polls, with the rest of its batch, or with what PublishWithContext
-- has returned for an event, before the update.
pub data Phase : Type 0 where
  waiting : Phase
  working : List LedgerOutbox → Phase
  answered : Option String → LedgerOutbox → List LedgerOutbox → Phase

pub record Fleet : Type 0 where
  pub state : OutboxState
  pub phases : ℕ → Phase

abbrev pub set_phase : ℕ → Phase → (ℕ → Phase) → ℕ → Phase
set_phase k p phases n = if n == k then p else phases n

abbrev pub after_answer : Option String → LedgerOutbox → OutboxState → OutboxState
after_answer none e s = record s { sent = message_of e ∷ s.sent }
after_answer (some m) e s = s

abbrev pub after_update :
    OutboxWorker → Round → ℕ → Option String → LedgerOutbox → OutboxState → OutboxState
after_update cfg w i none e s = record s { rows = handle_publish_success w i e s.rows }
after_update cfg w i (some m) e s = record s { rows = handle_publish_failure cfg w i e m s.rows }

-- One call of one worker, or the commit of a new event under a new id.
pub data Step (cfg : OutboxWorker) (f : Fleet) : Fleet → Type 0 where
  polls :
      (k : ℕ)
      → f.phases k ≡ waiting
      → Step cfg f (record f {
        phases =
            set_phase k (working (get_pending_outbox_events cfg.batch_size f.state.rows)) f.phases;
      })
  publishes :
      (k : ℕ) (answer : Option String) (e : LedgerOutbox) (es : List LedgerOutbox)
      → f.phases k ≡ working (e ∷ es)
      → Step cfg f (record {
        state = after_answer answer e f.state;
        phases = set_phase k (answered answer e es) f.phases;
      })
  updates :
      (k : ℕ) (w : Round) (i : ℕ) (answer : Option String) (e : LedgerOutbox)
      (es : List LedgerOutbox)
      → f.phases k ≡ answered answer e es
      → Step cfg f (record {
        state = after_update cfg w i answer e f.state;
        phases = set_phase k (working es) f.phases;
      })
  rests :
      (k : ℕ)
      → f.phases k ≡ working []
      → Step cfg f (record f { phases = set_phase k waiting f.phases })
  commits :
      (e : LedgerOutbox)
      → is_published e ≡ false
      → exists_row (λ r. r.id == e.id) f.state.rows ≡ false
      → Step cfg f (record f { state = record f.state { rows = f.state.rows ++ e ∷ [] } })

pub data Reachable (cfg : OutboxWorker) (start : Fleet) : Fleet → Type 0 where
  here : Reachable cfg start start
  there : {f g : Fleet} → Reachable cfg start f → Step cfg f g → Reachable cfg start g

-- What a worker has fetched is known, and what it is about to mark has been handed over.
abbrev pub PhaseSound : OutboxState → Phase → Type 0
PhaseSound s waiting = Unit
PhaseSound s (working es) = All (Known s.rows) es
PhaseSound s (answered none e es) =
    HandedOver (content e) s.sent × Known s.rows e × All (Known s.rows) es
PhaseSound s (answered (some m) e es) = Known s.rows e × All (Known s.rows) es

pub record IsSound (f : Fleet) : Type 0 where
  pub keyed : IsKeyed f.state.rows
  pub rows : AllHandedOver f.state.sent f.state.rows
  pub phases : (k : ℕ) → PhaseSound f.state (f.phases k)

set_phase-PhaseSound :
    (s : OutboxState) (k : ℕ) (p : Phase) (phases : ℕ → Phase)
    → PhaseSound s p
    → ((n : ℕ) → PhaseSound s (phases n))
    → (n : ℕ) → PhaseSound s (set_phase k p phases n)
set_phase-PhaseSound s k p phases hp h n = elim (Bool-cases (n == k)) [
  | inl e ↦ rw e hp
  | inr e ↦ rw e (h n)
]

-- A change of the state that keeps what is known and what has been handed over.
PhaseSound-later :
    (s s' : OutboxState) (p : Phase)
    → ((e : LedgerOutbox) → Known s.rows e → Known s'.rows e)
    → ((c : Message) → HandedOver c s.sent → HandedOver c s'.sent)
    → PhaseSound s p
    → PhaseSound s' p
PhaseSound-later s s' waiting known given h = tt
PhaseSound-later s s' (working es) known given h = All-map known es h
PhaseSound-later s s' (answered none e es) known given h =
    (given (content e) h.0, known e h.1, All-map known es h.2)
PhaseSound-later s s' (answered (some m) e es) known given h = (known e h.0, All-map known es h.1)

after_answer-PhaseSound :
    (answer : Option String) (e : LedgerOutbox) (es : List LedgerOutbox) (s : OutboxState)
    → All (Known s.rows) (e ∷ es)
    → PhaseSound (after_answer answer e s) (answered answer e es)
after_answer-PhaseSound none e es s h = (inl refl, h.0, h.1)
after_answer-PhaseSound (some m) e es s h = (h.0, h.1)

answer-IsSound :
    (k : ℕ) (answer : Option String) (e : LedgerOutbox) (es : List LedgerOutbox) (f : Fleet)
    → All (Known f.state.rows) (e ∷ es)
    → IsSound f
    → IsSound (record {
      state = after_answer answer e f.state;
      phases = set_phase k (answered answer e es) f.phases;
    })
answer-IsSound k (some m) e es f known h = record {
  keyed = h.keyed;
  rows = h.rows;
  phases =
      set_phase-PhaseSound f.state k (answered (some m) e es) f.phases
        (after_answer-PhaseSound (some m) e es f.state known) h.phases;
}
answer-IsSound k none e es f known h = record {
  keyed = h.keyed;
  rows = sent-grows (message_of e) f.state.sent f.state.rows h.rows;
  phases =
      set_phase-PhaseSound (after_answer none e f.state) k (answered none e es) f.phases
        (after_answer-PhaseSound none e es f.state known)
        (λ n.
          PhaseSound-later f.state (after_answer none e f.state) (f.phases n) (λ d g. g)
            (λ c g. inr g) (h.phases n));
}

update-IsSound :
    (cfg : OutboxWorker) (k : ℕ) (w : Round) (i : ℕ) (answer : Option String) (e : LedgerOutbox)
    (es : List LedgerOutbox) (f : Fleet)
    → PhaseSound f.state (answered answer e es)
    → IsSound f
    → IsSound (record {
      state = after_update cfg w i answer e f.state;
      phases = set_phase k (working es) f.phases;
    })
update-IsSound cfg k w i none e es f at h =
    let s' = after_update cfg w i none e f.state in
    let known =
      λ (d : LedgerOutbox) (g : Known f.state.rows d). success-Known w i e f.state.rows d g in
    record {
      keyed = success-IsKeyed w i e f.state.rows h.keyed;
      rows = success-AllHandedOver w i e f.state.sent f.state.rows h.rows at.1.0 at.0;
      phases =
          set_phase-PhaseSound s' k (working es) f.phases (All-map known es at.2)
            (λ n. PhaseSound-later f.state s' (f.phases n) known (λ c g. g) (h.phases n));
    }
update-IsSound cfg k w i (some m) e es f at h =
    let s' = after_update cfg w i (some m) e f.state in
    let known =
      λ (d : LedgerOutbox) (g : Known f.state.rows d). failure-Known cfg w i e m f.state.rows d g in
    record {
      keyed = failure-IsKeyed cfg w i e m f.state.rows h.keyed;
      rows = failure-AllHandedOver w i e f.state.sent f.state.rows h.rows cfg m;
      phases =
          set_phase-PhaseSound s' k (working es) f.phases (All-map known es at.1)
            (λ n. PhaseSound-later f.state s' (f.phases n) known (λ c g. g) (h.phases n));
    }

Step-IsSound : (cfg : OutboxWorker) {f g : Fleet} → Step cfg f g → IsSound f → IsSound g
Step-IsSound cfg {f} (polls k e) h = record {
  keyed = h.keyed;
  rows = h.rows;
  phases =
      set_phase-PhaseSound f.state k _ f.phases (fetched-Known cfg.batch_size f.state.rows h.keyed)
        h.phases;
}
Step-IsSound cfg {f} (publishes k answer e es at) h =
    answer-IsSound k answer e es f (subst (PhaseSound f.state) at (h.phases k)) h
Step-IsSound cfg {f} (updates k w i answer e es at) h =
    update-IsSound cfg k w i answer e es f (subst (PhaseSound f.state) at (h.phases k)) h
Step-IsSound cfg {f} (rests k e) h = record {
  keyed = h.keyed;
  rows = h.rows;
  phases = set_phase-PhaseSound f.state k waiting f.phases tt h.phases;
}
Step-IsSound cfg {f} (commits e unpublished fresh) h = record {
  keyed = appended-IsKeyed f.state.rows e fresh h.keyed;
  rows =
      All-append (IsHandedOver f.state.sent) f.state.rows (e ∷ [])
        (λ p. absurd (false≢true (sym unpublished ∙ p)), tt) h.rows;
  phases = λ n.
      PhaseSound-later f.state (record f.state { rows = f.state.rows ++ e ∷ [] }) (f.phases n)
        (λ d g. appended-Known f.state.rows e d fresh g) (λ c g. g) (h.phases n);
}

-- However many workers poll, publish and update on one table, interleaved call by call, with
-- whatever answers and failures, and while new events that are not published come in under new ids:
-- for every row with the status published, and every one that a worker is about to mark, a publish
-- that returned no error has handed over a message with the row's routing key, id, time, payload and
-- event type, if at the start that held, rows with one id had one content, and workers held rows of
-- the table. Whether the broker has the message is not said: the workers ask for no confirmation.
pub Reachable-IsSound :
    (cfg : OutboxWorker) {start f : Fleet} → IsSound start → Reachable cfg start f → IsSound f
Reachable-IsSound cfg sound here = sound
Reachable-IsSound cfg sound (there path step) =
    Step-IsSound cfg step (Reachable-IsSound cfg sound path)
