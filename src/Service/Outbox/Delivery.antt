-- ===== src/Service/Outbox/Delivery.antt =====
-- internal/service/outbox.go: what the status `published` is worth. PublishWithContext has returned
-- no error for the message of every row that has it, which is all that the worker waits for: it asks
-- for no confirmation of the broker. A last failed attempt takes the status away again.
use ledger_pro.Prelude.{
  ℕ, ◌+◌, ◌≤◌, ◌<◌, String, ◌≡◌, refl, sym, subst, ◌∙◌, ◌≢◌, ◌⊎◌, inl, inr, Bool, true, false, ◌&&◌,
  false≢true, List, [], ◌∷◌, arith, ◌==◌, Bool-cases, Option-cases, All, exists_row, All-map,
}
use ledger_pro.Db.Models.{published, LedgerOutbox}
use ledger_pro.Db.Outbox.{
  get_pending_outbox_events, published_row, pending_with_id, failed_row, mark_outbox_event_failed,
  retried_row, increment_outbox_retry,
}
use ledger_pro.Service.Outbox.{
  OutboxWorker, Round, Message, OutboxState, message_of, handle_publish_success,
  handle_publish_failure, publish_event, publish_all, process_batch, run,
}
use ledger_pro.Service.Outbox.Content.{
  without_retries, content, Agrees, IsKeyed, Known, All-update_rows, IsKeyed-update_rows,
  Known-update_rows, published_row-Keeps, failed_row-Keeps, retried_row-Keeps, success_keeps,
  failure_keeps, All-both, fetched-Known,
}

abbrev pub is_published : LedgerOutbox → Bool
is_published r = elim (r.status) [ published ↦ true | _ ↦ false ]

-- One of the messages has this content.
abbrev pub HandedOver : Message → List Message → Type 0
HandedOver c [] = ⊥
HandedOver c (m ∷ sent) = (without_retries m ≡ c) ⊎ HandedOver c sent

-- The message of a published row has been handed over.
abbrev pub IsHandedOver : List Message → LedgerOutbox → Type 0
IsHandedOver sent r = is_published r ≡ true → HandedOver (content r) sent

abbrev pub AllHandedOver : List Message → List LedgerOutbox → Type 0
AllHandedOver sent rows = All (IsHandedOver sent) rows

pub sent-grows :
    (m : Message) (sent : List Message) (rows : List LedgerOutbox)
    → AllHandedOver sent rows
    → AllHandedOver (m ∷ sent) rows
sent-grows m sent rows h = All-map (λ r old p. inr (old p)) rows h

same_id : (e r : LedgerOutbox) → pending_with_id e.id r ≡ true → r.id ≡ e.id
same_id e r q = ground (arith, q)

unpublished : (s : LedgerOutbox) → is_published s ≡ false → is_published s ≢ true
unpublished s e p = false≢true (sym e ∙ p)

module _ (w : Round) (i : ℕ) (e : LedgerOutbox) (sent : List Message) (rows : List LedgerOutbox)
    (h : AllHandedOver sent rows) where
  -- A row is marked whose message has been handed over.
  pub success-AllHandedOver :
      Agrees rows e.id (content e)
      → HandedOver (content e) sent
      → AllHandedOver sent (handle_publish_success w i e rows)
  success-AllHandedOver same given = success_keeps (AllHandedOver sent) w i e rows h (
      All-update_rows (λ r. IsHandedOver sent r × (r.id ≡ e.id → content r ≡ content e))
        (IsHandedOver sent) (pending_with_id e.id) (published_row w.now)
        (λ r both. elim (Bool-cases (pending_with_id e.id r)) [
          | inl q ↦ rw q (λ p. subst (λ c. HandedOver c sent) (sym (both.1 (same_id e r q))) given)
          | inr q ↦ rw q both.0
        ])
        rows (All-both (IsHandedOver sent) (λ r. r.id ≡ e.id → content r ≡ content e) rows h same))

  pub failure-AllHandedOver :
      (cfg : OutboxWorker) (m : String)
      → AllHandedOver sent (handle_publish_failure cfg w i e m rows)
  failure-AllHandedOver cfg m =
      failure_keeps (AllHandedOver sent) w i e rows h cfg m
        (All-update_rows (IsHandedOver sent) (IsHandedOver sent) (λ r. r.id == e.id)
          (failed_row m w.now)
          (λ r old. elim (Bool-cases (r.id == e.id)) [
            | inl q ↦ rw q (λ p. absurd (false≢true p))
            | inr q ↦ rw q old
          ])
          rows h)
        (All-update_rows (IsHandedOver sent) (IsHandedOver sent) (pending_with_id e.id)
          (retried_row m)
          (λ r old. elim (Bool-cases (pending_with_id e.id r)) [
            | inl q ↦ rw q old
            | inr q ↦ rw q old
          ])
          rows h)

-- What a worker's handlers keep of the table beside it.
pub success-IsKeyed :
    (w : Round) (i : ℕ) (e : LedgerOutbox) (rows : List LedgerOutbox)
    → IsKeyed rows
    → IsKeyed (handle_publish_success w i e rows)
success-IsKeyed w i e rows h =
    success_keeps IsKeyed w i e rows h
      (IsKeyed-update_rows _ (published_row w.now) (published_row-Keeps w.now) rows h)

pub failure-IsKeyed :
    (cfg : OutboxWorker) (w : Round) (i : ℕ) (e : LedgerOutbox) (m : String)
    (rows : List LedgerOutbox)
    → IsKeyed rows
    → IsKeyed (handle_publish_failure cfg w i e m rows)
failure-IsKeyed cfg w i e m rows h =
    failure_keeps IsKeyed w i e rows h cfg m
      (IsKeyed-update_rows _ (failed_row m w.now) (failed_row-Keeps m w.now) rows h)
      (IsKeyed-update_rows _ (retried_row m) (retried_row-Keeps m) rows h)

pub success-Known :
    (w : Round) (i : ℕ) (e : LedgerOutbox) (rows : List LedgerOutbox) (d : LedgerOutbox)
    → Known rows d
    → Known (handle_publish_success w i e rows) d
success-Known w i e rows d h =
    success_keeps (λ rs. Known rs d) w i e rows h
      (Known-update_rows _ (published_row w.now) (published_row-Keeps w.now) rows d h)

pub failure-Known :
    (cfg : OutboxWorker) (w : Round) (i : ℕ) (e : LedgerOutbox) (m : String)
    (rows : List LedgerOutbox) (d : LedgerOutbox)
    → Known rows d
    → Known (handle_publish_failure cfg w i e m rows) d
failure-Known cfg w i e m rows d h =
    failure_keeps (λ rs. Known rs d) w i e rows h cfg m
      (Known-update_rows _ (failed_row m w.now) (failed_row-Keeps m w.now) rows d h)
      (Known-update_rows _ (retried_row m) (retried_row-Keeps m) rows d h)

record IsPlain (s : OutboxState) : Type 0 where
  keyed : IsKeyed s.rows
  given : AllHandedOver s.sent s.rows

module _ (cfg : OutboxWorker) (w : Round) where
  publish_event-IsPlain :
      (i : ℕ) (e : LedgerOutbox) (s : OutboxState)
      → Known s.rows e
      → IsPlain s
      → IsPlain (publish_event cfg w i e s)
  unfolding publish_event
  publish_event-IsPlain i e s known h = elim (Option-cases (w.answer i)) [
    | inl a ↦
        rw (a, publish_event)
          (record {
            keyed = success-IsKeyed w i e s.rows h.keyed;
            given =
                success-AllHandedOver w i e (message_of e ∷ s.sent) s.rows
                  (sent-grows (message_of e) s.sent s.rows h.given) known.0 (inl refl);
          })
    | inr (m, a) ↦
        rw (a, publish_event)
          (record {
            keyed = failure-IsKeyed cfg w i e m s.rows h.keyed;
            given = failure-AllHandedOver w i e s.sent s.rows h.given cfg m;
          })
  ]

  publish_event-Known :
      (i : ℕ) (e : LedgerOutbox) (s : OutboxState) (d : LedgerOutbox)
      → Known s.rows d
      → Known (publish_event cfg w i e s).rows d
  unfolding publish_event
  publish_event-Known i e s d h = elim (Option-cases (w.answer i)) [
    | inl a ↦ rw (a, publish_event) (success-Known w i e s.rows d h)
    | inr (m, a) ↦ rw (a, publish_event) (failure-Known cfg w i e m s.rows d h)
  ]

  publish_all-IsPlain :
      (i : ℕ) (es : List LedgerOutbox) (s : OutboxState)
      → All (Known s.rows) es
      → IsPlain s
      → IsPlain (publish_all cfg w i es s)
  unfolding publish_all
  publish_all-IsPlain i [] s known h = h
  publish_all-IsPlain i (e ∷ es) s known h =
      publish_all-IsPlain (i + 1) es (publish_event cfg w i e s)
        (All-map (λ d k. publish_event-Known i e s d k) es known.1)
        (publish_event-IsPlain i e s known.0 h)

  process_batch-IsPlain : (s : OutboxState) → IsPlain s → IsPlain (process_batch cfg w s)
  unfolding process_batch
  process_batch-IsPlain s h = elim (Bool-cases w.fetch_fails) [
    | inl f ↦ simp f h
    | inr f ↦ simp f (
        publish_all-IsPlain 0 (get_pending_outbox_events cfg.batch_size s.rows) s
          (fetched-Known cfg.batch_size s.rows h.keyed) h)
  ]

run-IsPlain :
    (cfg : OutboxWorker) (ws : List Round) (s : OutboxState) → IsPlain s → IsPlain (run cfg ws s)
unfolding run
run-IsPlain cfg [] s h = h
run-IsPlain cfg (w ∷ ws) s h =
    run-IsPlain cfg ws (process_batch cfg w s) (process_batch-IsPlain cfg w s h)

-- After any number of batches, whatever fails: for every row with the status published, a publish
-- that returned no error has handed over a message with the row's routing key, id, time, payload and
-- event type, if that held at the start and rows with one id had one content. Whether the broker has
-- the message is not said: the worker asks for no confirmation.
pub run-AllHandedOver :
    (cfg : OutboxWorker) (ws : List Round) (s : OutboxState)
    → IsKeyed s.rows
    → AllHandedOver s.sent s.rows
    → AllHandedOver (run cfg ws s).sent (run cfg ws s).rows
run-AllHandedOver cfg ws s keyed h =
    (run-IsPlain cfg ws s (record { keyed = keyed; given = h })).given

-- When the last attempt of a fetched event fails and the update goes through, no row of that id
-- is published afterwards, also not one that another worker has meanwhile published and marked:
-- the statement asks for the id alone. While attempts are left, published rows stay published.
pub handle_publish_failure_overwrites :
    (cfg : OutboxWorker) (w : Round) (i : ℕ) (e : LedgerOutbox) (m : String)
    (rows : List LedgerOutbox)
    → w.update_fails i ≡ false
    → let after = handle_publish_failure cfg w i e m rows in
      (cfg.max_retries ≤ e.retry_count + 1
        → exists_row (λ r. (r.id == e.id) && is_published r) after ≡ false)
      × (e.retry_count + 1 < cfg.max_retries
          → exists_row (λ r. (r.id == e.id) && is_published r) after
            ≡ exists_row (λ r. (r.id == e.id) && is_published r) rows)
unfolding handle_publish_failure mark_outbox_event_failed increment_outbox_retry
handle_publish_failure_overwrites cfg w i e m [] up = (ground arith, ground arith)
handle_publish_failure_overwrites cfg w i e m (r ∷ rs) up =
    let rest = handle_publish_failure_overwrites cfg w i e m rs up in
    (λ last. ground (arith, rest.0 last), λ more. ground (arith, rest.1 more))
