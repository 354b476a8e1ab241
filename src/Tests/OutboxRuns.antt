-- ===== src/Tests/OutboxRuns.antt =====
-- The outbox worker on small tables.
use ledger_pro.Service.Outbox.{default_worker, Round, OutboxState, handle_publish_failure, run}
use ledger_pro.Service.Outbox.Interleaving.{
  waiting, working, answered, Fleet, set_phase, after_answer, after_update, polls, publishes,
  updates, Reachable, here, there, IsSound, Reachable-IsSound,
}
use ledger_pro.Service.Outbox.Draining.{IsSteady, run_drains}
use ledger_pro.Service.Outbox.Content.{IsKeyed}
use ledger_pro.Service.Outbox.Delivery.{
  is_published, AllHandedOver, run-AllHandedOver, handle_publish_failure_overwrites,
}
use ledger_pro.Db.Outbox.{is_pending, get_pending_outbox_events}
use ledger_pro.Prelude.{
  ℕ, ◌+◌, ◌≤◌, ◌<◌, ◌≡◌, refl, false, ◌&&◌, false≢true, none, some, List, [], ◌∷◌, arith, ◌==◌,
  exists_row,
}
use ledger_pro.Db.Models.{OutboxStatus, pending, published, TransactionCreatedEvent, LedgerOutbox}

abbrev payload : TransactionCreatedEvent
payload = record {
  event_id = 1;
  event_type = "transaction.created";
  tenant_id = 0;
  transaction_id = 55;
  idempotency_key = "k-1";
  description = "sale";
  postings = [];
  metadata = "{}";
  created_at = 100;
}

abbrev event : ℕ → ℕ → OutboxStatus → LedgerOutbox
event i retries state = record {
  id = i;
  event_type = "transaction.created";
  routing_key = "transaction.created";
  payload = payload;
  status = state;
  retry_count = retries;
  max_retries = 5;
  last_error = some "";
  created_at = 100 + i;
  processed_at = none;
  tenant_id = 0;
}

abbrev queue : OutboxState
queue = record { rows = event 1 4 pending ∷ event 2 0 pending ∷ []; sent = [] }

abbrev refusing : Round
refusing = record {
  now = 900;
  fetch_fails = false;
  answer = λ i. some "channel closed";
  update_fails = λ i. false;
}

abbrev pub accepting : Round
accepting = record refusing { answer = λ i. none }

abbrev rounds : List Round
rounds = refusing ∷ refusing ∷ refusing ∷ refusing ∷ refusing ∷ refusing ∷ refusing ∷ refusing ∷ []

refusing-IsSteady : IsSteady refusing
refusing-IsSteady = record { fetches = refl; updates = λ i. refl }

run_drains_example : exists_row is_pending (run default_worker rounds queue).rows ≡ false
run_drains_example =
    run_drains default_worker rounds queue (omega arith)
      (
        refusing-IsSteady,
        (
          refusing-IsSteady,
          (
            refusing-IsSteady,
            (
              refusing-IsSteady,
              (
                refusing-IsSteady,
                (refusing-IsSteady, (refusing-IsSteady, (refusing-IsSteady, tt))),
              ),
            ),
          ),
        ),
      )
      (omega arith)

queue-IsKeyed : IsKeyed queue.rows
queue-IsKeyed = (
  ((λ e. refl), ((λ e. absurd (omega (arith, e))), tt)),
  (((λ e. absurd (omega (arith, e))), ((λ e. refl), tt)), tt),
)

nothing_published : AllHandedOver queue.sent queue.rows
nothing_published = ((λ h. absurd (false≢true h)), ((λ h. absurd (false≢true h)), tt))

abbrev accepted_once : List Round
accepted_once = accepting ∷ rounds

run-AllHandedOver_example :
    AllHandedOver
      (run default_worker accepted_once queue).sent
      (run default_worker accepted_once queue).rows
run-AllHandedOver_example =
    run-AllHandedOver default_worker accepted_once queue queue-IsKeyed nothing_published

-- Another worker has published the event in the meantime.
overtaken : List LedgerOutbox
overtaken = event 1 4 published ∷ []

handle_publish_failure_overwrites_example :
    let after =
      handle_publish_failure default_worker refusing 0 (event 1 4 pending) "timeout" overtaken in
    (5 ≤ 4 + 1 → exists_row (λ r. (r.id == 1) && is_published r) after ≡ false)
    × (4 + 1 < 5
        → exists_row (λ r. (r.id == 1) && is_published r) after
          ≡ exists_row (λ r. (r.id == 1) && is_published r) overtaken)
handle_publish_failure_overwrites_example =
    handle_publish_failure_overwrites default_worker refusing 0 (event 1 4 pending) "timeout"
      overtaken refl

-- Two workers fetch the same events; both publish the first, and both mark it.
abbrev both_waiting : Fleet
both_waiting = record { state = queue; phases = λ n. waiting }

abbrev batch : List LedgerOutbox
batch = event 1 4 pending ∷ event 2 0 pending ∷ []

fetched : get_pending_outbox_events 50 queue.rows ≡ batch
unfolding get_pending_outbox_events
fetched = refl

abbrev first_done : OutboxState
first_done =
    after_update default_worker accepting 0 none (event 1 4 pending)
      (after_answer none (event 1 4 pending) queue)

abbrev both_polled : Fleet
both_polled = record {
  state = queue;
  phases = set_phase 1 (working batch) (set_phase 0 (working batch) (λ n. waiting));
}

abbrev first_published : Fleet
first_published = record {
  state = after_answer none (event 1 4 pending) queue;
  phases =
      set_phase 0 (answered none (event 1 4 pending) (event 2 0 pending ∷ [])) both_polled.phases;
}

abbrev first_marked : Fleet
first_marked = record {
  state = first_done;
  phases = set_phase 0 (working (event 2 0 pending ∷ [])) first_published.phases;
}

abbrev twice_published : Fleet
twice_published = record {
  state = after_answer none (event 1 4 pending) first_done;
  phases =
      set_phase 1 (answered none (event 1 4 pending) (event 2 0 pending ∷ [])) first_marked.phases;
}

overlapping : Reachable default_worker both_waiting twice_published
unfolding get_pending_outbox_events
overlapping =
    there {f = first_marked} {g = twice_published}
      (there {f = first_published} {g = first_marked}
        (there {f = both_polled} {g = first_published}
          (there
            {f = record both_waiting { phases = set_phase 0 (working batch) both_waiting.phases }}
            {g = both_polled} (there {f = both_waiting} here (polls 0 refl)) (polls 1 refl))
          (publishes 0 none (event 1 4 pending) (event 2 0 pending ∷ []) refl))
        (updates 0 accepting 0 none (event 1 4 pending) (event 2 0 pending ∷ []) refl))
      (publishes 1 none (event 1 4 pending) (event 2 0 pending ∷ []) refl)

both_waiting-IsSound : IsSound both_waiting
both_waiting-IsSound = record { keyed = queue-IsKeyed; rows = nothing_published; phases = λ k. tt }

Reachable-IsSound_example : IsSound twice_published
Reachable-IsSound_example =
    Reachable-IsSound default_worker {start = both_waiting} {f = twice_published}
      both_waiting-IsSound overlapping
