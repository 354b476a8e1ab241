-- ===== src/Api/System.antt =====
-- The whole program: the server of internal/api, and the outbox workers of
-- internal/service/outbox.go on the same table, interleaved.
pub mod Announced
pub mod Consistent
use ledger_pro.Api.Server.{serve}
use ledger_pro.Api.Requests.{RouterConfig, HttpRequest, Moment, World, with_db}
use ledger_pro.Service.Outbox.{OutboxWorker, Round}
use ledger_pro.Service.Outbox.Interleaving.{after_update}
use ledger_pro.Prelude.{ℕ, String, Option, List, []}
use ledger_pro.Db.Models.{LedgerOutbox}

abbrev pub with_outbox : World → List LedgerOutbox → World
with_outbox w rows = with_db w (record w.ledger.db { ledger_outbox = rows })

-- A request is served, or a worker brings what the publish of a fetched event returned, now
-- or long ago, to the table.
pub data SystemStep (cfg : RouterConfig) (worker : OutboxWorker) (w : World) : World → Type 0 where
  serves : (m : Moment) (req : HttpRequest) → SystemStep cfg worker w (serve cfg m req w).1
  updates :
      (round : Round) (i : ℕ) (answer : Option String) (e : LedgerOutbox)
      → SystemStep cfg worker w (
          with_outbox w
            (after_update worker round i answer e
              (record { rows = w.ledger.db.ledger_outbox; sent = [] })).rows)

pub data SystemReachable (cfg : RouterConfig) (worker : OutboxWorker) (start : World)
    : World → Type 0 where
  start_here : SystemReachable cfg worker start start
  one_more :
      {w w' : World}
      → SystemReachable cfg worker start w
      → SystemStep cfg worker w w'
      → SystemReachable cfg worker start w'
