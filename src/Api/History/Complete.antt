-- ===== src/Api/History/Complete.antt =====
-- internal/api/handler.go: a client of GET /v1/transactions that follows next_cursor sees every
-- transaction, where no two have the same time.
use ledger_pro.Api.History.{CursorParam, no_cursor}
use ledger_pro.Api.Http.{Context}
use ledger_pro.Prelude.Walk.{Paged, walk, walk_complete}
use ledger_pro.Prelude.Falling.{all_earlier}
use ledger_pro.Prelude.{ℕ, ◌+◌, ◌≤◌, ◌<◌, ◌≡◌, refl, ◌∙◌, arith, length}
use ledger_pro.Db.Models.{Timestamp, Transaction}
use ledger_pro.Db.Tables.{Database}
use ledger_pro.Api.History.Pages.{
  ask_transactions, by_time, newest_first, IsTime, TimesDiffer, transactions_before, sorted,
  page_rows, page_end, page_next,
}

-- The list endpoint hands out the transactions of the tenant in pages.
abbrev pub transaction_pages :
    (ctx : Context) (now : Timestamp) (db : Database)
    → TimesDiffer ctx now db
    → Paged Transaction CursorParam (IsTime now)
transaction_pages ctx now db h = record {
  page = ask_transactions ctx now db;
  rest = transactions_before ctx now db;
  page_rows = page_rows ctx now db h;
  page_end = page_end ctx now db h;
  page_next = page_next ctx now db h;
}

-- A client that sends GET /v1/transactions with a page size of 1 to 100, without a cursor first and
-- then with each answer's next_cursor, until there is none, sees every transaction of its tenant
-- exactly once, the newest first, and then stops, if no two of them have the same time, none is a
-- second ahead of the server's clock, no query fails and nothing is written meanwhile; any number of
-- requests above the number of the transactions is enough.
pub transaction_walk_complete :
    (ctx : Context) (now : Timestamp) (n fuel : ℕ) (db : Database)
    → 1 ≤ n
    → n ≤ 100
    → TimesDiffer ctx now db
    → length (newest_first ctx.tenant_id db) < fuel
    → walk (ask_transactions ctx now db) fuel n no_cursor ≡ newest_first ctx.tenant_id db
transaction_walk_complete ctx now n fuel db lo hi h enough =
    let all =
      all_earlier by_time (now + 1000000) (now + 1000000) _ (omega arith) (sorted ctx now db h) in
    walk_complete (transaction_pages ctx now db h) fuel n no_cursor lo hi (now + 1000000, refl)
      (rw all enough)
    ∙ all
