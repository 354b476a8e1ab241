-- ===== src/Api/History.antt =====
-- internal/api/handler.go: GetTransaction and ListTransactions.
pub mod Walk
pub mod Pages
pub mod Complete
use ledger_pro.Api.Http.{Context, Reply, reply_json, fail_with}
use ledger_pro.Api.Paging.{requested_size, page_size_too_large}
use ledger_pro.Service.Cache.{TransactionResponse}
use ledger_pro.Service.Queries as Queries
use ledger_pro.Service.Queries.{get_transaction}
use ledger_pro.Prelude.{ℕ, ◌+◌, String, Bool, Option, none, some, List, get_last?}
use ledger_pro.Prelude.Int.{pos}
use ledger_pro.Db.Models.{Uuid, Timestamp, Transaction}
use ledger_pro.Db.Tables.{Database, ok, err}
use ledger_pro.Service.Errors.{transaction_not_found}
use ledger_pro.Prelude.Text.{◌<>◌}
use ledger_pro.Api.Problem.{bad_request, transaction_not_found_problem, internal_error}

-- uuid.Parse is a parameter; so are the queries that fail.
unfoldable pub get_transaction_handler :
    (String → Option Uuid) → Context → Bool → Bool → String → Database → Reply TransactionResponse
get_transaction_handler parse_uuid ctx record_fails postings_fail id_text db =
    elim (parse_uuid id_text) [
      | none ↦ fail_with ctx (bad_request "invalid transaction id — must be a valid UUID")
      | some id ↦ elim (get_transaction record_fails postings_fail ctx.tenant_id id db) [
        | ok r ↦ reply_json 200 r
        | err transaction_not_found ↦ fail_with ctx (
            transaction_not_found_problem
              ("transaction with id " <> (id_text <> " does not exist")))
        | err _ ↦ fail_with ctx (internal_error "failed to get transaction")
      ]
    ]

-- The query parameter `cursor`: absent, or as time.Parse reads it.
pub data CursorParam : Type 0 where
  no_cursor bad_cursor : CursorParam
  cursor_at : Timestamp → CursorParam

pub record TransactionPage : Type 0 where
  pub data_rows : List Transaction
  pub next_cursor : Option Timestamp
  pub page_size : ℕ

-- The time of the last transaction; `none` is the empty text.
abbrev pub last_time : List Transaction → Option Timestamp
last_time txns = elim (get_last? txns) [ none ↦ none | some t ↦ some t.created_at ]

unfoldable pub transaction_page : Context → Bool → Timestamp → ℕ → Database → Reply TransactionPage
transaction_page ctx fails cursor size db =
    elim (Queries.list_transactions fails ctx.tenant_id cursor (pos size) db) [
      | ok txns ↦
          reply_json 200
            (record { data_rows = txns; next_cursor = last_time txns; page_size = size })
      | err e ↦ fail_with ctx (internal_error "failed to list transactions")
    ]

-- Without a cursor the page starts a second after now.
unfoldable pub list_transactions_handler :
    Context → Bool → Timestamp → CursorParam → String → Database → Reply TransactionPage
list_transactions_handler ctx fails now cursor size_text db = elim (requested_size size_text) [
  | none ↦ fail_with ctx page_size_too_large
  | some size ↦ elim cursor [
    | no_cursor ↦ transaction_page ctx fails (now + 1000000) size db
    | bad_cursor ↦ fail_with ctx (bad_request "invalid cursor — must be RFC3339 timestamp")
    | cursor_at t ↦ transaction_page ctx fails t size db
  ]
]
