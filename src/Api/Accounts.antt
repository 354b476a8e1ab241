-- ===== src/Api/Accounts.antt =====
-- internal/api/handler.go: the account handlers. A path or query parameter is the text in the
-- request; the Boolean arguments say which queries fail.
pub mod Pages
pub mod Walk
pub mod Offset
use ledger_pro.Prelude.Parse.{parse_int, bits64, to_int32}
use ledger_pro.Api.Http.{Context, Reply, reply_json, fail_with}
use ledger_pro.Api.Paging.{requested_size, page_size_too_large}
use ledger_pro.Api.Validation.{has_errors, to_problem, validate_create_account_request}
use ledger_pro.Db.History.{AccountPostingRow}
use ledger_pro.Service.Queries as Queries
use ledger_pro.Service.Queries.{CreateAccountRequest, BalanceResponse}
use ledger_pro.Prelude.{ℕ, String, Bool, none, some, List, str_eq, if◌then◌else◌, length, get_last?}
use ledger_pro.Prelude.Int.{ℤ, pos, add64, signed64}
use ledger_pro.Db.Models.{Timestamp, Account}
use ledger_pro.Db.Tables.{Database, Result, ok, err}
use ledger_pro.Service.Errors.{ServiceError, account_not_found}
use ledger_pro.Prelude.Text.{◌<>◌, decimal_ℤ}
use ledger_pro.Api.Problem.{ProblemDetail, bad_request, account_not_found_problem, internal_error}

-- `if req.Currency == ""`
abbrev pub with_currency : CreateAccountRequest → CreateAccountRequest
with_currency req = if str_eq req.currency "" then record req { currency = "INR" } else req

abbrev pub create_valid_account :
    Context → Bool → Timestamp → CreateAccountRequest → Database → Reply Account × Database
create_valid_account ctx fails now req db =
    elim (Queries.create_account fails now ctx.tenant_id req db) [
      | ok r ↦ (reply_json 201 r.0, r.1)
      | err e ↦ (fail_with ctx (internal_error "failed to create account"), db)
    ]

unfoldable pub create_account_handler :
    Context
    → Bool
    → Timestamp
    → Result String CreateAccountRequest
    → Database
    → Reply Account × Database
create_account_handler ctx fails now (err message) db =
    (fail_with ctx (bad_request ("invalid request body: " <> message)), db)
create_account_handler ctx fails now (ok body) db =
    let req = with_currency body in
    let errors = validate_create_account_request req in
    if has_errors errors
    then (fail_with ctx (to_problem errors), db)
    else create_valid_account ctx fails now req db

abbrev pub invalid_account_id : ProblemDetail
invalid_account_id = bad_request "invalid account id — must be an integer"

-- The two answers to an error of a call about one account.
abbrev pub account_problem : ℤ → String → ServiceError → ProblemDetail
account_problem i message account_not_found =
    account_not_found_problem ("account with id " <> (decimal_ℤ i <> " does not exist"))
account_problem i message _ = internal_error message

unfoldable pub get_account_handler : Context → Bool → String → Database → Reply Account
get_account_handler ctx fails id_text db =
    let id = parse_int id_text in
    if id.valid
    then elim (Queries.get_account fails ctx.tenant_id (bits64 id.value) db) [
      | ok account ↦ reply_json 200 account
      | err e ↦ fail_with ctx (account_problem id.value "failed to get account" e)
    ]
    else fail_with ctx invalid_account_id

pub record AccountPage : Type 0 where
  pub data_rows : List Account
  pub next_cursor : ℕ
  pub page_size : ℕ

-- The id of the last account, or 0 where there is none.
abbrev pub last_id : List Account → ℕ
last_id accounts = elim (get_last? accounts) [ none ↦ 0 | some a ↦ a.id ]

unfoldable pub account_page : Context → Bool → ℕ → ℕ → Database → Reply AccountPage
account_page ctx fails cursor size db =
    elim (Queries.list_accounts fails ctx.tenant_id cursor (pos size) db) [
      | ok accounts ↦
          reply_json 200
            (record { data_rows = accounts; next_cursor = last_id accounts; page_size = size })
      | err e ↦ fail_with ctx (internal_error "failed to list accounts")
    ]

-- The error of ParseInt on the cursor is dropped.
unfoldable pub list_accounts_handler :
    Context → Bool → String → String → Database → Reply AccountPage
list_accounts_handler ctx fails cursor_text size_text db = elim (requested_size size_text) [
  | none ↦ fail_with ctx page_size_too_large
  | some size ↦ account_page ctx fails (bits64 (parse_int cursor_text).value) size db
]

unfoldable pub get_account_balance_handler :
    Context → Bool → Bool → String → Database → Reply BalanceResponse
get_account_balance_handler ctx account_fails balance_fails id_text db =
    let id = parse_int id_text in
    if id.valid
    then elim (Queries.get_account_balance account_fails balance_fails ctx.tenant_id
        (bits64 id.value) db) [
          | ok balance ↦ reply_json 200 balance
          | err e ↦ fail_with ctx (account_problem id.value "failed to get balance" e)
        ]
    else fail_with ctx invalid_account_id

pub record PostingPage : Type 0 where
  pub data_rows : List AccountPostingRow
  pub offset : ℤ
  pub page_size : ℕ

-- offset + len(postings), on int64.
abbrev pub advance : ℤ → ℕ → ℤ
advance offset n = signed64 (add64 (bits64 offset) n)

unfoldable pub postings_answer : Context → Bool → ℤ → ℤ → ℕ → Database → Reply PostingPage
postings_answer ctx fails id offset size db =
    elim (Queries.list_account_postings fails ctx.tenant_id (bits64 id) (to_int32 offset) (pos size)
      db) [
        | ok postings ↦ reply_json 200 (record {
          data_rows = postings;
          offset = advance offset (length postings);
          page_size = size;
        })
        | err e ↦ fail_with ctx (internal_error "failed to list account postings")
      ]

unfoldable pub get_account_postings_handler :
    Context → Bool → String → String → String → Database → Reply PostingPage
get_account_postings_handler ctx fails id_text offset_text size_text db =
    let id = parse_int id_text in
    if id.valid
    then elim (requested_size size_text) [
      | none ↦ fail_with ctx page_size_too_large
      | some size ↦ postings_answer ctx fails id.value (parse_int offset_text).value size db
    ]
    else fail_with ctx invalid_account_id
