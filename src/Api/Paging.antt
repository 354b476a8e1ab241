-- ===== src/Api/Paging.antt =====
-- internal/api/handler.go: the query parameters page_size, cursor and offset of the list handlers.
use ledger_pro.Prelude.Parse.{parse_int}
use ledger_pro.Prelude.{ℕ, String, Option, none, some, ltb, ◌==◌, if◌then◌else◌}
use ledger_pro.Prelude.Int.{ℤ, pos, negsuc}
use ledger_pro.Api.Problem.{ProblemDetail, bad_request}

-- pageSize after `if pageSize <= 0`; `none` is the answer that it must not exceed 100.
abbrev pub checked_size : ℤ → Option ℕ
checked_size (negsuc n) = some 20
checked_size (pos n) = if n == 0 then some 20 else if ltb 100 n then none else some n

-- The error of Atoi is dropped: what does not parse has the value 0.
abbrev pub requested_size : String → Option ℕ
requested_size text = checked_size (parse_int text).value

abbrev pub page_size_too_large : ProblemDetail
page_size_too_large = bad_request "page_size must not exceed 100"
