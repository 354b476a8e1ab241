-- ===== src/Api/Accounts/Offset.antt =====
-- internal/api/handler.go: GetAccountPostings, whose offset is cut to 32 bits.
use ledger_pro.Api.Accounts.{PostingPage, advance, postings_answer, get_account_postings_handler}
use ledger_pro.Api.Accounts.Pages.{page_limit-id}
use ledger_pro.Api.Paging.{checked_size, requested_size}
use ledger_pro.Api.Http.{Context, Reply, reply_json, fail_with}
use ledger_pro.Db.History.{AccountPostingRow, join_rows, get_postings_by_account_id}
use ledger_pro.Db.Postings.{of_account}
use ledger_pro.Service.Queries.{list_account_postings}
use ledger_pro.Prelude.Parse.{parse_int}
use ledger_pro.Prelude.Int.{ℤ, pos, negsuc}
use ledger_pro.Prelude.{
  ℕ, ◌%◌, ◌≤◌, String, ◌≡◌, refl, inl, inr, true, false, some, List, arith, ltb, if◌then◌else◌,
  Bool-cases, order_by_desc, length, take, drop, where_rows,
}
use ledger_pro.Db.Tables.{Database}
use ledger_pro.Api.Problem.{internal_error}

-- The whole history of an account, the newest posting first.
abbrev pub account_history : Context → ℕ → Database → List AccountPostingRow
account_history ctx a db =
    order_by_desc (λ r. r.created_at)
      (join_rows db (where_rows (of_account a ctx.tenant_id) db.postings))

abbrev pub postings_page : Context → ℕ → ℕ → ℕ → ℕ → Database → Reply PostingPage
postings_page ctx a skipped named n db =
    let rows = take n (drop skipped (account_history ctx a db)) in
    reply_json 200
      (record { data_rows = rows; offset = advance (pos named) (length rows); page_size = n })

size_bounds : (i : ℤ) (n : ℕ) → checked_size i ≡ some n → (1 ≤ n) × (n ≤ 100)
size_bounds (negsuc k) n h = ground arith
size_bounds (pos k) n h = ground arith

postings_answer_wraps :
    (ctx : Context) (a k n : ℕ) (db : Database)
    → 1 ≤ n
    → n ≤ 100
    → postings_answer ctx false (pos a) (pos k) n db ≡ (
        if ltb (k % 4294967296) 2147483648
        then postings_page ctx a (k % 4294967296) k n db
        else fail_with ctx (internal_error "failed to list account postings"))
unfolding postings_answer list_account_postings get_postings_by_account_id
postings_answer_wraps ctx a k n db lo hi = elim (Bool-cases (ltb (k % 4294967296) 2147483648)) [
  | inl e ↦ rw (e, postings_answer) (rw (page_limit-id n lo hi) refl)
  | inr e ↦ rw (e, postings_answer) refl
]

-- Where the id and the page size are good and no query fails, an offset k of GET
-- /v1/accounts/{id}/postings is taken modulo 2^32: if the rest is below 2^31, the page starts there,
-- whatever k is, and next to it stands the offset k plus the number of rows; otherwise the answer is
-- 500.
pub get_account_postings_wraps :
    (ctx : Context) (id_text offset_text size_text : String) (a k n : ℕ) (db : Database)
    → parse_int id_text ≡ record { value = pos a; valid = true }
    → (parse_int offset_text).value ≡ pos k
    → requested_size size_text ≡ some n
    → get_account_postings_handler ctx false id_text offset_text size_text db ≡ (
        if ltb (k % 4294967296) 2147483648
        then postings_page ctx a (k % 4294967296) k n db
        else fail_with ctx (internal_error "failed to list account postings"))
unfolding get_account_postings_handler
get_account_postings_wraps ctx id_text offset_text size_text a k n db i o s =
    let (lo, hi) = size_bounds (parse_int size_text).value n s in
    rw (i, get_account_postings_handler)
      (rw s (rw i (rw o (postings_answer_wraps ctx a k n db lo hi))))
