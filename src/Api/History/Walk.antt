-- ===== src/Api/History/Walk.antt =====
-- internal/api/handler.go: what a client sees of GET /v1/transactions that follows next_cursor.
use ledger_pro.Api.History.{TransactionPage, last_time, transaction_page}
use ledger_pro.Api.Http.{Context, reply_json, reply_problem}
use ledger_pro.Db.Transactions.{before_cursor, list_transactions as select_transactions}
use ledger_pro.Service.Queries.{page_limit, list_transactions as list_page}
use ledger_pro.Prelude.{
  ℕ, zero, suc, ◌<◌, ◌≡◌, refl, inl, inr, Bool, false, ◌&&◌, none, some, List, [], ◌∷◌, ◌++◌, arith,
  leb, ◌==◌, Bool-cases, Option-cases, All, insert_by_desc, order_by_desc, take, where_rows,
  exists_row, All-append, All-map,
}
use ledger_pro.Db.Models.{Timestamp, Transaction}
use ledger_pro.Db.Tables.{Database}
use ledger_pro.Prelude.Int.{pos}

abbrev pub transaction_walk : ℕ → Context → ℕ → Timestamp → Database → List Transaction
transaction_walk zero ctx size cursor db = []
transaction_walk (suc fuel) ctx size cursor db = elim (transaction_page ctx false cursor size db) [
  | reply_problem p ↦ []
  | reply_json status page ↦ elim page.next_cursor [
    | none ↦ page.data_rows
    | some next ↦ page.data_rows ++ transaction_walk fuel ctx size next db
  ]
]

abbrev Before : Timestamp → Transaction → Type 0
Before cursor r = r.created_at < cursor

where_rows-Before :
    (t cursor : ℕ) (xs : List Transaction)
    → All (Before cursor) (where_rows (before_cursor t cursor) xs)
where_rows-Before t cursor [] = tt
where_rows-Before t cursor (r ∷ xs) = elim (Bool-cases (before_cursor t cursor r)) [
  | inl e ↦ rw e (ground (arith, e), where_rows-Before t cursor xs)
  | inr e ↦ rw e (where_rows-Before t cursor xs)
]

insert-All :
    (P : Transaction → Type 0) (x : Transaction) (xs : List Transaction)
    → P x
    → All P xs
    → All P (insert_by_desc (λ r. r.created_at) x xs)
insert-All P x [] hx h = (hx, tt)
insert-All P x (y ∷ ys) hx h = elim (Bool-cases (leb y.created_at x.created_at)) [
  | inl e ↦ rw e (hx, h)
  | inr e ↦ rw e (h.0, insert-All P x ys hx h.1)
]

order-All :
    (P : Transaction → Type 0) (xs : List Transaction)
    → All P xs
    → All P (order_by_desc (λ r. r.created_at) xs)
order-All P [] h = tt
order-All P (x ∷ xs) h =
    insert-All P x (order_by_desc (λ r. r.created_at) xs) h.0 (order-All P xs h.1)

take-All : (P : Transaction → Type 0) (n : ℕ) (xs : List Transaction) → All P xs → All P (take n xs)
take-All P zero xs h = tt
take-All P (suc n) [] h = tt
take-All P (suc n) (x ∷ xs) h = (h.0, take-All P n xs h.1)

-- The rows of a page are before its cursor.
page_rows-Before :
    (t cursor n : ℕ) (db : Database) → All (Before cursor) (select_transactions t cursor n db)
unfolding select_transactions
page_rows-Before t cursor n db =
    take-All (Before cursor) n _
      (order-All (Before cursor) _ (where_rows-Before t cursor db.transactions))

last_time-Before :
    (cursor next : ℕ) (xs : List Transaction)
    → All (Before cursor) xs
    → last_time xs ≡ some next
    → next < cursor
last_time-Before cursor next [] h e = cc
last_time-Before cursor next (x ∷ []) h e = ground (arith, h.0, e)
last_time-Before cursor next (x ∷ y ∷ xs) h e = last_time-Before cursor next (y ∷ xs) h.1 e

pub page_reply :
    (ctx : Context) (cursor n : ℕ) (db : Database)
    → let rows = select_transactions ctx.tenant_id cursor (page_limit (pos n)) db in
      transaction_page ctx false cursor n db
      ≡ reply_json 200 (record { data_rows = rows; next_cursor = last_time rows; page_size = n })
unfolding transaction_page list_page
page_reply ctx cursor n db = refl

walk-Before :
    (fuel : ℕ) (ctx : Context) (n cursor : ℕ) (db : Database)
    → All (Before cursor) (transaction_walk fuel ctx n cursor db)
walk-Before zero ctx n cursor db = tt
walk-Before (suc fuel) ctx n cursor db =
    let rows = select_transactions ctx.tenant_id cursor (page_limit (pos n)) db in
    let before = page_rows-Before ctx.tenant_id cursor (page_limit (pos n)) db in
    elim (Option-cases (last_time rows)) [
      | inl e ↦ rw (page_reply ctx cursor n db, transaction_walk) (rw e before)
      | inr (next, e) ↦
          let lower = last_time-Before cursor next rows before e in
          rw (page_reply ctx cursor n db, transaction_walk)
            (rw e (
              All-append (Before cursor) rows (transaction_walk fuel ctx n next db)
                (All-map (λ r lt. omega (arith, lt, lower)) _ (walk-Before fuel ctx n next db))
                before))
    ]

-- The row `r`, by its id and its time.
abbrev pub same_row : Transaction → Transaction → Bool
same_row r x = (x.id == r.id) && (x.created_at == r.created_at)

same_row-Before :
    (r : Transaction) (xs : List Transaction)
    → All (Before r.created_at) xs
    → exists_row (same_row r) xs ≡ false
same_row-Before r [] h = refl
same_row-Before r (x ∷ xs) h = ground (arith, h.0, same_row-Before r xs h.1)

exists_row-append-false :
    (q : Transaction → Bool) (xs ys : List Transaction)
    → exists_row q xs ≡ false
    → exists_row q ys ≡ false
    → exists_row q (xs ++ ys) ≡ false
exists_row-append-false q [] ys hx hy = hy
exists_row-append-false q (x ∷ xs) ys hx hy = ground (arith, exists_row-append-false q xs ys)

-- If a page of GET /v1/transactions ends with the time of a transaction that is not on the page,
-- then a client that goes on with next_cursor meets that transaction on no later page either.
pub tied_transaction_lost :
    (fuel : ℕ) (ctx : Context) (n cursor : ℕ) (db : Database) (page : TransactionPage)
    (r : Transaction)
    → transaction_page ctx false cursor n db ≡ reply_json 200 page
    → page.next_cursor ≡ some r.created_at
    → exists_row (same_row r) page.data_rows ≡ false
    → exists_row (same_row r) (transaction_walk (suc fuel) ctx n cursor db) ≡ false
tied_transaction_lost fuel ctx n cursor db page r shown next absent =
    rw (shown, transaction_walk)
      (rw next (
        exists_row-append-false (same_row r) page.data_rows _ absent
          (same_row-Before r _ (walk-Before fuel ctx n r.created_at db))))
