-- ===== src/Api/History/Pages.antt =====
-- internal/api/handler.go: one page of GET /v1/transactions, in terms of the tenant's transactions,
-- where no two have the same time.
use ledger_pro.Api.History.{
  CursorParam, no_cursor, bad_cursor, cursor_at, TransactionPage, last_time, transaction_page,
  list_transactions_handler,
}
use ledger_pro.Api.History.Walk.{page_reply}
use ledger_pro.Api.Accounts.Pages.{page_limit-id}
use ledger_pro.Api.Accounts.Walk.{checked_size-pos}
use ledger_pro.Api.Http.{Context, Reply, reply_json, reply_problem}
use ledger_pro.Db.Transactions.{before_cursor, list_transactions as select_transactions}
use ledger_pro.Prelude.Paging.{List-cases}
use ledger_pro.Prelude.Falling.{
  Falling, DistinctKeys, earlier, final_key, order_by_desc-Falling, order_by_desc-where_rows,
  page_before,
}
use ledger_pro.Prelude.Decimal.{parse_int-decimal}
use ledger_pro.Prelude.Text.{decimal}
use ledger_pro.Prelude.{
  ℕ, zero, suc, ◌+◌, ◌≤◌, ◌<◌, ◌≡◌, refl, sym, ap, subst, ◌∙◌, ◌≢◌, inl, inr, false, Option, none,
  some, List, [], ◌∷◌, arith, ◌==◌, All, order_by_desc, take, drop, where_rows,
}
use ledger_pro.Db.Models.{Uuid, Timestamp, Transaction}
use ledger_pro.Db.Tables.{Database}

-- What a client takes from an answer: the rows, and the next cursor where there is one.
abbrev pub seen_transactions : Reply TransactionPage → List Transaction × Option CursorParam
seen_transactions (reply_problem p) = ([], none)
seen_transactions (reply_json status page) =
    (page.data_rows, elim (page.next_cursor) [ none ↦ none | some t ↦ some (cursor_at t) ])

-- GET /v1/transactions?cursor=…&page_size=n
abbrev pub ask_transactions :
    Context → Timestamp → Database → ℕ → CursorParam → List Transaction × Option CursorParam
ask_transactions ctx now db n at_time =
    seen_transactions (list_transactions_handler ctx false now at_time (decimal n) db)

abbrev pub by_time : Transaction → Timestamp
by_time r = r.created_at

-- The rows of a tenant, and the order in which they are listed.
abbrev pub transactions_of : Uuid → Database → List Transaction
transactions_of t db = where_rows (λ r. r.tenant_id == t) db.transactions

abbrev pub newest_first : Uuid → Database → List Transaction
newest_first t db = order_by_desc by_time (transactions_of t db)

before_cursor-earlier :
    (t c : ℕ) (xs : List Transaction)
    → where_rows (before_cursor t c) xs
      ≡ where_rows (earlier by_time c) (where_rows (λ r. r.tenant_id == t) xs)
before_cursor-earlier t c [] = refl
before_cursor-earlier t c (x ∷ xs) = ground (arith, before_cursor-earlier t c xs)

-- Where the page of a cursor starts; a text that is no time starts none.
abbrev pub starts_at : Timestamp → CursorParam → Option Timestamp
starts_at now no_cursor = some (now + 1000000)
starts_at now bad_cursor = none
starts_at now (cursor_at t) = some t

abbrev pub IsTime : Timestamp → CursorParam → Type 0
IsTime now c = (t : ℕ) × (starts_at now c ≡ some t)

-- No two transactions of the tenant have one time, and none is ahead of the clock by a second.
pub record TimesDiffer (ctx : Context) (now : Timestamp) (db : Database) : Type 0 where
  pub distinct : DistinctKeys by_time (transactions_of ctx.tenant_id db)
  pub started : All (λ r. by_time r < now + 1000000) (transactions_of ctx.tenant_id db)

abbrev pub transactions_before : Context → Timestamp → Database → CursorParam → List Transaction
transactions_before ctx now db c = elim (starts_at now c) [
  | none ↦ []
  | some t ↦ where_rows (earlier by_time t) (newest_first ctx.tenant_id db)
]

last_time-final_key :
    (x : Transaction) (xs : List Transaction)
    → last_time (x ∷ xs) ≡ some (final_key by_time x.created_at xs)
last_time-final_key x [] = refl
last_time-final_key x (y ∷ ys) = last_time-final_key y ys

same_time : (a b : ℕ) → some a ≡ some b → a ≡ b
same_time a b h = cc

no_time : (t : ℕ) → none ≢ some t
no_time t h = cc

some_cursor : (c : CursorParam) → some c ≢ none
some_cursor c h = cc

same_cursor : (c d : CursorParam) → some c ≡ some d → c ≡ d
same_cursor c d h = cc

not_nil : (z : Transaction) (zs : List Transaction) → z ∷ zs ≢ []
not_nil z zs h = cc

module _ (ctx : Context) (now : Timestamp) (db : Database) (h : TimesDiffer ctx now db) where
  pub sorted : Falling by_time (now + 1000000) (newest_first ctx.tenant_id db)
  sorted = order_by_desc-Falling by_time (now + 1000000) _ h.distinct h.started

  -- The query's page, in terms of the whole listing.
  selected :
      (c n : ℕ)
      → select_transactions ctx.tenant_id c n db
        ≡ take n (where_rows (earlier by_time c) (newest_first ctx.tenant_id db))
  unfolding select_transactions
  selected c n = rw (before_cursor-earlier ctx.tenant_id c db.transactions) (
      rw
        (order_by_desc-where_rows by_time (earlier by_time c) (now + 1000000)
          (transactions_of ctx.tenant_id db) h.distinct h.started)
        refl)

  abbrev reply_page : ℕ → ℕ → Reply TransactionPage
  reply_page n c =
      let page = take n (where_rows (earlier by_time c) (newest_first ctx.tenant_id db)) in
      reply_json 200 (record { data_rows = page; next_cursor = last_time page; page_size = n })

  transaction_page-page :
      (c n : ℕ) → 1 ≤ n → n ≤ 100 → transaction_page ctx false c n db ≡ reply_page n c
  transaction_page-page c n lo hi =
      page_reply ctx c n db ∙ rw (page_limit-id n lo hi) (rw (selected c n) refl)

  -- One request.
  list_transactions_handler-page :
      (n : ℕ) (at_time : CursorParam) (t : ℕ)
      → 1 ≤ n
      → n ≤ 100
      → starts_at now at_time ≡ some t
      → list_transactions_handler ctx false now at_time (decimal n) db ≡ reply_page n t
  unfolding list_transactions_handler
  list_transactions_handler-page n no_cursor t lo hi e =
      rw (parse_int-decimal n (omega (arith, hi)), list_transactions_handler)
        (rw (checked_size-pos n lo hi)
          (transaction_page-page (now + 1000000) n lo hi ∙ ap (reply_page n) (same_time _ t e)))
  list_transactions_handler-page n bad_cursor t lo hi e = absurd (no_time t e)
  list_transactions_handler-page n (cursor_at c) t lo hi e =
      rw (parse_int-decimal n (omega (arith, hi)), list_transactions_handler)
        (rw (checked_size-pos n lo hi)
          (transaction_page-page c n lo hi ∙ ap (reply_page n) (same_time c t e)))

  pub ask_transactions-page :
      (n : ℕ) (at_time : CursorParam) (t : ℕ)
      → 1 ≤ n
      → n ≤ 100
      → starts_at now at_time ≡ some t
      → ask_transactions ctx now db n at_time ≡ seen_transactions (reply_page n t)
  ask_transactions-page n at_time t lo hi e =
      ap seen_transactions (list_transactions_handler-page n at_time t lo hi e)

  before_eq :
      (c : CursorParam) (t : ℕ)
      → starts_at now c ≡ some t
      → transactions_before ctx now db c
        ≡ where_rows (earlier by_time t) (newest_first ctx.tenant_id db)
  before_eq no_cursor t e =
      ap (λ u. where_rows (earlier by_time u) (newest_first ctx.tenant_id db)) (same_time _ t e)
  before_eq bad_cursor t e = absurd (no_time t e)
  before_eq (cursor_at c) t e =
      ap (λ u. where_rows (earlier by_time u) (newest_first ctx.tenant_id db)) (same_time c t e)

  pub page_rows :
      (n : ℕ) (c : CursorParam)
      → 1 ≤ n
      → n ≤ 100
      → IsTime now c
      → (ask_transactions ctx now db n c).0 ≡ take n (transactions_before ctx now db c)
  page_rows n c lo hi (t, e) =
      ap (λ p. p.0) (ask_transactions-page n c t lo hi e) ∙ ap (take n) (sym (before_eq c t e))

  pub page_end :
      (n : ℕ) (c : CursorParam)
      → 1 ≤ n
      → n ≤ 100
      → IsTime now c
      → (ask_transactions ctx now db n c).1 ≡ none
      → transactions_before ctx now db c ≡ []
  page_end zero c lo hi good no_more = absurd (omega (arith, lo))
  page_end (suc m) c lo hi (t, e) no_more =
      let page = ap (λ p. p.1) (ask_transactions-page (suc m) c t lo hi e) in
      let before = before_eq c t e in
      elim (List-cases by_time (where_rows (earlier by_time t) (newest_first ctx.tenant_id db))) [
        | inl f ↦ before ∙ f
        | inr (z, zs, f) ↦
            let shown = rw f at page in
            absurd (some_cursor _ (sym (rw (last_time-final_key z (take m zs)) at shown) ∙ no_more))
      ]

  pub page_next :
      (n : ℕ) (c next : CursorParam)
      → 1 ≤ n
      → n ≤ 100
      → IsTime now c
      → (ask_transactions ctx now db n c).1 ≡ some next
      → IsTime now next
        × (transactions_before ctx now db c ≢ [])
        × (transactions_before ctx now db next ≡ drop n (transactions_before ctx now db c))
  page_next zero c next lo hi good more = absurd (omega (arith, lo))
  page_next (suc m) c next lo hi (t, e) more =
      let page = ap (λ p. p.1) (ask_transactions-page (suc m) c t lo hi e) in
      let before = before_eq c t e in
      elim (List-cases by_time (where_rows (earlier by_time t) (newest_first ctx.tenant_id db))) [
        | inl f ↦ absurd (some_cursor next (sym more ∙ rw f at page))
        | inr (z, zs, f) ↦
            let shown = rw f at page in
            let last = final_key by_time z.created_at (take m zs) in
            let same =
              same_cursor (cursor_at last) next
                (sym (rw (last_time-final_key z (take m zs)) at shown) ∙ more) in
            (
              subst (IsTime now) same (last, refl),
              λ nil. not_nil z zs (sym (before ∙ f) ∙ nil),
              subst
                  (λ d.
                    transactions_before ctx now db d
                    ≡ drop (suc m) (transactions_before ctx now db c))
                  same
                  (rw (before ∙ f) (
                    page_before by_time m t (now + 1000000) (newest_first ctx.tenant_id db) z zs
                      sorted f)),
            )
      ]
