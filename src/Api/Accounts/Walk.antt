-- ===== src/Api/Accounts/Walk.antt =====
-- internal/api/handler.go: what a client sees of GET /v1/accounts that follows next_cursor from
-- page to page until a page is empty.
use ledger_pro.Api.Accounts.Pages.{of_tenant, accounts_of, account_page-page, page-le}
use ledger_pro.Service.Queries.Ids.{IdsRise}
use ledger_pro.Api.Accounts.{AccountPage, list_accounts_handler}
use ledger_pro.Api.Http.{Context, Reply, reply_json, reply_problem}
use ledger_pro.Api.Paging.{checked_size}
use ledger_pro.Prelude.Walk.{Paged, walk, walk_complete}
use ledger_pro.Prelude.Decimal.{parse_int-decimal}
use ledger_pro.Prelude.Parse.{parse_int, bits64}
use ledger_pro.Prelude.Text.{decimal}
use ledger_pro.Prelude.Paging.{
  Rising, later, last_key, where_rows-Rising, all_later, List-cases, next_page,
}
use ledger_pro.Prelude.{
  ℕ, zero, suc, ◌≤◌, ◌<◌, String, ◌≡◌, refl, sym, ap, subst, ◌∙◌, ◌≢◌, inl, inr, false, Option,
  none, some, List, [], ◌∷◌, arith, length, take, drop, where_rows, length-where_rows-le,
}
use ledger_pro.Prelude.Int.{pos, int64_max}
use ledger_pro.Db.Models.{Account}
use ledger_pro.Db.Tables.{Database}

-- What a client takes from an answer: the rows, and the text of the next cursor where there were
-- rows.
abbrev pub seen_accounts : Reply AccountPage → List Account × Option String
seen_accounts (reply_problem p) = ([], none)
seen_accounts (reply_json status page) =
    (page.data_rows, elim (page.data_rows) [ [] ↦ none | _ ∷ _ ↦ some (decimal page.next_cursor) ])

-- GET /v1/accounts?cursor=…&page_size=n
abbrev pub ask_accounts : Context → Database → ℕ → String → List Account × Option String
ask_accounts ctx db n cursor_text =
    seen_accounts (list_accounts_handler ctx false cursor_text (decimal n) db)

-- A text that ParseInt reads as an id.
abbrev pub IsIdText : String → Type 0
IsIdText text = (c : ℕ) × (c ≤ int64_max) × (bits64 (parse_int text).value ≡ c)

abbrev pub accounts_behind : Context → Database → String → List Account
accounts_behind ctx db text =
    where_rows (later (λ a. a.id) (bits64 (parse_int text).value)) (accounts_of ctx.tenant_id db)

pub checked_size-pos : (n : ℕ) → 1 ≤ n → n ≤ 100 → checked_size (pos n) ≡ some n
checked_size-pos n lo hi = ground (arith, lo, hi)

some-none : (s : String) → some s ≢ none
some-none s h = cc

not_nil : (z : Account) (zs : List Account) → z ∷ zs ≢ []
not_nil z zs h = cc

same_text : (s t : String) → some s ≡ some t → s ≡ t
same_text s t h = cc

module _ (ctx : Context) (db : Database) (h : IdsRise db) where
  abbrev reply_page : ℕ → String → Reply AccountPage
  reply_page n text =
      let page = take n (accounts_behind ctx db text) in
      reply_json 200
        (record { data_rows = page; next_cursor = last_key (λ a. a.id) 0 page; page_size = n })

  -- One request.
  list_accounts_handler-page :
      (n : ℕ) (text : String)
      → 1 ≤ n
      → n ≤ 100
      → IsIdText text
      → list_accounts_handler ctx false text (decimal n) db ≡ reply_page n text
  unfolding list_accounts_handler
  list_accounts_handler-page n text lo hi (c, le, e) =
      rw (parse_int-decimal n (omega (arith, hi)), list_accounts_handler)
        (rw (checked_size-pos n lo hi)
          (account_page-page ctx (bits64 (parse_int text).value) n db lo hi (rw e le) h))

  next_text-IsIdText :
      (n : ℕ) (text : String)
      → IsIdText (decimal (last_key (λ a. a.id) 0 (take n (accounts_behind ctx db text))))
  next_text-IsIdText n text =
      let le = page-le (bits64 (parse_int text).value) n ctx.tenant_id db h in
      (_, le, rw (parse_int-decimal _ le) refl)

  tenant_Rising : Rising (λ a. a.id) 1 (accounts_of ctx.tenant_id db)
  tenant_Rising = where_rows-Rising (λ a. a.id) (of_tenant ctx.tenant_id) 1 db.accounts h.rising

  pub ask_accounts-page :
      (n : ℕ) (text : String)
      → 1 ≤ n
      → n ≤ 100
      → IsIdText text
      → ask_accounts ctx db n text ≡ seen_accounts (reply_page n text)
  ask_accounts-page n text lo hi good =
      ap seen_accounts (list_accounts_handler-page n text lo hi good)

  -- The cursor after a page leaves what the page left.
  behind_last :
      (m : ℕ) (text : String) (z : Account) (zs : List Account)
      → accounts_behind ctx db text ≡ z ∷ zs
      → accounts_behind ctx db (decimal (last_key (λ a. a.id) z.id (take m zs))) ≡ drop m zs
  behind_last m text z zs f =
      let le = rw f at (page-le (bits64 (parse_int text).value) (suc m) ctx.tenant_id db h) in
      rw (parse_int-decimal (last_key (λ a. a.id) z.id (take m zs)) le) (
        next_page (λ a. a.id) m (bits64 (parse_int text).value) 1 (accounts_of ctx.tenant_id db) z
          zs tenant_Rising f)

  pub ask_accounts-end :
      (n : ℕ) (text : String)
      → 1 ≤ n
      → n ≤ 100
      → IsIdText text
      → (ask_accounts ctx db n text).1 ≡ none
      → accounts_behind ctx db text ≡ []
  ask_accounts-end zero text lo hi good e = absurd (omega (arith, lo))
  ask_accounts-end (suc m) text lo hi good e =
      let page = ap (λ p. p.1) (ask_accounts-page (suc m) text lo hi good) in
      elim (List-cases (λ a. a.id) (accounts_behind ctx db text)) [
        | inl f ↦ f
        | inr (z, zs, f) ↦ absurd (some-none _ (sym (rw f at page) ∙ e))
      ]

  pub ask_accounts-next :
      (n : ℕ) (text next : String)
      → 1 ≤ n
      → n ≤ 100
      → IsIdText text
      → (ask_accounts ctx db n text).1 ≡ some next
      → IsIdText next
        × (accounts_behind ctx db text ≢ [])
        × (accounts_behind ctx db next ≡ drop n (accounts_behind ctx db text))
  ask_accounts-next zero text next lo hi good e = absurd (omega (arith, lo))
  ask_accounts-next (suc m) text next lo hi good e =
      let page = ap (λ p. p.1) (ask_accounts-page (suc m) text lo hi good) in
      let is_text = next_text-IsIdText (suc m) text in
      elim (List-cases (λ a. a.id) (accounts_behind ctx db text)) [
        | inl f ↦ absurd (some-none next (sym e ∙ rw f at page))
        | inr (z, zs, f) ↦
            let last = last_key (λ a. a.id) z.id (take m zs) in
            let same = same_text (decimal last) next (sym (rw f at page) ∙ e) in
            let (c, le, read) = rw f at is_text in
            let behind = behind_last m text z zs f in
            (
              subst IsIdText same (rw f at is_text),
              λ nil. not_nil z zs (sym f ∙ nil),
              subst (λ t. accounts_behind ctx db t ≡ drop (suc m) (accounts_behind ctx db text))
                  same (rw f behind),
            )
      ]

-- The list endpoint hands out the accounts of the tenant in pages.
abbrev pub account_pages :
    (ctx : Context) (db : Database) → IdsRise db → Paged Account String IsIdText
account_pages ctx db h = record {
  page = ask_accounts ctx db;
  rest = accounts_behind ctx db;
  page_rows = λ n text lo hi good. ap (λ p. p.0) (ask_accounts-page ctx db h n text lo hi good);
  page_end = λ n text lo hi good e. ask_accounts-end ctx db h n text lo hi good e;
  page_next = λ n text next lo hi good e. ask_accounts-next ctx db h n text next lo hi good e;
}

-- A client that sends GET /v1/accounts with a page size of 1 to 100, without a cursor first and then
-- with the digits of each answer's next_cursor, until a page is empty, sees every account of its
-- tenant exactly once, in the order of the ids, and then stops, if the ids rise from 1 within int64,
-- no query fails and nothing is written meanwhile; any number of requests above the number of the
-- accounts is enough.
pub account_walk_complete :
    (ctx : Context) (n fuel : ℕ) (db : Database)
    → 1 ≤ n
    → n ≤ 100
    → IdsRise db
    → length db.accounts < fuel
    → walk (ask_accounts ctx db) fuel n "" ≡ accounts_of ctx.tenant_id db
unfolding parse_int
account_walk_complete ctx n fuel db lo hi h enough =
    let first : IsIdText "" = (0, omega arith, refl) in
    let all = all_later (λ a. a.id) 0 1 _ (omega arith) (tenant_Rising ctx db h) in
    let fewer = length-where_rows-le (of_tenant ctx.tenant_id) db.accounts in
    walk_complete (account_pages ctx db h) fuel n "" lo hi first
      (rw all (omega (arith, fewer, enough)))
    ∙ all
