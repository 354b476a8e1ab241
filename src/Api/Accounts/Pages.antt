-- ===== src/Api/Accounts/Pages.antt =====
-- internal/api/handler.go: one page of GET /v1/accounts, in terms of the tenant's accounts.
use ledger_pro.Service.Queries.Ids.{IdsRise}
use ledger_pro.Api.Accounts.{last_id, account_page}
use ledger_pro.Api.Http.{Context, reply_json}
use ledger_pro.Db.Accounts.{after_cursor, list_accounts as select_accounts}
use ledger_pro.Prelude.Paging.{later, last_key, Rising-Ascending, where_rows-Rising}
use ledger_pro.Service.Queries.{page_limit, list_accounts as list_page}
use ledger_pro.Prelude.{
  ℕ, zero, suc, ◌≤◌, ◌≡◌, refl, inl, inr, Bool, false, List, [], ◌∷◌, arith, ◌==◌, Bool-cases, All,
  take, where_rows, order_by-Ascending,
}
use ledger_pro.Prelude.Int.{pos, int64_max}
use ledger_pro.Db.Models.{Uuid, Account}
use ledger_pro.Db.Tables.{Database}

abbrev pub of_tenant : Uuid → Account → Bool
of_tenant t a = a.tenant_id == t

last_id-last_key :
    (c : ℕ) (a : Account) (xs : List Account) → last_id (a ∷ xs) ≡ last_key (λ r. r.id) c (a ∷ xs)
last_id-last_key c a [] = refl
last_id-last_key c a (b ∷ xs) = last_id-last_key c b xs

last_id-first : (xs : List Account) → last_id xs ≡ last_key (λ r. r.id) 0 xs
last_id-first [] = refl
last_id-first (a ∷ xs) = last_id-last_key 0 a xs

-- The query's condition is the tenant's rows behind the cursor.
after_cursor-later :
    (t c : ℕ) (xs : List Account)
    → c ≤ int64_max
    → where_rows (after_cursor t c) xs
      ≡ where_rows (later (λ a. a.id) c) (where_rows (of_tenant t) xs)
after_cursor-later t c [] le = refl
after_cursor-later t c (a ∷ xs) le = ground (arith, le, after_cursor-later t c xs le)

last_key-le :
    (bound c n : ℕ) (xs : List Account)
    → c ≤ bound
    → All (λ a. a.id ≤ bound) xs
    → last_key (λ a. a.id) c (take n xs) ≤ bound
last_key-le bound c zero xs le h = le
last_key-le bound c (suc n) [] le h = le
last_key-le bound c (suc n) (a ∷ xs) le h = last_key-le bound a.id n xs h.0 h.1

pub page_limit-id : (n : ℕ) → 1 ≤ n → n ≤ 100 → page_limit (pos n) ≡ n
page_limit-id n lo hi = ground arith

abbrev pub accounts_of : Uuid → Database → List Account
accounts_of t db = where_rows (of_tenant t) db.accounts

-- One page.
pub account_page-page :
    (ctx : Context) (c n : ℕ) (db : Database)
    → 1 ≤ n
    → n ≤ 100
    → c ≤ int64_max
    → IdsRise db
    → let page = take n (where_rows (later (λ a. a.id) c) (accounts_of ctx.tenant_id db)) in
      account_page ctx false c n db
      ≡ reply_json 200
          (record { data_rows = page; next_cursor = last_key (λ a. a.id) 0 page; page_size = n })
unfolding account_page list_page select_accounts
account_page-page ctx c n db lo hi le h =
    let rows = after_cursor-later ctx.tenant_id c db.accounts le in
    let sorted =
      order_by-Ascending (λ a. a.id) 1 _
        (Rising-Ascending (λ a. a.id) 1 _
          (where_rows-Rising (λ a. a.id) (after_cursor ctx.tenant_id c) 1 db.accounts h.rising)) in
    rw (page_limit-id n lo hi) (
      rw sorted (
        rw rows (
          rw
            (last_id-first
              (take n (where_rows (later (λ a. a.id) c) (accounts_of ctx.tenant_id db))))
            refl)))

where_rows-All :
    (p : Account → Bool) (P : Account → Type 0) (xs : List Account)
    → All P xs
    → All P (where_rows p xs)
where_rows-All p P [] h = tt
where_rows-All p P (a ∷ xs) h = elim (Bool-cases (p a)) [
  | inl e ↦ rw e (h.0, where_rows-All p P xs h.1)
  | inr e ↦ rw e (where_rows-All p P xs h.1)
]

pub page-le :
    (c n : ℕ) (t : Uuid) (db : Database)
    → IdsRise db
    → last_key (λ a. a.id) 0 (take n (where_rows (later (λ a. a.id) c) (accounts_of t db)))
      ≤ int64_max
page-le c n t db h =
    last_key-le int64_max 0 n _ (omega arith)
      (where_rows-All (later (λ a. a.id) c) _ _ (where_rows-All (of_tenant t) _ _ h.in_range))
