-- ===== src/Db/Joins.antt =====
-- The joins of internal/db/queries.sql.go on tables that grow: a posting whose account and
-- transaction are there is joined with the same rows afterwards.
use mathlib.Core.Option
use ledger_pro.Db.Postings.{join_account, join_accounts}
use ledger_pro.Db.History.{join_both, join_rows}
use ledger_pro.Db.Tables.{Database, add_joined}
use ledger_pro.Prelude.{
  ◌≡◌, refl, ap, ◌∙◌, inl, inr, Bool, true, false≢true, Option, List, [], ◌∷◌, ◌++◌, ◌==◌,
  Bool-cases, Option-cases, All, where_rows, first_row, exists_row,
}
use ledger_pro.Db.Models.{Account, Transaction, Posting}

pub first_row-grows {ℓ} :
    {A : Type ℓ} (p : A → Bool) (xs ys : List A)
    → exists_row p xs ≡ true
    → first_row p (xs ++ ys) ≡ first_row p xs
first_row-grows p [] ys h = absurd (false≢true h)
first_row-grows p (x ∷ xs) ys h = elim (Bool-cases (p x)) [
  | inl e ↦ rw e refl
  | inr e ↦ rw e (first_row-grows p xs ys (rw e at h))
]

pub All-where_rows {ℓ κ} :
    {A : Type ℓ} (p : A → Bool) (P : A → Type κ) (xs : List A) → All P xs → All P (where_rows p xs)
All-where_rows p P [] h = tt
All-where_rows p P (x ∷ xs) h = elim (Bool-cases (p x)) [
  | inl e ↦ rw e (h.0, All-where_rows p P xs h.1)
  | inr e ↦ rw e (All-where_rows p P xs h.1)
]

abbrev pub HasAccount : Database → Posting → Type 0
HasAccount db p = exists_row (λ a. a.id == p.account_id) db.accounts ≡ true

abbrev pub HasTransaction : Database → Posting → Type 0
HasTransaction db p = exists_row (λ t. t.id == p.transaction_id) db.transactions ≡ true

add_joined-eq {ℓ} :
    {R : Type ℓ} {o o' : Option R} {rest rest' : List R}
    → o ≡ o'
    → rest ≡ rest'
    → add_joined o rest ≡ add_joined o' rest'
add_joined-eq {o' = o'} {rest = rest} e f =
    ap (λ x. add_joined x rest) e ∙ ap (λ r. add_joined o' r) f

pub All-every {ℓ κ} : {A : Type ℓ} (P : A → Type κ) → ((x : A) → P x) → (xs : List A) → All P xs
All-every P f [] = tt
All-every P f (x ∷ xs) = (f x, All-every P f xs)

module _ (db db' : Database) where
  abbrev pub SameAccount : Posting → Type 0
  SameAccount p = join_account db' p ≡ join_account db p

  abbrev pub SameBoth : Posting → Type 0
  SameBoth p = join_both db' p ≡ join_both db p

  pub join_accounts-eq :
      (rows : List Posting) → All SameAccount rows → join_accounts db' rows ≡ join_accounts db rows
  join_accounts-eq [] h = refl
  join_accounts-eq (p ∷ ps) h = add_joined-eq h.0 (join_accounts-eq ps h.1)

  pub join_rows-eq :
      (rows : List Posting) → All SameBoth rows → join_rows db' rows ≡ join_rows db rows
  join_rows-eq [] h = refl
  join_rows-eq (p ∷ ps) h = add_joined-eq h.0 (join_rows-eq ps h.1)

  join_both-eq :
      (p : Posting)
      → first_row (λ a. a.id == p.account_id) db'.accounts
        ≡ first_row (λ a. a.id == p.account_id) db.accounts
      → first_row (λ t. t.id == p.transaction_id) db'.transactions
        ≡ first_row (λ t. t.id == p.transaction_id) db.transactions
      → SameBoth p
  unfolding Option.bind
  join_both-eq p e f = elim (Option-cases (first_row (λ a. a.id == p.account_id) db.accounts)) [
    | inl g ↦ rw e (rw g refl)
    | inr (a, g) ↦ rw e (rw g (rw f refl))
  ]

  -- A table that grows does not change what a posting is joined with.
  pub join_account-grown :
      (p : Posting) (more : List Account)
      → db'.accounts ≡ db.accounts ++ more
      → HasAccount db p
      → SameAccount p
  join_account-grown p more e h =
      rw e (rw (first_row-grows (λ a. a.id == p.account_id) db.accounts more h) refl)

  pub join_both-grown :
      (p : Posting) (more : List Account) (ts : List Transaction)
      → db'.accounts ≡ db.accounts ++ more
      → db'.transactions ≡ db.transactions ++ ts
      → HasAccount db p
      → HasTransaction db p
      → SameBoth p
  join_both-grown p more ts e f h k =
      join_both-eq p (rw e (first_row-grows (λ a. a.id == p.account_id) db.accounts more h))
        (rw f (first_row-grows (λ t. t.id == p.transaction_id) db.transactions ts k))
