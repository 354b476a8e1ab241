-- ===== src/Db/History.antt =====
-- internal/db/queries.sql.go: the paged history of an account (GetPostingsByAccountID).
use mathlib.Core.Option
use ledger_pro.Db.Postings.{of_account}
use ledger_pro.Prelude.{
  ℕ, String, Option, List, [], ◌∷◌, ◌==◌, order_by_desc, take, drop, where_rows, first_row,
}
use ledger_pro.Prelude.Int.{ℤ, pos, negsuc}
use ledger_pro.Db.Models.{Uuid, Timestamp, PostingDirection, Posting}
use ledger_pro.Db.Tables.{Database, DbError, negative_offset, Result, ok, err, add_joined}

pub record AccountPostingRow : Type 0 where
  pub id : ℕ
  pub tenant_id : Uuid
  pub transaction_id : Uuid
  pub transaction_description : String
  pub account_id : ℕ
  pub account_name : String
  pub amount : ℕ
  pub direction : PostingDirection
  pub created_at : Timestamp

-- JOIN accounts a ON a.id = p.account_id JOIN transactions t ON t.id = p.transaction_id
abbrev pub join_both : Database → Posting → Option AccountPostingRow
join_both db p = Option.bind (first_row (λ a. a.id == p.account_id) db.accounts) λ a.
    Option.map
      (λ t. record {
        id = p.id;
        tenant_id = p.tenant_id;
        transaction_id = p.transaction_id;
        transaction_description = t.description;
        account_id = p.account_id;
        account_name = a.account_name;
        amount = p.amount;
        direction = p.direction;
        created_at = p.created_at;
      })
      (first_row (λ t. t.id == p.transaction_id) db.transactions)

abbrev pub join_rows : Database → List Posting → List AccountPostingRow
join_rows db [] = []
join_rows db (p ∷ ps) = add_joined (join_both db p) (join_rows db ps)

-- ORDER BY p.created_at DESC LIMIT $4 OFFSET $3; a negative offset is refused.
unfoldable pub get_postings_by_account_id :
    ℕ → Uuid → ℤ → ℕ → Database → Result DbError (List AccountPostingRow)
get_postings_by_account_id a t (negsuc n) page_size db = err negative_offset
get_postings_by_account_id a t (pos offset) page_size db = ok (
    take page_size (
      drop offset (
        order_by_desc (λ r. r.created_at)
          (join_rows db (where_rows (of_account a t) db.postings)))))
