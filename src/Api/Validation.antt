-- ===== src/Api/Validation.antt =====
-- internal/api/validation.go: the request validators. They collect every error that they find.
pub mod Agreement
use ledger_pro.Prelude.Text.{◌<>◌, rune_count, decimal, decimal_ℤ}
use ledger_pro.Api.Problem.{InvalidParam, ProblemDetail, validation_error}
use ledger_pro.Api.Currencies.{is_valid_currency}
use ledger_pro.Service.Ledger.{CreateTransactionRequest}
use ledger_pro.Service.Queries.{CreateAccountRequest}
use ledger_pro.Db.Accounts.{is_account_type}
use ledger_pro.Prelude.{
  ℕ, ◌+◌, ◌-◌, ◌%◌, String, Bool, true, false, not, ◌&&◌, List, [], ◌∷◌, ◌++◌, str_eq, ltb, leb,
  ◌==◌, if◌then◌else◌, length,
}
use ledger_pro.Prelude.Int.{int64_size, add64, nonpositive64, signed64}
use ledger_pro.Db.Models.{
  AccountType, asset, liability, equity, revenue, expense, unknown_type, PostingDirection, debit,
  credit, unknown_direction, PostingEntry,
}

abbrev pub max_account_name_len : ℕ
max_account_name_len = 255

abbrev pub max_description_len : ℕ
max_description_len = 1000

abbrev pub max_idempotency_key_len : ℕ
max_idempotency_key_len = 255

abbrev pub max_postings_per_tx : ℕ
max_postings_per_tx = 100

abbrev pub min_postings_per_tx : ℕ
min_postings_per_tx = 2

abbrev pub invalid : String → String → InvalidParam
invalid name reason = record { name = name; reason = reason }

-- One error if the test holds.
abbrev pub error_if : Bool → String → String → List InvalidParam
error_if test name reason = if test then invalid name reason ∷ [] else []

abbrev pub has_errors : List InvalidParam → Bool
has_errors [] = false
has_errors (e ∷ es) = true

abbrev pub to_problem : List InvalidParam → ProblemDetail
to_problem errors =
    validation_error (decimal (length errors) <> " validation error(s) found") errors

abbrev pub type_text : AccountType → String
type_text asset = "asset"
type_text liability = "liability"
type_text equity = "equity"
type_text revenue = "revenue"
type_text expense = "expense"
type_text (unknown_type s) = s

abbrev pub account_name_errors : String → List InvalidParam
account_name_errors name =
    if ltb (rune_count name) 1
    then invalid "account_name" "account_name is required" ∷ []
    else error_if (ltb max_account_name_len (rune_count name)) "account_name"
        "account_name must be at most 255 characters"

abbrev pub account_type_errors : AccountType → List InvalidParam
account_type_errors t =
    if str_eq (type_text t) ""
    then invalid "account_type"
        "account_type is required (asset, liability, equity, revenue, expense)"
      ∷ []
    else error_if (not (is_account_type t)) "account_type" (
        "invalid account_type '"
        <> type_text t
        <> "' — must be one of: asset, liability, equity, revenue, expense")

abbrev pub currency_errors : String → List InvalidParam
currency_errors currency =
    error_if (not (str_eq currency "") && not (is_valid_currency currency)) "currency"
      ("invalid ISO 4217 currency code '" <> currency <> "'")

unfoldable pub validate_create_account_request : CreateAccountRequest → List InvalidParam
validate_create_account_request req =
    account_name_errors req.account_name
    ++ (account_type_errors req.account_type ++ currency_errors req.currency)

abbrev pub key_errors : String → List InvalidParam
key_errors key =
    if ltb (rune_count key) 1
    then invalid "idempotency_key" "Idempotency-Key header is required" ∷ []
    else error_if (ltb max_idempotency_key_len (rune_count key)) "idempotency_key"
        "Idempotency-Key must be at most 255 characters"

abbrev pub description_errors : String → List InvalidParam
description_errors text =
    error_if (ltb max_description_len (rune_count text)) "description"
      "description must be at most 1000 characters"

abbrev pub count_errors : ℕ → List InvalidParam
count_errors n =
    if ltb n min_postings_per_tx
    then invalid "postings" "transaction must have at least 2 postings (one debit, one credit)" ∷ []
    else error_if (ltb max_postings_per_tx n) "postings"
        "transaction must have at most 100 postings"

abbrev pub field_name : ℕ → String
field_name i = "postings[" <> decimal i <> "]"

abbrev pub direction_errors : ℕ → PostingDirection → List InvalidParam
direction_errors i (unknown_direction d) =
    invalid (field_name i <> ".direction")
      ("invalid direction '" <> d <> "' — must be 'debit' or 'credit'")
    ∷ []
direction_errors i _ = []

abbrev pub leg_errors : ℕ → PostingEntry → List InvalidParam
leg_errors i p =
    error_if (nonpositive64 p.amount) (field_name i <> ".amount")
      "posting amount must be a positive integer (in smallest currency unit)"
    ++ (error_if (nonpositive64 p.account_id) (field_name i <> ".account_id")
          "account_id must be a positive integer"
        ++ direction_errors i p.direction)

-- debitSum += p.Amount and creditSum += p.Amount, by the direction.
abbrev pub add_debit : ℕ → PostingEntry → ℕ
add_debit sum p = elim (p.direction) [ debit ↦ add64 sum p.amount | _ ↦ sum ]

abbrev pub add_credit : ℕ → PostingEntry → ℕ
add_credit sum p = elim (p.direction) [ credit ↦ add64 sum p.amount | _ ↦ sum ]

-- The loop: the errors of the legs, and the two int64 sums, which also count refused amounts.
unfoldable pub check_legs : ℕ → List PostingEntry → ℕ → ℕ → List InvalidParam × ℕ × ℕ
check_legs i [] debit_sum credit_sum = ([], debit_sum, credit_sum)
check_legs i (p ∷ ps) debit_sum credit_sum =
    let (errors, d, k) = check_legs (i + 1) ps (add_debit debit_sum p) (add_credit credit_sum p) in
    (leg_errors i p ++ errors, d, k)

-- debitSum - creditSum on int64, as %d prints it.
abbrev pub difference_text : ℕ → ℕ → String
difference_text d k = decimal_ℤ (signed64 ((d + int64_size - k) % int64_size))

abbrev pub balance_errors : ℕ → ℕ → ℕ → List InvalidParam
balance_errors n d k = error_if (leb min_postings_per_tx n && not (d == k)) "postings" (
    "debit and credit legs must balance: total debits="
    <> decimal_ℤ (signed64 d)
    <> ", total credits="
    <> decimal_ℤ (signed64 k)
    <> " (difference="
    <> difference_text d k
    <> ")")

unfoldable pub validate_create_transaction_request : CreateTransactionRequest → List InvalidParam
validate_create_transaction_request req =
    let (errors, d, k) = check_legs 0 req.postings 0 0 in
    key_errors req.idempotency_key
    ++ (description_errors req.description
        ++ (count_errors (length req.postings)
            ++ (errors ++ balance_errors (length req.postings) d k)))
