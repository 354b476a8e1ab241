-- ===== src/Tests/ApiRuns.antt =====
-- The HTTP layer on the sample book.
use ledger_pro.Service.Ledger.{validate_request}
use ledger_pro.Api.Validation.{check_legs, validate_create_transaction_request}
use ledger_pro.Api.Validation.Agreement.{
  IsAcceptable, validate_create_transaction_request_iff, validators_agree,
}
use ledger_pro.Api.Http.{Context}
use ledger_pro.Prelude.{◌≡◌, refl, ◌↔◌, []}
use ledger_pro.Db.Tables.{ok}
use ledger_pro.Tests.Sample.{sale}

abbrev context : Context
context = record { path = "/v1/transactions"; trace_id = "t"; tenant_id = 0 }

validate_create_transaction_request_iff_example :
    (validate_create_transaction_request sale ≡ []) ↔ IsAcceptable sale
validate_create_transaction_request_iff_example = validate_create_transaction_request_iff sale

sale_has_no_errors : validate_create_transaction_request sale ≡ []
unfolding validate_create_transaction_request check_legs
sale_has_no_errors = refl

validators_agree_example : validate_request sale ≡ ok tt
validators_agree_example = validators_agree sale sale_has_no_errors
