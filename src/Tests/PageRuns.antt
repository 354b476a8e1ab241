-- ===== src/Tests/PageRuns.antt =====
-- Pages of transactions and postings, and a server without usable keys, at concrete inputs.
use ledger_pro.Tests.Sample.{book}
use ledger_pro.Tests.ServerRuns.{config, moment, selling, start}
use ledger_pro.Api.Http.{Context, fail_with}
use ledger_pro.Api.History.{no_cursor}
use ledger_pro.Api.History.Complete.{transaction_walk_complete}
use ledger_pro.Api.History.Pages.{ask_transactions, newest_first, TimesDiffer}
use ledger_pro.Api.Accounts.{get_account_postings_handler}
use ledger_pro.Api.Accounts.Offset.{get_account_postings_wraps}
use ledger_pro.Api.Server.{guard}
use ledger_pro.Api.Config.{Environment, Libraries, router_config}
use ledger_pro.Api.Config.Started.{router_config_open}
use ledger_pro.Api.Problem.{internal_error}
use ledger_pro.Api.Access as Access
use ledger_pro.Prelude.Walk.{walk}
use ledger_pro.Prelude.Parse.{parse_int}
use ledger_pro.Prelude.{ℕ, ◌≡◌, refl, false, none, [], ◌∷◌, arith, str_eq, if◌then◌else◌}
use ledger_pro.Db.Models.{Transaction}
use ledger_pro.Db.Tables.{Database, ok}

abbrev client : Context
client = record { path = "/v1/transactions"; trace_id = "t"; tenant_id = 0 }

abbrev dated : ℕ → ℕ → Transaction
dated i time = record {
  id = i;
  idempotency_key = "k";
  description = "d";
  metadata = "{}";
  created_at = time;
  tenant_id = 0;
}

-- Three transactions, not in the order of their times.
abbrev busy : Database
busy = record book { transactions = dated 1 30 ∷ dated 2 10 ∷ dated 3 20 ∷ [] }

busy-TimesDiffer : TimesDiffer client 50 busy
busy-TimesDiffer = record {
  distinct = (refl, (refl, (refl, tt)));
  started = (omega arith, (omega arith, (omega arith, tt)));
}

transaction_walk_complete_example :
    walk (ask_transactions client 50 busy) 4 2 no_cursor ≡ newest_first 0 busy
transaction_walk_complete_example =
    transaction_walk_complete client 50 2 4 busy (omega arith) (omega arith) busy-TimesDiffer
      (omega arith)

newest : newest_first 0 busy ≡ dated 1 30 ∷ dated 3 20 ∷ dated 2 10 ∷ []
newest = refl

get_account_postings_wraps_example :
    get_account_postings_handler client false "1" "2147483648" "10" book
    ≡ fail_with client (internal_error "failed to list account postings")
unfolding parse_int
get_account_postings_wraps_example =
    get_account_postings_wraps client "1" "2147483648" "10" 1 2147483648 10 book refl refl refl

abbrev libraries : Libraries
libraries = record {
  bcrypt = config.bcrypt;
  parse_uuid = config.parse_uuid;
  parse_duration = λ s. none;
  describe = config.describe;
}

-- Only API_KEYS is set, to a key without a role.
abbrev environment : Environment
environment name = if str_eq name "API_KEYS" then "sk-admin" else ""

router_config_open_example :
    guard (router_config libraries environment) moment selling start ≡ (ok Access.anonymous, [])
router_config_open_example = router_config_open libraries environment moment selling start refl
