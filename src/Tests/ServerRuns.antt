-- ===== src/Tests/ServerRuns.antt =====
-- The whole server on the sample book: a writer's request, a reader's, a stranger's, and the
-- outbox worker after them.
use ledger_pro.Tests.Sample.{fresh, calm, sale, book-IsValid}
use ledger_pro.Tests.DocumentRuns.{quiet}
use ledger_pro.Api.Server.{handle, guard, serve_guarded, serve_limited, serve, serve_all}
use ledger_pro.Api.Requests.{
  RouterConfig, Target, to_create_transaction, HttpRequest, Moment, World, documents_of, Answer,
  refusal, health_answer, transaction_answer,
}
use ledger_pro.Api.Server.Sound.{serve_all-IsSound}
use ledger_pro.Api.Server.Calls.{IsSound}
use ledger_pro.Api.Server.Roles.{serve_writers}
use ledger_pro.Api.Server.Writers.{SameBooks, IsWriter}
use ledger_pro.Api.Server.Isolated.{serve-SameTenantView}
use ledger_pro.Api.Server.Tenants.{SameTenantView}
use ledger_pro.Api.System.{serves, start_here, one_more}
use ledger_pro.Api.System.Consistent.{IsConsistent, SystemReachable-IsConsistent}
use ledger_pro.Api.RateLimit.{run_script, rate_limit}
use ledger_pro.Api.RateLimit.Window.{no_members}
use ledger_pro.Api.Access.{
  Identity, session_identity, key_identity, authenticate, require_role, access,
}
use ledger_pro.Service.Outbox.{default_worker}
use ledger_pro.Api.Http.{status_of}
use ledger_pro.Db.Transactions.{create_transaction as insert_transaction_row}
use ledger_pro.Db.Postings.{
  create_posting, check_transaction_balance, get_postings_by_transaction_id,
}
use ledger_pro.Db.Outbox.{create_outbox_event}
use ledger_pro.Service.Ledger.{
  sum_legs, validate_request, insert_postings, run_deferred, run_transaction, replay_of, execute,
}
use ledger_pro.Service.Ledger as Ledger
use ledger_pro.Service.Cache.{cache_get}
use ledger_pro.Api.Problem.{ProblemDetail}
use ledger_pro.Api.Transactions.{handle_valid, create_transaction_handler}
use ledger_pro.Api.Validation.{check_legs, validate_create_transaction_request}
use ledger_pro.Prelude.Text.{strip_prefix}
use ledger_pro.Prelude.{
  ℕ, String, ◌≡◌, refl, sym, ap, ◌∙◌, ◌≢◌, ◌⊎◌, false, none, some, [], ◌∷◌, arith, str_eq,
}
use ledger_pro.Db.Tables.{Result, ok}

abbrev pub config : RouterConfig
config = record {
  api_keys =
      record { key = "w-key"; role = "write" } ∷ record { key = "r-key"; role = "read" } ∷ [];
  rate_limit_config = some (record { requests_per_window = 100; window_duration = 60000000000 });
  cors_config = none;
  bcrypt = record { generate = λ p. some p; matches = str_eq };
  parse_uuid = λ s. some 55;
  describe = λ l. "limit";
}

abbrev pub moment : Moment
moment = record {
  fresh_trace_id = "t-1";
  arrival = record { now = 1764000000000000000; random = 7; redis_fails = false };
  clock = record { now = 100; session_ttl = 100; pipeline_fails = false };
  ledger = calm;
  login_conditions = record {
    now = 100;
    session_ttl = 100;
    new_tenant_id = 8;
    new_user_id = 9;
    token = "tok";
    user_choice = 0;
    user_query_fails = false;
    tenant_fails = false;
    user_fails = false;
    random_fails = false;
    store_fails = false;
  };
  document = quiet;
  probes = record {
    postgres = record { latency = "1ms"; failure = none };
    pool_stat = "total=1 acquired=0 idle=1";
    redis = record { latency = "1ms"; failure = some "refused" };
    uptime = "1s";
  };
  query_fails = false;
  second_query_fails = false;
  revoke_fails = false;
}

abbrev pub request : String → Target → HttpRequest
request key target = record {
  method = "POST";
  remote_addr = "10.0.0.1";
  trace_id = "";
  auth = record {
    path = "/v1/transactions";
    session_token = none;
    api_key = key;
    authorization = "";
  };
  target = target;
}

abbrev pub selling : HttpRequest
selling = request "w-key" (to_create_transaction "k-1" (ok sale))

abbrev pub start : World
start = record { ledger = fresh; sessions = []; limiters = λ k. no_members; objects = [] }

abbrev answer_status : Answer → ℕ
answer_status (transaction_answer r) = status_of r
answer_status (refusal p) = p.status
answer_status (health_answer code body) = code
answer_status _ = 0

book-IsSound : IsSound (documents_of start)
book-IsSound = record {
  ledger = book-IsValid;
  references = record {
    users = tt;
    accounts = (refl, (refl, (refl, tt)));
    transactions = tt;
    postings = tt;
    outbox = tt;
    documents = tt;
    posting_accounts = tt;
    document_transactions = tt;
  };
  account_ids = record {
    rising = (omega arith, (omega arith, (omega arith, tt)));
    drawn = (omega arith, (omega arith, (omega arith, tt)));
    positive = omega arith;
  };
  stored = tt;
}

serve_all-IsSound_example :
    IsSound (documents_of (serve_all config ((moment, selling) ∷ (moment, selling) ∷ []) start))
serve_all-IsSound_example =
    serve_all-IsSound config ((moment, selling) ∷ (moment, selling) ∷ []) start book-IsSound

serve_writers_example :
    SameBooks (documents_of start) (documents_of (serve config moment selling start).1)
    ⊎ IsWriter config moment selling start
serve_writers_example =
    serve_writers config moment selling start (record { key = "w-key"; role = "write" })
      (record { key = "r-key"; role = "read" } ∷ []) refl

-- The key w-key is of the default tenant.
writer_passes :
    (guard config moment selling start).0 ≡ ok (record { role = "write"; tenant_id = 0 })
unfolding guard access authenticate strip_prefix session_identity key_identity require_role
writer_passes = refl

abbrev tagged : Identity → Result ProblemDetail Identity
tagged who = ok who

same_caller : (a b : Identity) → tagged a ≡ tagged b → a ≡ b
same_caller a b h = cc

not_tenant_7 : (who : Identity) → (guard config moment selling start).0 ≡ ok who → who.tenant_id ≢ 7
not_tenant_7 who h e =
    let same = same_caller (record { role = "write"; tenant_id = 0 }) who (sym writer_passes ∙ h) in
    absurd (omega (arith, e, ap (λ i. i.tenant_id) same))

serve-SameTenantView_example :
    SameTenantView 7 start.ledger.db (serve config moment selling start).1.ledger.db
serve-SameTenantView_example =
    serve-SameTenantView config moment selling start 7 book-IsSound not_tenant_7

abbrev after_sale : World
after_sale = (serve config moment selling start).1

SystemReachable-IsConsistent_example : IsConsistent (documents_of after_sale)
SystemReachable-IsConsistent_example =
    SystemReachable-IsConsistent config default_worker {start = start} {w = after_sale}
      (one_more start_here (serves moment selling)) (book-IsSound, refl)

-- The sale is written, a reader's is refused, and so is one without a key.
sale_served : answer_status (serve config moment selling start).0.answer ≡ 201
unfolding serve serve_limited rate_limit run_script serve_guarded guard access authenticate
    strip_prefix session_identity key_identity require_role handle create_transaction_handler
    validate_create_transaction_request check_legs handle_valid Ledger.create_transaction
    validate_request sum_legs replay_of execute run_transaction insert_postings run_deferred
    insert_transaction_row create_posting create_outbox_event check_transaction_balance
    get_postings_by_transaction_id cache_get
sale_served = refl

reader_refused :
    answer_status (serve config moment (request "r-key" selling.target) start).0.answer ≡ 403
unfolding serve serve_limited rate_limit run_script serve_guarded guard access authenticate
    strip_prefix session_identity key_identity require_role
reader_refused = refl

stranger_refused :
    answer_status (serve config moment (request "" selling.target) start).0.answer ≡ 401
unfolding serve serve_limited rate_limit run_script serve_guarded guard access authenticate
    strip_prefix session_identity key_identity require_role
stranger_refused = refl
