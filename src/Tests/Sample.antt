-- ===== src/Tests/Sample.antt =====
-- A small book: the default tenant with two accounts, another tenant with one.
use ledger_pro.Service.Ledger.{CreateTransactionRequest, LedgerService, Conditions}
use ledger_pro.Service.Ledger.Invariant.{IsValid}
use ledger_pro.Prelude.{ℕ, String, refl, false, none, [], ◌∷◌, arith}
use ledger_pro.Prelude.Int.{int64_max}
use ledger_pro.Db.Models.{
  Uuid, AccountType, asset, revenue, PostingDirection, debit, credit, Account, PostingEntry,
}
use ledger_pro.Db.Tables.{Database}

abbrev account : ℕ → String → AccountType → Uuid → Account
account i name kind tenant = record {
  id = i;
  account_name = name;
  account_type = kind;
  currency = "INR";
  metadata = "{}";
  created_at = 10;
  tenant_id = tenant;
}

abbrev pub book : Database
book = record {
  tenants =
      record { id = 0; name = "Default Tenant"; created_at = 1 }
      ∷ record { id = 7; name = "Organization of b@example.com"; created_at = 2 }
      ∷ [];
  users = [];
  accounts = account 1 "Cash" asset 0 ∷ account 2 "Sales" revenue 0 ∷ account 3 "Cash" asset 7 ∷ [];
  transactions = [];
  postings = [];
  ledger_outbox = [];
  documents = [];
  accounts_id_seq = 4;
  postings_id_seq = 1;
}

abbrev pub fresh : LedgerService
fresh = record { db = book; cache = []; idempotency_ttl = 1000 }

-- Nothing fails.
abbrev pub calm : Conditions
calm = record {
  now = 100;
  transaction_id = 55;
  event_id = 66;
  outbox_id = 77;
  lock_fails = false;
  cache_get_fails = false;
  begin_fails = false;
  insert_fails = false;
  posting_fails = λ i. false;
  payload_fails = false;
  outbox_fails = false;
  commit_fails = false;
  fetch_fails = false;
  marshal_fails = false;
  cache_set_fails = false;
}

-- The same a little later.
abbrev pub later : Conditions
later = record calm { now = 500; transaction_id = 56; outbox_id = 78 }

abbrev pub leg : ℕ → ℕ → PostingDirection → PostingEntry
leg a n d = record { account_id = a; amount = n; direction = d }

abbrev pub sale : CreateTransactionRequest
sale = record {
  idempotency_key = "k-1";
  description = "sale";
  metadata = none;
  postings = leg 1 500 debit ∷ leg 2 300 credit ∷ leg 2 200 credit ∷ [];
}

-- Three debits that add up to 2 ^ 64, and no credit.
abbrev pub wrapping : CreateTransactionRequest
wrapping = record {
  idempotency_key = "k-2";
  description = "wrap";
  metadata = none;
  postings = leg 1 int64_max debit ∷ leg 1 int64_max debit ∷ leg 2 2 debit ∷ [];
}

pub book-IsValid : IsValid book
book-IsValid = record {
  linked = tt;
  transactions_balance = λ t. refl;
  tenants_balance = λ t. refl;
  unique_keys = tt;
  numbered = omega arith;
}
