-- ===== src/Tests/AccessRuns.antt =====
-- Rate limits, sessions, roles and signups at concrete inputs.
use ledger_pro.Api.Access.{
  ApiKeyEntry, AuthRequest, Identity, SessionClock, is_public, session_identity, find_key,
  key_identity, authenticate, require_role, Route, writers, access,
}
use ledger_pro.Api.Access.Granted.{HasSession, HasKey, access_granted}
use ledger_pro.Api.Keys.{split_on, trim_left, trim_right, cut_colon, add_pairs, load_api_keys}
use ledger_pro.Api.Keys.Usable.{load_api_keys_authenticate}
use ledger_pro.Api.Problem.{ProblemDetail}
use ledger_pro.Api.Http.{Context, Reply, reply_json, status_of}
use ledger_pro.Api.Login.{
  Bcrypt, SignIn, AuthState, LoginConditions, sign_in, login_handler, register, signup_handler,
}
use ledger_pro.Api.Login.Signup.{CanRegister, users_of, signup_then_login, signup_taken_email}
use ledger_pro.Api.RateLimit.{
  RateLimitConfig, Member, same_member, Limiter, Arrival, member_of, run_script, rate_limit,
}
use ledger_pro.Api.RateLimit.Window.{
  no_members, log_after, InRange, Run, started, served, in_window, rate_limit_bound,
}
use ledger_pro.Db.Users.{create_tenant, create_user}
use ledger_pro.Service.Sessions.{
  SessionData, SessionEntry, invalid_session, create_session, decode_session, validate_session,
  revoke_session,
}
use ledger_pro.Service.Sessions.Lifetime.{visit_all, create_session_lives, revoke_session-gone}
use ledger_pro.Prelude.Text.{◌<>◌, strip_prefix}
use ledger_pro.Prelude.{
  ℕ, ◌+◌, ◌≤◌, String, ◌≡◌, refl, ◌⊎◌, true, false, some, List, [], ◌∷◌, arith, str_eq, length,
  exists_row,
}
use ledger_pro.Db.Tables.{ok, err}
use ledger_pro.Tests.Sample.{book}
use ledger_pro.Db.Models.{User}

-- Two requests a minute.
abbrev limit : RateLimitConfig
limit = record { requests_per_window = 2; window_duration = 60000000000 }

-- Nanoseconds after some day in November 2025.
abbrev at_nanos : ℕ → ℕ
at_nanos n = 1764000000000000000 + n

abbrev arrival : ℕ → ℕ → Arrival
arrival now random = record { now = at_nanos now; random = random; redis_fails = false }

abbrev limit_text : RateLimitConfig → String
limit_text cfg = "limit"

abbrev one_seen : Limiter
one_seen = (rate_limit limit_text limit (arrival 0 4) no_members).1

abbrev two_seen : Limiter
two_seen = (rate_limit limit_text limit (arrival 200000 5) one_seen).1

abbrev log_of_three : List Member
log_of_three =
    log_after limit (arrival 300000 6) two_seen
      (log_after limit (arrival 200000 5) one_seen (log_after limit (arrival 0 4) no_members []))

in_range : (n : ℕ) → n ≤ 300000 → InRange limit (at_nanos n)
in_range n h = record { after_2006 = omega (arith, h); before_2043 = omega (arith, h) }

three_requests :
    Run limit_text limit log_of_three
      (rate_limit limit_text limit (arrival 300000 6) two_seen).1
      (at_nanos 300000)
unfolding run_script rate_limit
three_requests =
    served
      (served (served started (arrival 0 4) (omega arith) (in_range 0 (omega arith)))
        (arrival 200000 5) (omega arith) (in_range 200000 (omega arith)))
      (arrival 300000 6) (omega arith) (in_range 300000 (omega arith))

third_refused : log_of_three ≡ member_of (arrival 200000 5) ∷ member_of (arrival 0 4) ∷ []
unfolding run_script rate_limit
third_refused = refl

-- Two requests within 100 microseconds that draw the same number share a member.
shared_member : same_member (member_of (arrival 0 4)) (member_of (arrival 40000 4)) ≡ true
shared_member = refl

rate_limit_bound_example : length (in_window limit (at_nanos 300000) log_of_three) ≤ 2
rate_limit_bound_example =
    rate_limit_bound limit_text limit (omega arith) refl {log = log_of_three}
      {l = (rate_limit limit_text limit (arrival 300000 6) two_seen).1} {last = at_nanos 300000}
      three_requests

-- A session of the tenant 7 with an expiry of 100.
abbrev one_session : List SessionEntry
one_session = (create_session false false 10 100 "tok" "write" 7 []).1

abbrev writer : SessionData
writer = record { role = "write"; tenant_id = 7 }

create_session_lives_example :
    visit_all 100 "tok" (60 ∷ 150 ∷ []) one_session ≡ ok writer ∷ ok writer ∷ []
create_session_lives_example =
    create_session_lives 10 100 "tok" "write" 7 (60 ∷ 150 ∷ []) [] (omega arith, (omega arith, tt))

revoke_session-gone_example :
    let after = (revoke_session false "tok" one_session).1 in
    (validate_session false 20 100 "tok" after ≡ (err invalid_session, after))
    × ((other : String)
        → str_eq "tok" other ≡ false
        → (validate_session false 20 100 other after).0
          ≡ (validate_session false 20 100 other one_session).0)
revoke_session-gone_example = revoke_session-gone 20 100 "tok" one_session

abbrev read_key : ApiKeyEntry
read_key = record { key = "k-read"; role = "read" }

abbrev clock : SessionClock
clock = record { now = 20; session_ttl = 100; pipeline_fails = false }

abbrev posting_request : AuthRequest
posting_request = record {
  path = "/v1/transactions";
  session_token = some "tok";
  api_key = "k-read";
  authorization = "";
}

abbrev write_identity : Identity
write_identity = record { role = "write"; tenant_id = 7 }

posting_passes :
    (access (read_key ∷ []) clock Route.create_transaction posting_request one_session).0
    ≡ ok write_identity
unfolding access authenticate session_identity create_session validate_session require_role
    decode_session strip_prefix
posting_passes = refl

posting_guarded : is_public posting_request.path ≡ false
unfolding strip_prefix
posting_guarded = refl

access_granted_example :
    (exists_row (λ r. str_eq r "write") writers ≡ true)
    × (HasSession clock posting_request one_session write_identity
        ⊎ HasKey (read_key ∷ []) posting_request write_identity)
access_granted_example =
    access_granted read_key [] clock Route.create_transaction posting_request one_session writers
      write_identity refl posting_guarded posting_passes

-- A hash function that anyone can undo.
abbrev toy_bcrypt : Bcrypt
toy_bcrypt = record { generate = λ p. some ("#" <> p); matches = λ h p. str_eq h ("#" <> p) }

abbrev context : Context
context = record { path = "/v1/auth/signup"; trace_id = "t"; tenant_id = 0 }

abbrev drawn : ℕ → ℕ → String → LoginConditions
drawn t u token = record {
  now = 30;
  session_ttl = 100;
  new_tenant_id = t;
  new_user_id = u;
  token = token;
  user_choice = 0;
  user_query_fails = false;
  tenant_fails = false;
  user_fails = false;
  random_fails = false;
  store_fails = false;
}

abbrev empty_office : AuthState
empty_office = record { db = book; sessions = [] }

first_signup :
    (signup_handler toy_bcrypt context
      (drawn 8 1 "s-1")
      (some (record { email = "a@b"; password = "one" }))
      empty_office).0
    ≡ reply_json 201 (record { role = "admin"; cookie = "s-1" })
unfolding signup_handler register sign_in create_tenant create_user create_session
first_signup = refl

abbrev office : AuthState
office =
    (signup_handler toy_bcrypt context (drawn 8 1 "s-1")
      (some (record { email = "a@b"; password = "one" })) empty_office).1

abbrev first_user : User
first_user = record {
  id = 1;
  email = "a@b";
  password_hash = "#one";
  role = "admin";
  created_at = 30;
  updated_at = 30;
  tenant_id = 8;
}

office_user : users_of "a@b" office.db ≡ first_user ∷ []
unfolding signup_handler register sign_in create_tenant create_user create_session
office_user = refl

office_ready : CanRegister (drawn 9 2 "s-2") "a@b" "#two" office.db
unfolding signup_handler register sign_in create_tenant create_user create_session
office_ready = record {
  name_fits = refl;
  email_fits = refl;
  hash_fits = refl;
  tenant_works = refl;
  user_works = refl;
  random_works = refl;
  store_works = refl;
  new_tenant_id = refl;
  new_user_id = refl;
  no_user_of_it = refl;
}

signup_then_login_example :
    (login_handler toy_bcrypt [] context
      (drawn 9 2 "s-2")
      (some (record { api_key = ""; email = "a@b"; password = "one" }))
      office).0
    ≡ reply_json 200 (record { role = "admin"; cookie = "s-2" })
signup_then_login_example =
    signup_then_login toy_bcrypt [] context context (drawn 8 1 "s-1") (drawn 9 2 "s-2") "a@b" "one"
      "#one" empty_office (record { role = "admin"; cookie = "s-1" }) refl refl refl refl refl
      first_signup refl refl refl

-- The same address once more, with another password.
signup_taken_email_example :
    let (reply, after) =
      signup_handler toy_bcrypt context
        (drawn 9 2 "s-2")
        (some (record { email = "a@b"; password = "two" }))
        office in
    let login : ℕ → Reply SignIn = λ choice.
      (login_handler toy_bcrypt [] context
        (record (drawn 9 2 "s-3") { user_choice = choice })
        (some (record { api_key = ""; email = "a@b"; password = "two" }))
        after).0 in
    (reply ≡ reply_json 201 (record { role = "admin"; cookie = "s-2" }))
    × (status_of (login 0) ≡ 401)
    × (status_of (login 1) ≡ 200)
signup_taken_email_example =
    signup_taken_email toy_bcrypt [] context context (drawn 9 2 "s-2") (drawn 9 2 "s-3") "a@b" "two"
      "#two" office [] [] first_user refl refl refl refl office_user refl office_ready refl refl
      refl

keys_load :
    load_api_keys " k-1 : read ,bad,:x,k-2:admin:y"
    ≡ record { key = "k-2"; role = "admin:y" } ∷ record { key = "k-1"; role = "read" } ∷ []
unfolding load_api_keys add_pairs split_on cut_colon trim_left trim_right
keys_load = refl

key_found :
    find_key "k-1" (load_api_keys "k-1:read,k-2:admin")
    ≡ some (record { key = "k-1"; role = "read" })
unfolding load_api_keys add_pairs split_on cut_colon trim_left trim_right
key_found = refl

load_api_keys_authenticate_example :
    (key_identity (load_api_keys "k-1:read,k-2:admin") "k-1"
      ≡ ok (record { role = "read"; tenant_id = 0 }))
    × ((require_role writers (record { role = "read"; tenant_id = 0 })
          ≡ ok (record { role = "read"; tenant_id = 0 }))
        ⊎ ((p : ProblemDetail) × (require_role writers (record { role = "read"; tenant_id = 0 })
              ≡ err p)
            × (p.status ≡ 403)))
load_api_keys_authenticate_example =
    load_api_keys_authenticate "k-1:read,k-2:admin" "k-1" (record { key = "k-1"; role = "read" })
      writers key_found
