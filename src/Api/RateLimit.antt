-- ===== src/Api/RateLimit.antt =====
-- internal/api/middleware.go: RateLimitMiddleware and its Lua script, for the sorted set of one
-- client. Times are nanoseconds, from 2 ^ 60 to 2 ^ 61, which are the years 2006 to 2043; the clock of
-- Redis, which the expiry of the key goes by, is taken to agree with the server's.
pub mod Window
use ledger_pro.Prelude.{
  ℕ, ◌+◌, ◌-◌, ◌*◌, ◌/◌, ◌%◌, String, Bool, true, false, not, ◌&&◌, Option, none, some, List, [],
  ◌∷◌, ltb, leb, ◌==◌, if◌then◌else◌, length, where_rows,
}
use ledger_pro.Api.Problem.{ProblemDetail, rate_limit_exceeded}

pub record RateLimitConfig : Type 0 where
  pub requests_per_window : ℕ
  pub window_duration : ℕ

-- To the nearest multiple of the step, and from the middle to the even one.
abbrev pub round_even : ℕ → ℕ → ℕ
round_even step n =
    if ltb (n % step * 2) step
    then n / step * step
    else if ltb step (n % step * 2)
    then (n / step + 1) * step
    else (n / step + n / step % 2) * step

-- float64(UnixNano): doubles from 2 ^ 60 to 2 ^ 61 are the multiples of 256.
abbrev pub to_float64 : ℕ → ℕ
to_float64 = round_even 256

-- Lua writes a number with 14 digits; a time of nanoseconds has 19.
abbrev pub printed_number : ℕ → ℕ
printed_number = round_even 100000

-- A member of the sorted set. Its name is `now .. ':' .. math.random(1000000)`: the number that Lua
-- writes, and the random one.
pub record Member : Type 0 where
  pub printed : ℕ
  pub random : ℕ
  pub score : ℕ

abbrev pub same_member : Member → Member → Bool
same_member m x = (x.printed == m.printed) && (x.random == m.random)

-- The sorted set under the client's key, and when the key expires.
pub record Limiter : Type 0 where
  pub members : List Member
  pub expires : ℕ

-- What a request brings: the clock, what math.random gives, and whether Redis fails.
pub record Arrival : Type 0 where
  pub now : ℕ
  pub random : ℕ
  pub redis_fails : Bool

abbrev pub window_start : RateLimitConfig → ℕ → ℕ
window_start cfg now = to_float64 (now - cfg.window_duration)

-- An expired key is an empty set.
abbrev pub live_members : ℕ → Limiter → List Member
live_members now l = if leb l.expires now then [] else l.members

-- ZREMRANGEBYSCORE key -inf window_start
abbrev pub purge : ℕ → List Member → List Member
purge start members = where_rows (λ m. ltb start m.score) members

-- ZADD: a member that is there gets the new score.
abbrev pub zadd : Member → List Member → List Member
zadd m members = m ∷ where_rows (λ x. not (same_member m x)) members

abbrev pub member_of : Arrival → Member
member_of a = record {
  printed = printed_number (to_float64 a.now);
  random = a.random;
  score = to_float64 a.now;
}

-- PEXPIRE key window_ms
abbrev pub nanos_of_millis : ℕ → ℕ
nanos_of_millis ns = ns / 1000000 * 1000000

-- The script: whether the request is allowed, the count that it reports, and the set after it.
pub record Verdict : Type 0 where
  pub allowed : Bool
  pub current : ℕ

unfoldable pub run_script : RateLimitConfig → Arrival → Limiter → Verdict × Limiter
run_script cfg a l =
    let members = purge (window_start cfg a.now) (live_members a.now l) in
    if leb cfg.requests_per_window (length members)
    then (record { allowed = false; current = length members }, record l { members = members })
    else (
      record { allowed = true; current = length members + 1 },
      record {
        members = zadd (member_of a) members;
        expires = a.now + nanos_of_millis cfg.window_duration;
      },
    )

-- X-RateLimit-Remaining
abbrev pub remaining : RateLimitConfig → Verdict → ℕ
remaining cfg v = cfg.requests_per_window - v.current

-- `none` is the call of the next handler. Where Redis fails the request passes. `describe` prints
-- the limit and the window, as Sprintf does.
unfoldable pub rate_limit :
    (RateLimitConfig → String)
    → RateLimitConfig
    → Arrival
    → Limiter
    → Option ProblemDetail × Limiter
rate_limit describe cfg a l =
    if a.redis_fails
    then (none, l)
    else (let (v, l') = run_script cfg a l in
        if v.allowed then (none, l') else (some (rate_limit_exceeded (describe cfg)), l'))
