-- ===== src/Api/RateLimit/Window.antt =====
-- internal/api/middleware.go: how many requests of a client the limiter lets through in one window.
use ledger_pro.Api.RateLimit.{
  RateLimitConfig, to_float64, Member, same_member, Limiter, Arrival, window_start, live_members,
  purge, zadd, member_of, nanos_of_millis, run_script, rate_limit,
}
use ledger_pro.Prelude.Paging.{later_again}
use ledger_pro.Prelude.{
  ℕ, ◌+◌, ◌-◌, ◌≤◌, ◌<◌, String, ◌≡◌, refl, sym, ap, subst, ◌∙◌, inl, inr, Bool, true, false, not,
  List, [], ◌∷◌, arith, ltb, leb, if◌then◌else◌, Bool-cases, All, length, where_rows, All-map,
  length-where_rows-le,
}

abbrev pub no_members : Limiter
no_members = record { members = []; expires = 0 }

-- The members of the requests that the script has let through, the newest first. A request that
-- passes because Redis fails is in no log.
abbrev pub log_after : RateLimitConfig → Arrival → Limiter → List Member → List Member
log_after cfg a l log =
    if a.redis_fails then log else if (run_script cfg a l).0.allowed then member_of a ∷ log else log

-- The time of the last run of the script.
abbrev pub clock_after : Arrival → ℕ → ℕ
clock_after a last = if a.redis_fails then last else a.now

-- Where doubles have the steps of `to_float64`.
pub record InRange (cfg : RateLimitConfig) (now : ℕ) : Type 0 where
  pub after_2006 : 1152921504606846976 + cfg.window_duration ≤ now
  pub before_2043 : now < 2305843009213693952

-- Requests one after another, with a clock that does not go back.
pub data Run (describe : RateLimitConfig → String) (cfg : RateLimitConfig)
    : List Member → Limiter → ℕ → Type 0 where
  started : Run describe cfg [] no_members 0
  served :
      {log : List Member} {l : Limiter} {last : ℕ}
      → Run describe cfg log l last
      → (a : Arrival) → last ≤ a.now
      → InRange cfg a.now
      → Run describe cfg
          (log_after cfg a l log)
          (rate_limit describe cfg a l).1
          (clock_after a last)

-- Each name once, with its newest score.
abbrev pub by_name : List Member → List Member
by_name [] = []
by_name (m ∷ log) = m ∷ where_rows (λ x. not (same_member m x)) (by_name log)

abbrev pub in_window : RateLimitConfig → ℕ → List Member → List Member
in_window cfg last log = purge (window_start cfg last) (by_name log)

-- What the set holds, compared with the log.
record Counts (cfg : RateLimitConfig) (log : List Member) (l : Limiter) (last : ℕ) : Type 0 where
  holds : l.members ≡ in_window cfg last log
  bound : length l.members ≤ cfg.requests_per_window
  past : All (λ m. m.score ≤ to_float64 last) (by_name log)
  horizon : All (λ m. m.score ≤ to_float64 (l.expires - cfg.window_duration)) (by_name log)

to_float64-le : (m n : ℕ) → m ≤ n → to_float64 m ≤ to_float64 n
to_float64-le m n h = ground (arith, h)

to_float64-lt : (m n : ℕ) → m + 1000 ≤ n → to_float64 m < to_float64 n
to_float64-lt m n h = ground (arith, h)

All-where {ℓ} :
    (P : Member → Type ℓ) (p : Member → Bool) (xs : List Member)
    → All P xs
    → All P (where_rows p xs)
All-where P p [] h = tt
All-where P p (x ∷ xs) h = elim (Bool-cases (p x)) [
  | inl e ↦ rw e (h.0, All-where P p xs h.1)
  | inr e ↦ rw e (All-where P p xs h.1)
]

none_later : (start : ℕ) (ms : List Member) → All (λ m. m.score ≤ start) ms → purge start ms ≡ []
none_later start [] h = refl
none_later start (m ∷ ms) h = ground (arith, h.0, none_later start ms h.1)

length-purge : (start : ℕ) (ms : List Member) → length (purge start ms) ≤ length ms
length-purge start [] = omega arith
length-purge start (m ∷ ms) = ground (arith, length-purge start ms)

where_rows-swap :
    (p q : Member → Bool) (xs : List Member)
    → where_rows p (where_rows q xs) ≡ where_rows q (where_rows p xs)
where_rows-swap p q [] = refl
where_rows-swap p q (x ∷ xs) = ground (arith, where_rows-swap p q xs)

-- Adding a member and purging commute, for one whose score is in the window.
zadd-purge :
    (start : ℕ) (m : Member) (ms : List Member)
    → start < m.score
    → zadd m (purge start ms) ≡ purge start (zadd m ms)
zadd-purge start m ms lt =
    let inside = ltb-true start m.score lt in
    rw inside
      (ap (λ xs. m ∷ xs) (where_rows-swap (λ x. not (same_member m x)) (λ x. ltb start x.score) ms))
  where
    ltb-true : (a b : ℕ) → a < b → ltb a b ≡ true
    ltb-true a b h = ground arith

module _ (describe : RateLimitConfig → String) (cfg : RateLimitConfig)
    (wide : 0 < cfg.window_duration)
    (whole : nanos_of_millis cfg.window_duration ≡ cfg.window_duration) (a : Arrival)
    {log : List Member} {l : Limiter} {last : ℕ} (inv : Counts cfg log l last) (le : last ≤ a.now)
    (range : InRange cfg a.now) where
  live_purged : purge (window_start cfg a.now) (live_members a.now l) ≡ in_window cfg a.now log
  live_purged = elim (Bool-cases (leb l.expires a.now)) [
    | inl e ↦ rw e (
        sym (
          none_later (window_start cfg a.now) (by_name log)
            (All-map (λ m h. omega (arith, h, horizon_passed e)) (by_name log) inv.horizon)))
    | inr e ↦ rw e (
        ap (purge (window_start cfg a.now)) inv.holds
        ∙ later_again (λ m. m.score) (window_start cfg last) (window_start cfg a.now) (by_name log)
            (to_float64-le (last - cfg.window_duration) (a.now - cfg.window_duration)
              (omega (arith, le))))
  ]
    where
      horizon_passed :
          leb l.expires a.now ≡ true
          → to_float64 (l.expires - cfg.window_duration) ≤ to_float64 (a.now - cfg.window_duration)
      horizon_passed e =
          to_float64-le (l.expires - cfg.window_duration) (a.now - cfg.window_duration)
            (ground (arith, e))

  live_length :
      length (purge (window_start cfg a.now) (live_members a.now l)) ≤ cfg.requests_per_window
  live_length = ground (arith, length-purge (window_start cfg a.now) l.members, inv.bound)

  newer : All (λ m. m.score ≤ to_float64 a.now) (by_name log)
  newer =
      let older = to_float64-le last a.now le in
      All-map (λ m h. omega (arith, h, older)) (by_name log) inv.past

  newest : window_start cfg a.now < to_float64 a.now
  newest =
      to_float64-lt (a.now - cfg.window_duration) a.now
        (ground (arith, wide, whole, range.after_2006))

  end_of_window : a.now + cfg.window_duration - cfg.window_duration ≡ a.now
  end_of_window = omega arith

  added_length :
      leb cfg.requests_per_window (length (purge (window_start cfg a.now) (live_members a.now l)))
        ≡ false
      → length (zadd (member_of a) (purge (window_start cfg a.now) (live_members a.now l)))
        ≤ cfg.requests_per_window
  added_length room =
      let kept = purge (window_start cfg a.now) (live_members a.now l) in
      let fewer = length-where_rows-le (λ x. not (same_member (member_of a) x)) kept in
      let below : length kept < cfg.requests_per_window = ground (arith, room) in
      omega (arith, fewer, below)

  refused-Counts :
      leb cfg.requests_per_window (length (purge (window_start cfg a.now) (live_members a.now l)))
        ≡ true
      → a.redis_fails ≡ false
      → Counts cfg (log_after cfg a l log) (rate_limit describe cfg a l).1 (clock_after a last)
  unfolding run_script rate_limit
  refused-Counts full works =
      rw (works, full)
        (record { holds = live_purged; bound = live_length; past = newer; horizon = inv.horizon })

  allowed-Counts :
      leb cfg.requests_per_window (length (purge (window_start cfg a.now) (live_members a.now l)))
        ≡ false
      → a.redis_fails ≡ false
      → Counts cfg (log_after cfg a l log) (rate_limit describe cfg a l).1 (clock_after a last)
  unfolding run_script rate_limit
  allowed-Counts room works =
      rw (works, room)
        (rw whole (record {
          holds =
              ap (zadd (member_of a)) live_purged
              ∙ zadd-purge (window_start cfg a.now) (member_of a) (by_name log) newest;
          bound = added_length room;
          past = (omega arith, All-where _ _ _ newer);
          horizon =
              subst (λ t. All (λ m. m.score ≤ to_float64 t) (zadd (member_of a) (by_name log)))
                (sym end_of_window) (omega arith, All-where _ _ _ newer);
        }))

failing-Counts :
    (describe : RateLimitConfig → String) (cfg : RateLimitConfig) (a : Arrival) {log : List Member}
    {l : Limiter} {last : ℕ}
    → a.redis_fails ≡ true
    → Counts cfg log l last
    → Counts cfg (log_after cfg a l log) (rate_limit describe cfg a l).1 (clock_after a last)
unfolding rate_limit
failing-Counts describe cfg a fails inv = rw fails inv

Run-Counts :
    (describe : RateLimitConfig → String) (cfg : RateLimitConfig)
    → 0 < cfg.window_duration
    → nanos_of_millis cfg.window_duration ≡ cfg.window_duration
    → {log : List Member} {l : Limiter} {last : ℕ} → Run describe cfg log l last
    → Counts cfg log l last
Run-Counts describe cfg wide whole started = record {
  holds = refl;
  bound = omega arith;
  past = tt;
  horizon = tt;
}
Run-Counts describe cfg wide whole (served {log} {l} {last} run a le range) =
    let inv = Run-Counts describe cfg wide whole run in
    elim (Bool-cases a.redis_fails) [
      | inl fails ↦ failing-Counts describe cfg a fails inv
      | inr works ↦
          elim (Bool-cases (
            leb cfg.requests_per_window
              (length (purge (window_start cfg a.now) (live_members a.now l))))) [
                | inl full ↦ refused-Counts describe cfg wide whole a inv le range full works
                | inr room ↦ allowed-Counts describe cfg wide whole a inv le range room works
              ]
    ]

-- However the requests of a client arrive, with a clock that does not go back and stays between 2006
-- and 2043, where doubles have steps of 256 ns: of the requests that the script has let through, at
-- most requests_per_window have different member names and a score in the window that ends at the
-- script's last run, for a window of a positive whole number of milliseconds. Requests whose names
-- coincide count once, and those that pass while Redis fails do not count.
pub rate_limit_bound :
    (describe : RateLimitConfig → String) (cfg : RateLimitConfig)
    → 0 < cfg.window_duration
    → nanos_of_millis cfg.window_duration ≡ cfg.window_duration
    → {log : List Member} {l : Limiter} {last : ℕ} → Run describe cfg log l last
    → length (in_window cfg last log) ≤ cfg.requests_per_window
rate_limit_bound describe cfg wide whole run =
    let inv = Run-Counts describe cfg wide whole run in
    subst (λ ms. length ms ≤ cfg.requests_per_window) inv.holds inv.bound
