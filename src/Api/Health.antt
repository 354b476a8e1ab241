-- ===== src/Api/Health.antt =====
-- internal/api/handler.go: HealthCheck. What the two pings and the clock give is an argument; a
-- latency is the text of its duration.
pub mod Degraded
use ledger_pro.Prelude.{
  ℕ, String, Bool, true, false, ◌&&◌, Option, none, some, List, [], ◌∷◌, ◌++◌, if◌then◌else◌,
}

pub record DependencyHealth : Type 0 where
  pub status : String
  pub latency : String
  pub error : String

pub record HealthResponse : Type 0 where
  pub status : String
  pub service : String
  pub version : String
  pub uptime : String
  pub dependencies : List (String × DependencyHealth)

-- A ping: how long it took, and the text of its error where there is one.
pub record Ping : Type 0 where
  pub latency : String
  pub failure : Option String

pub record Probes : Type 0 where
  pub postgres : Ping
  pub pool_stat : String
  pub redis : Ping
  pub uptime : String

abbrev pub ping_health : Ping → DependencyHealth
ping_health p = elim (p.failure) [
  | none ↦ record { status = "healthy"; latency = p.latency; error = "" }
  | some e ↦ record { status = "unhealthy"; latency = p.latency; error = e }
]

-- `== nil` on the error of a ping.
abbrev pub answered : Ping → Bool
answered p = elim (p.failure) [ none ↦ true | some e ↦ false ]

-- The pool's numbers are reported with a database that answers only.
abbrev pub postgres_entries : Probes → List (String × DependencyHealth)
postgres_entries p =
    ("postgresql", ping_health p.postgres)
    ∷ (if answered p.postgres
        then ("postgresql_pool", record { status = "info"; latency = p.pool_stat; error = "" }) ∷ []
        else [])

unfoldable pub health_check : Probes → ℕ × HealthResponse
health_check p =
    let all_healthy = answered p.postgres && answered p.redis in
    (
      if all_healthy then 200 else 503,
      record {
        status = if all_healthy then "healthy" else "degraded";
        service = "ledger_pro";
        version = "2.0.0";
        uptime = p.uptime;
        dependencies = postgres_entries p ++ ("redis", ping_health p.redis) ∷ [];
      },
    )
