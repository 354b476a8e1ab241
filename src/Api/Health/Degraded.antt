-- ===== src/Api/Health/Degraded.antt =====
-- internal/api/handler.go: what the status of GET /v1/health says of the dependencies.
use ledger_pro.Api.Health.{DependencyHealth, Probes, health_check}
use ledger_pro.Prelude.{
  String, ◌≡◌, refl, inl, inr, Bool, str_eq, if◌then◌else◌, Option-cases, exists_row,
}

abbrev pub is_unhealthy : String × DependencyHealth → Bool
is_unhealthy d = str_eq d.1.status "unhealthy"

-- The health check answers 503 exactly when some dependency of the answer is unhealthy, and 200
-- otherwise; the text of the status agrees with it.
pub health_check_status :
    (p : Probes)
    → let r = health_check p in
      (r.0 ≡ (if exists_row is_unhealthy r.1.dependencies then 503 else 200))
      × (r.1.status ≡ (if exists_row is_unhealthy r.1.dependencies then "degraded" else "healthy"))
unfolding health_check
health_check_status p = elim (Option-cases p.postgres.failure) [
  | inl a ↦ elim (Option-cases p.redis.failure) [
    | inl b ↦ rw a (rw b (refl, refl))
    | inr (e, b) ↦ rw a (rw b (refl, refl))
  ]
  | inr (d, a) ↦ rw a (refl, refl)
]
