-- ===== src/Api/Access/Granted.antt =====
-- internal/api/middleware.go, internal/api/router.go: who reaches the handler of a guarded route.
use ledger_pro.Api.Access.{
  ApiKeyEntry, AuthRequest, Identity, SessionClock, is_public, session_identity, presented_key,
  find_key, key_identity, authenticate, require_role, Route, allowed_roles, check_route, access,
}
use ledger_pro.Service.Sessions.{SessionEntry, validate_session}
use ledger_pro.Prelude.{
  String, ◌≡◌, refl, sym, ap, ◌∙◌, ◌⊎◌, inl, inr, true, false, Option, none, some, List, ◌∷◌, arith,
  str_eq, Bool-cases, Option-cases, exists_row,
}
use ledger_pro.Db.Tables.{Result, ok, Result-cases}
use ledger_pro.Api.Problem.{ProblemDetail}

-- A session that validates has this role and tenant.
pub record HasSession (c : SessionClock) (req : AuthRequest) (sessions : List SessionEntry)
    (who : Identity) : Type 0 where
  pub token : String
  pub cookie : req.session_token ≡ some token
  pub valid :
      (validate_session c.pipeline_fails c.now c.session_ttl token sessions).0
      ≡ ok (record { role = who.role; tenant_id = who.tenant_id })

-- A configured key has this role, and the default tenant.
pub record HasKey (keys : List ApiKeyEntry) (req : AuthRequest) (who : Identity) : Type 0 where
  pub entry : ApiKeyEntry
  pub known : find_key (presented_key req) keys ≡ some entry
  pub gives : who ≡ record { role = entry.role; tenant_id = 0 }

session_identity-some :
    (c : SessionClock) (req : AuthRequest) (sessions : List SessionEntry) (cookie : Option String)
    (who : Identity)
    → req.session_token ≡ cookie
    → (session_identity c cookie sessions).0 ≡ some who
    → HasSession c req sessions who
unfolding session_identity
session_identity-some c req sessions none who same h = cc
session_identity-some c req sessions (some token) who same h = record {
  token = token;
  cookie = same;
  valid = ground arith;
}

key_identity-ok :
    (keys : List ApiKeyEntry) (req : AuthRequest) (who : Identity)
    → key_identity keys (presented_key req) ≡ ok who
    → HasKey keys req who
unfolding key_identity
key_identity-ok keys req who h = elim (Option-cases (find_key (presented_key req) keys)) [
  | inl e ↦ absurd (ground (arith, rw e at h))
  | inr (entry, e) ↦ record { entry = entry; known = e; gives = ground (arith, rw e at h) }
]

abbrev granted : Identity → Result ProblemDetail Identity
granted who = ok who

same_identity : (a b : Identity) → granted a ≡ granted b → a ≡ b
same_identity a b h = cc

authenticate-ok :
    (keys : List ApiKeyEntry) (c : SessionClock) (req : AuthRequest) (sessions : List SessionEntry)
    (who : Identity)
    → is_public req.path ≡ false
    → (authenticate keys c req sessions).0 ≡ ok who
    → HasSession c req sessions who ⊎ HasKey keys req who
unfolding authenticate
authenticate-ok keys c req sessions who guarded h =
    elim (Option-cases (session_identity c req.session_token sessions).0) [
      | inl e ↦ inr (key_identity-ok keys req who (rw (guarded, e) at h))
      | inr (found, e) ↦
          let same = same_identity found who (rw (guarded, e) at h) in
          inl (session_identity-some c req sessions req.session_token who refl (e ∙ ap some same))
    ]

require_role-ok :
    (allowed : List String) (who who' : Identity)
    → require_role allowed who ≡ ok who'
    → (who ≡ who') × (exists_row (λ r. str_eq r who'.role) allowed ≡ true)
unfolding require_role
require_role-ok allowed who who' h =
    elim (Bool-cases (exists_row (λ r. str_eq r who.role) allowed)) [
      | inl e ↦
          let same = same_identity who who' (ground (arith, rw e at h)) in (same, rw (sym same) e)
      | inr e ↦ absurd (ground (arith, rw e at h))
    ]

-- The role check of a group holds for whoever comes through.
pub access-role :
    (k : ApiKeyEntry) (ks : List ApiKeyEntry) (c : SessionClock) (route : Route) (req : AuthRequest)
    (sessions : List SessionEntry) (allowed : List String) (who : Identity)
    → allowed_roles route ≡ some allowed
    → (access (k ∷ ks) c route req sessions).0 ≡ ok who
    → ((authenticate (k ∷ ks) c req sessions).0 ≡ ok who)
      × (exists_row (λ r. str_eq r who.role) allowed ≡ true)
unfolding access
access-role k ks c route req sessions allowed who guards h =
    elim (Result-cases (authenticate (k ∷ ks) c req sessions).0) [
      | inl (found, e) ↦
          let (same, member) =
            require_role-ok allowed found who (rw (e, check_route, guards) at h) in
          (e ∙ ap ok same, member)
      | inr (p, e) ↦ absurd (ground (arith, rw e at h))
    ]

-- Where API keys are configured, whoever reaches the handler of a route with a role check has one
-- of the roles of the route, and that role is the one of a session that validates, with the
-- session's tenant, or of a configured key, with the default tenant; the paths without
-- authentication are left aside.
pub access_granted :
    (k : ApiKeyEntry) (ks : List ApiKeyEntry) (c : SessionClock) (route : Route) (req : AuthRequest)
    (sessions : List SessionEntry) (allowed : List String) (who : Identity)
    → allowed_roles route ≡ some allowed
    → is_public req.path ≡ false
    → (access (k ∷ ks) c route req sessions).0 ≡ ok who
    → (exists_row (λ r. str_eq r who.role) allowed ≡ true)
      × (HasSession c req sessions who ⊎ HasKey (k ∷ ks) req who)
access_granted k ks c route req sessions allowed who guards guarded h =
    let (known, member) = access-role k ks c route req sessions allowed who guards h in
    (member, authenticate-ok (k ∷ ks) c req sessions who guarded known)
