-- ===== src/Service/Sessions/Lifetime.antt =====
-- internal/service/auth.go: how long a session lives.
use ledger_pro.Service.Sessions.{
  SessionData, encoded, SessionEntry, SessionError, invalid_session, has_token, is_live,
  without_token, put_session, create_session, decode_session, validate_session, revoke_session,
}
use ledger_pro.Prelude.{
  ℕ, ◌+◌, ◌<◌, String, ◌≡◌, refl, sym, ap, ◌∙◌, inl, inr, false, Option, none, some, List, [], ◌∷◌,
  map, arith, str_eq, eq_iff, lt→ltb, Bool-cases, Option-cases, first_row,
}
use ledger_pro.Db.Models.{Uuid, Timestamp}
use ledger_pro.Db.Tables.{Result, ok, err}

without_token-gone :
    (now : Timestamp) (token : String) (sessions : List SessionEntry)
    → first_row (is_live now token) (without_token token sessions) ≡ none
without_token-gone now token [] = refl
without_token-gone now token (e ∷ es) = ground (arith, without_token-gone now token es)

-- An entry of another token is passed over.
passed :
    (now : Timestamp) (other : String) (e : SessionEntry) (es : List SessionEntry)
    → str_eq e.token other ≡ false
    → first_row (is_live now other) (e ∷ es) ≡ first_row (is_live now other) es
passed now other e es ne = rw ne refl

without_token-others :
    (now : Timestamp) (token other : String) (sessions : List SessionEntry)
    → str_eq token other ≡ false
    → first_row (is_live now other) (without_token token sessions)
      ≡ first_row (is_live now other) sessions
without_token-others now token other [] ne = refl
without_token-others now token other (e ∷ es) ne =
    let rest = without_token-others now token other es ne in
    elim (Bool-cases (has_token token e)) [
      | inl same ↦
          rw same
            (rest ∙ (sym (passed now other e es (rw (sym ((eq_iff e.token token).0 same)) at ne))))
      | inr differs ↦ rw differs (ground (arith, rest))
    ]

-- What each of the requests with a token gets, at the given times.
abbrev pub visit_all :
    ℕ → String → List Timestamp → List SessionEntry → List (Result SessionError SessionData)
visit_all ttl token [] sessions = []
visit_all ttl token (now ∷ later) sessions =
    (validate_session false now ttl token sessions).0
    ∷ visit_all ttl token later (validate_session false now ttl token sessions).1

-- Each request comes before the expiry that the one before it has set.
abbrev pub Spaced : ℕ → Timestamp → List Timestamp → Type 0
Spaced ttl expires [] = Unit
Spaced ttl expires (now ∷ later) = (now < expires) × Spaced ttl (now + ttl) later

validate-put :
    (now ttl expires : ℕ) (token : String) (d : SessionData) (sessions : List SessionEntry)
    → now < expires
    → validate_session false now ttl token (put_session token (encoded d) expires sessions) ≡ (
      ok d,
      put_session token (encoded d) (now + ttl) (put_session token (encoded d) expires sessions),
    )
unfolding validate_session decode_session
validate-put now ttl expires token d sessions lt =
    ground (arith, (eq_iff token token).1 refl, lt→ltb now expires lt)

visit_all-put :
    (ttl expires : ℕ) (token : String) (d : SessionData) (times : List Timestamp)
    (sessions : List SessionEntry)
    → Spaced ttl expires times
    → visit_all ttl token times (put_session token (encoded d) expires sessions)
      ≡ map (λ t. ok d) times
visit_all-put ttl expires token d [] sessions h = refl
visit_all-put ttl expires token d (now ∷ later) sessions h =
    rw (validate-put now ttl expires token d sessions h.0) (
      ap (λ rs. ok d ∷ rs)
        (visit_all-put ttl (now + ttl) token d later
          (put_session token (encoded d) expires sessions) h.1))

-- A session that is used again before each expiry stays valid for ever, with the role and the
-- tenant it was created with, if Redis works.
pub create_session_lives :
    (now ttl : ℕ) (token role : String) (tenant : Uuid) (times : List Timestamp)
    (sessions : List SessionEntry)
    → Spaced ttl (now + ttl) times
    → visit_all ttl token times (create_session false false now ttl token role tenant sessions).1
      ≡ map (λ t. ok (record { role = role; tenant_id = tenant })) times
unfolding create_session
create_session_lives now ttl token role tenant times sessions h =
    visit_all-put ttl (now + ttl) token (record { role = role; tenant_id = tenant }) times sessions
      h

abbrev decode_found : Option SessionEntry → Result SessionError SessionData
decode_found none = err invalid_session
decode_found (some e) = decode_session e.stored

validate-found :
    (now ttl : ℕ) (token : String) (sessions : List SessionEntry)
    → (validate_session false now ttl token sessions).0
      ≡ decode_found (first_row (is_live now token) sessions)
unfolding validate_session
validate-found now ttl token sessions =
    elim (Option-cases (first_row (is_live now token) sessions)) [
      | inl e ↦ rw e refl
      | inr (entry, e) ↦ rw e refl
    ]

-- Once revoked, a token is refused at any time, and every other token gets what it got before.
pub revoke_session-gone :
    (now ttl : ℕ) (token : String) (sessions : List SessionEntry)
    → let after = (revoke_session false token sessions).1 in
      (validate_session false now ttl token after ≡ (err invalid_session, after))
      × ((other : String)
          → str_eq token other ≡ false
          → (validate_session false now ttl other after).0
            ≡ (validate_session false now ttl other sessions).0)
unfolding validate_session revoke_session
revoke_session-gone now ttl token sessions = (
  rw (without_token-gone now token sessions) refl,
  λ other ne.
      validate-found now ttl other (without_token token sessions)
      ∙ (ap decode_found (without_token-others now token other sessions ne)
          ∙ sym (validate-found now ttl other sessions)),
)
