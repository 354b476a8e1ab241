-- ===== src/Service/Sessions.antt =====
-- internal/service/auth.go: AuthService, on the entries that Redis holds under `session:` keys.
pub mod Lifetime
use ledger_pro.Prelude.{
  ℕ, ◌+◌, String, Bool, not, ◌&&◌, ◌||◌, none, some, List, ◌∷◌, str_eq, ltb, if◌then◌else◌,
  where_rows, first_row,
}
use ledger_pro.Db.Models.{Uuid, Timestamp}
use ledger_pro.Db.Tables.{Result, ok, err}

pub record SessionData : Type 0 where
  pub role : String
  pub tenant_id : Uuid

-- What is stored under a token: the JSON of a SessionData, or a text that json.Unmarshal refuses,
-- as the sessions of older versions have.
pub data StoredSession : Type 0 where
  encoded : SessionData → StoredSession
  plain_text : String → StoredSession

pub record SessionEntry : Type 0 where
  pub token : String
  pub stored : StoredSession
  pub expires : Timestamp

pub data SessionError : Type 0 where
  invalid_session : SessionError
  random_failed store_failed pipeline_failed delete_failed unmarshal_failed : SessionError

abbrev pub has_token : String → SessionEntry → Bool
has_token token e = str_eq e.token token

abbrev pub is_live : Timestamp → String → SessionEntry → Bool
is_live now token e = has_token token e && ltb now e.expires

abbrev pub without_token : String → List SessionEntry → List SessionEntry
without_token token sessions = where_rows (λ e. not (has_token token e)) sessions

-- SET key value EX ttl
abbrev pub put_session : String → StoredSession → Timestamp → List SessionEntry → List SessionEntry
put_session token stored expires sessions =
    record { token = token; stored = stored; expires = expires } ∷ without_token token sessions

-- The token comes from crypto/rand, which may fail, as may the call of Redis.
unfoldable pub create_session :
    Bool
    → Bool
    → Timestamp
    → ℕ
    → String
    → String
    → Uuid
    → List SessionEntry
    → Result SessionError String × List SessionEntry
create_session random_fails store_fails now ttl token role tenant sessions =
    if random_fails
    then (err random_failed, sessions)
    else if store_fails
    then (err store_failed, sessions)
    else (
      ok token,
      put_session token (encoded (record { role = role; tenant_id = tenant })) (now + ttl) sessions,
    )

-- json.Unmarshal, and the fallback for the plain roles.
unfoldable pub decode_session : StoredSession → Result SessionError SessionData
decode_session (encoded d) = ok d
decode_session (plain_text role) =
    if str_eq role "admin" || str_eq role "write" || str_eq role "read"
    then ok (record { role = role; tenant_id = 0 })
    else err unmarshal_failed

-- GET and EXPIRE in one pipeline: EXPIRE prolongs the entry that GET found, also where its value
-- does not decode. A pipeline that fails is taken to have changed nothing.
unfoldable pub validate_session :
    Bool
    → Timestamp
    → ℕ
    → String
    → List SessionEntry
    → Result SessionError SessionData × List SessionEntry
validate_session pipeline_fails now ttl token sessions =
    if pipeline_fails
    then (err pipeline_failed, sessions)
    else elim (first_row (is_live now token) sessions) [
      | none ↦ (err invalid_session, sessions)
      | some e ↦ (decode_session e.stored, put_session token e.stored (now + ttl) sessions)
    ]

unfoldable pub revoke_session :
    Bool → String → List SessionEntry → Result SessionError (Unit {0}) × List SessionEntry
revoke_session delete_fails token sessions =
    if delete_fails then (err delete_failed, sessions) else (ok tt, without_token token sessions)
