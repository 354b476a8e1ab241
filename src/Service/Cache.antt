-- ===== src/Service/Cache.antt =====
-- The idempotency entries that internal/service/ledger.go keeps in Redis, under
-- ledger:idempotency:<tenant>:<key>, and the response that they hold.
use ledger_pro.Prelude.{
  ℕ, ◌+◌, String, ◌≡◌, refl, Bool, true, not, ◌&&◌, Option, none, some, List, [], ◌∷◌, str_eq,
  eq_iff, ltb, ◌==◌, if◌then◌else◌, ==-refl, where_rows,
}
use ledger_pro.Db.Models.{Uuid, Timestamp}
use ledger_pro.Db.Postings.{PostingRow}

pub record TransactionResponse : Type 0 where
  pub id : Uuid
  pub idempotency_key : String
  pub description : String
  pub metadata : String
  pub postings : List PostingRow
  pub created_at : Timestamp

-- What a key holds: the JSON of a response, or a text that does not decode to one.
pub data Cached : Type 0 where
  response : TransactionResponse → Cached
  other_text : String → Cached

pub record CacheEntry : Type 0 where
  pub tenant : Uuid
  pub key : String
  pub value : Cached
  pub expires : Option Timestamp

abbrev pub is_entry : Uuid → String → CacheEntry → Bool
is_entry t k e = (e.tenant == t) && str_eq e.key k

abbrev pub is_live : Timestamp → Option Timestamp → Bool
is_live now none = true
is_live now (some at) = ltb now at

-- GET: an entry past its expiry is gone.
unfoldable pub cache_get : Timestamp → Uuid → String → List CacheEntry → Option Cached
cache_get now t k [] = none
cache_get now t k (e ∷ es) =
    if is_entry t k e && is_live now e.expires then some e.value else cache_get now t k es

-- An expiration of zero keeps the key for ever.
abbrev pub expiry : Timestamp → ℕ → Option Timestamp
expiry now ttl = if ttl == 0 then none else some (now + ttl)

-- SET replaces the entry and its expiry.
unfoldable pub cache_set :
    Timestamp → ℕ → Uuid → String → Cached → List CacheEntry → List CacheEntry
cache_set now ttl t k v es =
    record { tenant = t; key = k; value = v; expires = expiry now ttl }
    ∷ where_rows (λ e. not (is_entry t k e)) es

-- What was set is read back until it expires.
pub cache_get-set :
    (now later ttl : ℕ) (t : Uuid) (k : String) (v : Cached) (es : List CacheEntry)
    → is_live later (expiry now ttl) ≡ true
    → cache_get later t k (cache_set now ttl t k v es) ≡ some v
unfolding cache_get cache_set
cache_get-set now later ttl t k v es h = rw (==-refl t, (eq_iff k k).1 refl, h)
