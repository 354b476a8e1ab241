-- ===== src/Api/Config/Started.antt =====
-- cmd/server/main.go, internal/api/router.go: the router that main starts, where API_KEYS has no
-- usable pair.
use ledger_pro.Api.Config.{Environment, get_env_int, Libraries, router_config}
use ledger_pro.Api.Server.{guard}
use ledger_pro.Api.Requests.{route_of, HttpRequest, Moment, World}
use Prim.Native.Char.{Char, code}
use ledger_pro.Api.Keys.{
  cons_first, split_on, is_space, trim_left, trim_right, trim_space, cut_colon, add_pairs,
  load_api_keys,
}
use ledger_pro.Api.Access as Access
use ledger_pro.Api.Access.{ApiKeyEntry, access}
use ledger_pro.Prelude.{
  ℕ, ◌≤◌, String, ◌≡◌, refl, inl, inr, Bool, false, ◌&&◌, ◌||◌, none, List, [], ◌∷◌, arith, str_eq,
  ◌==◌, Bool-cases, Option-cases, All,
}
use ledger_pro.Db.Tables.{ok}

abbrev pub has_code : ℕ → String → Bool
has_code d String.[] = false
has_code d (String.◌∷◌ c s) = (code c == d) || has_code d s

-- A text without the code, all its parts and its trimmed forms.
abbrev Lacks : ℕ → String → Type 0
Lacks d s = has_code d s ≡ false

Lacks-tail : (d : ℕ) (c : Char) (s : String) → Lacks d (String.◌∷◌ c s) → Lacks d s
Lacks-tail d c s h = ground arith

Lacks-head : (d : ℕ) (c : Char) (s : String) → Lacks d (String.◌∷◌ c s) → (code c == d) ≡ false
Lacks-head d c s h = ground arith

Lacks-cons :
    (d : ℕ) (c : Char) (s : String) → (code c == d) ≡ false → Lacks d s → Lacks d (String.◌∷◌ c s)
Lacks-cons d c s e h = ground (arith, e, h)

cons_first-Lacks :
    (d : ℕ) (c : Char) (ss : List String)
    → (code c == d) ≡ false
    → All (Lacks d) ss
    → All (Lacks d) (cons_first c ss)
cons_first-Lacks d c [] e h = (Lacks-cons d c "" e refl, tt)
cons_first-Lacks d c (s ∷ ss) e h = (Lacks-cons d c s e h.0, h.1)

split_on-Lacks : (d k : ℕ) (s : String) → Lacks d s → All (Lacks d) (split_on k s)
unfolding split_on
split_on-Lacks d k String.[] h = (refl, tt)
split_on-Lacks d k (String.◌∷◌ c s) h =
    let rest = split_on-Lacks d k s (Lacks-tail d c s h) in
    elim (Bool-cases (code c == k)) [
      | inl e ↦ rw e (refl, rest)
      | inr e ↦ rw e (cons_first-Lacks d c (split_on k s) (Lacks-head d c s h) rest)
    ]

trim_left-Lacks : (d : ℕ) (s : String) → Lacks d s → Lacks d (trim_left s)
unfolding trim_left
trim_left-Lacks d String.[] h = refl
trim_left-Lacks d (String.◌∷◌ c s) h = elim (Bool-cases (is_space (code c))) [
  | inl e ↦ rw e (trim_left-Lacks d s (Lacks-tail d c s h))
  | inr e ↦ rw e h
]

trim_right-Lacks : (d : ℕ) (s : String) → Lacks d s → Lacks d (trim_right s)
unfolding trim_right
trim_right-Lacks d String.[] h = refl
trim_right-Lacks d (String.◌∷◌ c s) h =
    let rest = trim_right-Lacks d s (Lacks-tail d c s h) in
    elim (Bool-cases (str_eq (trim_right s) "" && is_space (code c))) [
      | inl e ↦ rw e refl
      | inr e ↦ rw e (Lacks-cons d c (trim_right s) (Lacks-head d c s h) rest)
    ]

cut_colon-none : (s : String) → Lacks 58 s → cut_colon s ≡ none
unfolding cut_colon
cut_colon-none String.[] h = refl
cut_colon-none (String.◌∷◌ c s) h =
    rw (Lacks-head 58 c s h) (rw (cut_colon-none s (Lacks-tail 58 c s h)) refl)

add_pairs-none :
    (pairs : List String) (keys : List ApiKeyEntry)
    → All (Lacks 58) pairs
    → add_pairs pairs keys ≡ keys
unfolding add_pairs
add_pairs-none [] keys h = refl
add_pairs-none (p ∷ ps) keys h =
    rw
      (cut_colon-none (trim_space p) (trim_right-Lacks 58 (trim_left p) (trim_left-Lacks 58 p h.0)))
      (add_pairs-none ps keys h.1)

pub load_api_keys-none : (raw : String) → has_code 58 raw ≡ false → load_api_keys raw ≡ []
unfolding load_api_keys
load_api_keys-none raw h = elim (Bool-cases (str_eq raw "")) [
  | inl e ↦ rw e refl
  | inr e ↦ rw e (add_pairs-none (split_on 44 raw) [] (split_on-Lacks 58 44 raw h))
]

-- A server that main starts with a text of API_KEYS that has no colon, as a key without its role,
-- has loaded no key: every request of every route comes through the guards to the handler, with
-- whatever cookie and key or none, as the default tenant and with no role check.
pub router_config_open :
    (lib : Libraries) (env : Environment) (m : Moment) (req : HttpRequest) (w : World)
    → has_code 58 (env "API_KEYS") ≡ false
    → guard (router_config lib env) m req w ≡ (ok Access.anonymous, w.sessions)
unfolding guard access
router_config_open lib env m req w h =
    let none_loaded = load_api_keys-none (env "API_KEYS") h in
    elim (Option-cases (route_of req.target)) [
      | inl r ↦ rw (r, none_loaded, guard) refl
      | inr (route, r) ↦ rw (r, none_loaded, guard) refl
    ]

-- The limit that main configures is positive, whatever the variable says.
pub get_env_int_positive :
    (env : Environment) (key : String) (fallback : ℕ)
    → 1 ≤ fallback
    → 1 ≤ get_env_int env key fallback
unfolding get_env_int
get_env_int_positive env key fallback h = ground (arith, h)
