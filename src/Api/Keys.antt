-- ===== src/Api/Keys.antt =====
-- cmd/server/main.go: loadAPIKeys, on the text of the variable API_KEYS.
pub mod Usable
use Prim.Native.Char.{Char, code}
use Prim.Native.String
use ledger_pro.Api.Access.{ApiKeyEntry}
use ledger_pro.Prelude.{
  ℕ, String, Bool, not, ◌&&◌, ◌||◌, Option, none, some, List, [], ◌∷◌, str_eq, leb, ◌==◌,
  if◌then◌else◌, where_rows,
}

abbrev pub cons_first : Char → List String → List String
cons_first c [] = String.◌∷◌ c "" ∷ []
cons_first c (s ∷ ss) = String.◌∷◌ c s ∷ ss

-- strings.Split on a character.
unfoldable pub split_on : ℕ → String → List String
split_on d String.[] = "" ∷ []
split_on d (String.◌∷◌ c s) =
    let rest = split_on d s in if code c == d then "" ∷ rest else cons_first c rest

-- unicode.IsSpace
abbrev pub is_space : ℕ → Bool
is_space c =
    (leb 9 c && leb c 13)
    || (c == 32)
    || (c == 133)
    || (c == 160)
    || (c == 5760)
    || (leb 8192 c && leb c 8202)
    || (c == 8232)
    || (c == 8233)
    || (c == 8239)
    || (c == 8287)
    || (c == 12288)

unfoldable pub trim_left : String → String
trim_left String.[] = ""
trim_left (String.◌∷◌ c s) =
    let rest = trim_left s in if is_space (code c) then rest else String.◌∷◌ c s

unfoldable pub trim_right : String → String
trim_right String.[] = ""
trim_right (String.◌∷◌ c s) =
    let rest = trim_right s in if str_eq rest "" && is_space (code c) then "" else String.◌∷◌ c rest

-- strings.TrimSpace
abbrev pub trim_space : String → String
trim_space s = trim_right (trim_left s)

-- SplitN at the first colon, where there is one.
unfoldable pub cut_colon : String → Option (String × String)
cut_colon String.[] = none
cut_colon (String.◌∷◌ c s) =
    let rest = cut_colon s in
    if code c == 58
    then some ("", s)
    else elim rest [ none ↦ none | some parts ↦ some (String.◌∷◌ c parts.0, parts.1) ]

-- keys[key] = …: an entry of the same key is replaced.
abbrev pub put_key : ApiKeyEntry → List ApiKeyEntry → List ApiKeyEntry
put_key e keys = e ∷ where_rows (λ k. not (str_eq k.key e.key)) keys

abbrev pub add_pair : Option (String × String) → List ApiKeyEntry → List ApiKeyEntry
add_pair none keys = keys
add_pair (some parts) keys =
    let key = trim_space parts.0 in
    let role = trim_space parts.1 in
    if not (str_eq key "") && not (str_eq role "")
    then put_key (record { key = key; role = role }) keys
    else keys

unfoldable pub add_pairs : List String → List ApiKeyEntry → List ApiKeyEntry
add_pairs [] keys = keys
add_pairs (pair ∷ pairs) keys = add_pairs pairs (add_pair (cut_colon (trim_space pair)) keys)

unfoldable pub load_api_keys : String → List ApiKeyEntry
load_api_keys raw = if str_eq raw "" then [] else add_pairs (split_on 44 raw) []
