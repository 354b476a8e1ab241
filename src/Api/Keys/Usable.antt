-- ===== src/Api/Keys/Usable.antt =====
-- cmd/server/main.go, internal/api/middleware.go: what the loaded keys are good for.
use ledger_pro.Api.Access.{ApiKeyEntry, Identity, find_key, key_identity, require_role}
use ledger_pro.Api.Keys.{split_on, trim_space, cut_colon, add_pair, add_pairs, load_api_keys}
use ledger_pro.Prelude.{
  String, ◌≡◌, refl, sym, ap, subst, ◌∙◌, ◌⊎◌, inl, inr, false, not, Option, none, some, List, [],
  ◌∷◌, str_eq, eq_iff, Bool-cases, All, where_rows, exists_row,
}
use ledger_pro.Db.Tables.{ok, err}
use ledger_pro.Prelude.Text.{◌<>◌}
use ledger_pro.Api.Problem.{ProblemDetail, forbidden}

-- Neither the key nor the role is empty.
abbrev pub IsUsable : ApiKeyEntry → Type 0
IsUsable e = (str_eq e.key "" ≡ false) × (str_eq e.role "" ≡ false)

others-Usable :
    (key : String) (keys : List ApiKeyEntry)
    → All IsUsable keys
    → All IsUsable (where_rows (λ k. not (str_eq k.key key)) keys)
others-Usable key [] h = tt
others-Usable key (e ∷ es) h = elim (Bool-cases (str_eq e.key key)) [
  | inl q ↦ rw q (others-Usable key es h.1)
  | inr q ↦ rw q (h.0, others-Usable key es h.1)
]

add_pair-Usable :
    (parts : Option (String × String)) (keys : List ApiKeyEntry)
    → All IsUsable keys
    → All IsUsable (add_pair parts keys)
add_pair-Usable none keys h = h
add_pair-Usable (some parts) keys h = elim (Bool-cases (str_eq (trim_space parts.0) "")) [
  | inl e ↦ rw e h
  | inr e ↦ elim (Bool-cases (str_eq (trim_space parts.1) "")) [
    | inl e' ↦ rw (e, e') h
    | inr e' ↦ rw (e, e') ((e, e'), others-Usable (trim_space parts.0) keys h)
  ]
]

add_pairs-Usable :
    (pairs : List String) (keys : List ApiKeyEntry)
    → All IsUsable keys
    → All IsUsable (add_pairs pairs keys)
unfolding add_pairs
add_pairs-Usable [] keys h = h
add_pairs-Usable (p ∷ ps) keys h =
    add_pairs-Usable ps (add_pair (cut_colon (trim_space p)) keys)
      (add_pair-Usable (cut_colon (trim_space p)) keys h)

load_api_keys-Usable : (raw : String) → All IsUsable (load_api_keys raw)
unfolding load_api_keys
load_api_keys-Usable raw = elim (Bool-cases (str_eq raw "")) [
  | inl e ↦ rw e tt
  | inr e ↦ rw e (add_pairs-Usable (split_on 44 raw) [] tt)
]

same_entry : (a b : ApiKeyEntry) → some a ≡ some b → a ≡ b
same_entry a b h = cc

found-Usable :
    (key : String) (keys : List ApiKeyEntry) (e : ApiKeyEntry)
    → All IsUsable keys
    → find_key key keys ≡ some e
    → IsUsable e
found-Usable key [] e h found = cc
found-Usable key (k ∷ ks) e h found = elim (Bool-cases (str_eq k.key key)) [
  | inl q ↦ let same : k ≡ e = same_entry k e (rw q at found) in subst IsUsable same h.0
  | inr q ↦ found-Usable key ks e h.1 (rw q at found)
]

found-key :
    (key : String) (keys : List ApiKeyEntry) (e : ApiKeyEntry)
    → find_key key keys ≡ some e
    → e.key ≡ key
found-key key [] e found = cc
found-key key (k ∷ ks) e found = elim (Bool-cases (str_eq k.key key)) [
  | inl q ↦ ap (λ x. x.key) (sym (same_entry k e (rw q at found))) ∙ (eq_iff k.key key).0 q
  | inr q ↦ found-key key ks e (rw q at found)
]

abbrev pub identity_of : ApiKeyEntry → Identity
identity_of e = record { role = e.role; tenant_id = 0 }

require_role-named :
    (allowed : List String) (who : Identity)
    → str_eq who.role "" ≡ false
    → (require_role allowed who ≡ ok who)
      ⊎ ((p : ProblemDetail) × (require_role allowed who ≡ err p) × (p.status ≡ 403))
unfolding require_role
require_role-named allowed who named =
    elim (Bool-cases (exists_row (λ r. str_eq r who.role) allowed)) [
      | inl e ↦ inl (rw (named, e) refl)
      | inr e ↦ inr (
        forbidden ("role '" <> (who.role <> "' does not have permission for this operation")),
        rw (named, e) refl,
        refl,
      )
    ]

-- Whatever the text of API_KEYS, a key that is found among the loaded ones authenticates with its
-- role and the default tenant, and a role check lets it through or answers 403, never 401: no
-- loaded key and no loaded role is empty.
pub load_api_keys_authenticate :
    (raw key : String) (e : ApiKeyEntry) (allowed : List String)
    → find_key key (load_api_keys raw) ≡ some e
    → (key_identity (load_api_keys raw) key ≡ ok (identity_of e))
      × ((require_role allowed (identity_of e) ≡ ok (identity_of e))
          ⊎ ((p : ProblemDetail) × (require_role allowed (identity_of e) ≡ err p)
              × (p.status ≡ 403)))
unfolding key_identity
load_api_keys_authenticate raw key e allowed found =
    let usable = found-Usable key (load_api_keys raw) e (load_api_keys-Usable raw) found in
    let named =
      subst (λ k. str_eq k "" ≡ false) (found-key key (load_api_keys raw) e found) usable.0 in
    (rw (named, found) refl, require_role-named allowed (identity_of e) usable.1)
