-- ===== src/Api/Validation/Agreement.antt =====
-- The validator of the HTTP layer and the one at the head of CreateTransaction agree.
use ledger_pro.Service.Ledger.{CreateTransactionRequest, validate_request}
use ledger_pro.Service.Ledger.Safety.{leg_debit, leg_credit}
use ledger_pro.Service.Ledger.Validation.{IsLeg, add64-total, validate_request_iff}
use ledger_pro.Api.Validation.{
  key_errors, description_errors, count_errors, leg_errors, add_debit, add_credit, check_legs,
  balance_errors, validate_create_transaction_request,
}
use ledger_pro.Prelude.{
  ℕ, ◌+◌, ◌%◌, ◌≤◌, ◌<◌, String, ◌≡◌, refl, subst, ◌∙◌, ◌↔◌, inl, inr, false, List, [], ◌∷◌, ◌++◌,
  arith, str_eq, eq_iff, Bool-cases, All, total, length, All-map,
}
use ledger_pro.Prelude.Int.{int64_max, int64_size}
use ledger_pro.Db.Models.{PostingEntry}
use ledger_pro.Db.Tables.{ok}
use ledger_pro.Prelude.Text.{rune_count}

-- A leg that the HTTP layer accepts: its account id is a positive int64, too.
abbrev pub IsApiLeg : PostingEntry → Type 0
IsApiLeg p = IsLeg p × (0 < p.account_id) × (p.account_id ≤ int64_max)

append-eq-nil {ℓ} : {A : Type ℓ} (xs ys : List A) → xs ++ ys ≡ [] → (xs ≡ []) × (ys ≡ [])
append-eq-nil [] ys h = (refl, h)
append-eq-nil (x ∷ xs) ys h = absurd (cc)

nil-append-nil {ℓ} : {A : Type ℓ} (xs ys : List A) → xs ≡ [] → ys ≡ [] → xs ++ ys ≡ []
nil-append-nil xs ys h k = rw (h, k)

leg_errors_iff : (i : ℕ) (p : PostingEntry) → (leg_errors i p ≡ []) ↔ IsApiLeg p
leg_errors_iff i p = (λ h. ground arith, λ h. ground arith)

add_debit-total :
    (d t : ℕ) (p : PostingEntry)
    → d < int64_size
    → (add_debit d p < int64_size)
      × ((add_debit d p + t) % int64_size ≡ (d + (leg_debit p + t)) % int64_size)
add_debit-total d t p h = ground (arith, add64-total d p.amount t)

add_credit-total :
    (k t : ℕ) (p : PostingEntry)
    → k < int64_size
    → (add_credit k p < int64_size)
      × ((add_credit k p + t) % int64_size ≡ (k + (leg_credit p + t)) % int64_size)
add_credit-total k t p h = ground (arith, add64-total k p.amount t)

check_legs-sums :
    (i : ℕ) (ps : List PostingEntry) (d k : ℕ)
    → d < int64_size
    → k < int64_size
    → ((check_legs i ps d k).1 ≡ (d + total leg_debit ps) % int64_size)
      × ((check_legs i ps d k).2 ≡ (k + total leg_credit ps) % int64_size)
unfolding check_legs
check_legs-sums i [] d k hd hk = (omega arith, omega arith)
check_legs-sums i (p ∷ ps) d k hd hk =
    let (bd, ed) = add_debit-total d (total leg_debit ps) p hd in
    let (bk, ek) = add_credit-total k (total leg_credit ps) p hk in
    let (rd, rk) = check_legs-sums (i + 1) ps (add_debit d p) (add_credit k p) bd bk in
    (rd ∙ ed, rk ∙ ek)

check_legs_iff :
    (i : ℕ) (ps : List PostingEntry) (d k : ℕ) → ((check_legs i ps d k).0 ≡ []) ↔ All IsApiLeg ps
unfolding check_legs
check_legs_iff i [] d k = (λ h. tt, λ h. refl)
check_legs_iff i (p ∷ ps) d k =
    let later = check_legs_iff (i + 1) ps (add_debit d p) (add_credit k p) in
    let rest = (check_legs (i + 1) ps (add_debit d p) (add_credit k p)).0 in
    (
      λ h.
          let (mine, others) = append-eq-nil (leg_errors i p) rest h in
          ((leg_errors_iff i p).0 mine, later.0 others),
      λ h. nil-append-nil (leg_errors i p) rest ((leg_errors_iff i p).1 h.0) (later.1 h.1),
    )

-- What the HTTP layer asks of a transaction request.
pub record IsAcceptable (req : CreateTransactionRequest) : Type 0 where
  pub key : (1 ≤ rune_count req.idempotency_key) × (rune_count req.idempotency_key ≤ 255)
  pub description : rune_count req.description ≤ 1000
  pub count : (2 ≤ length req.postings) × (length req.postings ≤ 100)
  pub legs : All IsApiLeg req.postings
  pub sums : total leg_debit req.postings % int64_size ≡ total leg_credit req.postings % int64_size

key_errors_iff : (k : String) → (key_errors k ≡ []) ↔ ((1 ≤ rune_count k) × (rune_count k ≤ 255))
key_errors_iff k = (λ h. ground arith, λ h. ground arith)

description_errors_iff : (t : String) → (description_errors t ≡ []) ↔ (rune_count t ≤ 1000)
description_errors_iff t = (λ h. ground arith, λ h. ground arith)

count_errors_iff : (n : ℕ) → (count_errors n ≡ []) ↔ ((2 ≤ n) × (n ≤ 100))
count_errors_iff n = (λ h. ground arith, λ h. ground arith)

balance_errors_iff : (n d k : ℕ) → 2 ≤ n → (balance_errors n d k ≡ []) ↔ (d ≡ k)
balance_errors_iff n d k two = (λ h. ground arith, λ h. ground arith)

-- ValidateCreateTransactionRequest finds no error in exactly the requests with a key of 1 to 255
-- characters, a description of at most 1000, 2 to 100 legs, each with a positive amount, a
-- positive account id and a direction, whose debit and credit sums agree modulo 2 ^ 64.
pub validate_create_transaction_request_iff :
    (req : CreateTransactionRequest)
    → (validate_create_transaction_request req ≡ []) ↔ IsAcceptable req
unfolding validate_create_transaction_request
validate_create_transaction_request_iff req =
    let (sd, sk) = check_legs-sums 0 req.postings 0 0 (omega arith) (omega arith) in
    (
      λ h.
          let (ek, h1) = append-eq-nil (key_errors req.idempotency_key) _ h in
          let (et, h2) = append-eq-nil (description_errors req.description) _ h1 in
          let (ec, h3) = append-eq-nil (count_errors (length req.postings)) _ h2 in
          let (el, eb) = append-eq-nil (check_legs 0 req.postings 0 0).0 _ h3 in
          let counts = (count_errors_iff (length req.postings)).0 ec in
          record {
            key = (key_errors_iff req.idempotency_key).0 ek;
            description = (description_errors_iff req.description).0 et;
            count = counts;
            legs = (check_legs_iff 0 req.postings 0 0).0 el;
            sums =
                omega (arith, sd, sk, (balance_errors_iff (length req.postings) _ _ counts.0).0 eb);
          },
      λ a. nil-append-nil _ _ ((key_errors_iff req.idempotency_key).1 a.key) (
          nil-append-nil _ _ ((description_errors_iff req.description).1 a.description) (
            nil-append-nil _ _ ((count_errors_iff (length req.postings)).1 a.count) (
              nil-append-nil _ _ ((check_legs_iff 0 req.postings 0 0).1 a.legs) (
                (balance_errors_iff (length req.postings) _ _ a.count.0).1
                  (omega (arith, sd, sk, a.sums)))))),
    )

has_key : (k : String) → 1 ≤ rune_count k → str_eq k "" ≡ false
has_key k h = elim (Bool-cases (str_eq k "")) [
  | inl e ↦ absurd (omega (arith, subst (λ t. 1 ≤ rune_count t) ((eq_iff k "").0 e) h))
  | inr e ↦ e
]

-- A request that passes the validator of the HTTP layer passes the validation of the service, so
-- CreateTransaction answers none of its validation errors to such a request.
pub validators_agree :
    (req : CreateTransactionRequest)
    → validate_create_transaction_request req ≡ []
    → validate_request req ≡ ok tt
validators_agree req h =
    let a = (validate_create_transaction_request_iff req).0 h in
    (validate_request_iff req).1 (
      has_key req.idempotency_key a.key.0,
      a.count.0,
      All-map (λ p leg. leg.0) req.postings a.legs,
      a.sums,
    )
