-- ===== src/Service/Ledger/Validation.antt =====
-- Exactly which requests the validation at the head of CreateTransaction accepts.
use ledger_pro.Prelude.{
  ℕ, ◌+◌, ◌%◌, ◌≤◌, ◌<◌, ◌≡◌, ◌≢◌, ◌↔◌, inl, inr, true, false, List, [], ◌∷◌, arith, str_eq, All,
  total, length,
}
use ledger_pro.Prelude.Int.{int64_max, int64_size, add64}
use ledger_pro.Db.Models.{PostingEntry}
use ledger_pro.Db.Tables.{ok, Result-cases}
use ledger_pro.Db.Postings.{is_direction}
use ledger_pro.Service.Ledger.{CreateTransactionRequest, sum_legs, validate_request}
use ledger_pro.Service.Ledger.Safety.{leg_debit, leg_credit}

-- A leg with a positive int64 amount and one of the two directions.
abbrev pub IsLeg : PostingEntry → Type 0
IsLeg p = (0 < p.amount) × (p.amount ≤ int64_max) × (is_direction p.direction ≡ true)

pub add64-total : (a b t : ℕ) → (add64 a b + t) % int64_size ≡ (a + (b + t)) % int64_size
add64-total a b t = omega arith

sum_legs_complete :
    (ps : List PostingEntry) (d k : ℕ)
    → d < int64_size
    → k < int64_size
    → All IsLeg ps
    → sum_legs ps d k
      ≡ ok ((d + total leg_debit ps) % int64_size, (k + total leg_credit ps) % int64_size)
unfolding sum_legs
sum_legs_complete [] d k hd hk h = ground arith
sum_legs_complete (p ∷ ps) d k hd hk h = ground (
  arith,
  sum_legs_complete ps (add64 d p.amount) k,
  sum_legs_complete ps d (add64 k p.amount),
  add64-total d p.amount (total leg_debit ps),
  add64-total k p.amount (total leg_credit ps),
)

sum_legs_sound :
    (ps : List PostingEntry) (d k : ℕ) {r : ℕ × ℕ} → sum_legs ps d k ≡ ok r → All IsLeg ps
unfolding sum_legs
sum_legs_sound [] d k h = tt
sum_legs_sound (p ∷ ps) d k {r} h = ground (
  arith,
  sum_legs_sound ps (add64 d p.amount) k {r = r},
  sum_legs_sound ps d (add64 k p.amount) {r = r},
)

-- The validation of CreateTransaction accepts a request exactly when it has a key, two legs or
-- more, each with a positive amount and one of the two directions, and the debits and credits
-- agree modulo 2 ^ 64, which is where the int64 sums compare them.
pub validate_request_iff :
    (req : CreateTransactionRequest)
    → (validate_request req ≡ ok tt) ↔ (
        (str_eq req.idempotency_key "" ≡ false)
        × (2 ≤ length req.postings)
        × All IsLeg req.postings
        × (total leg_debit req.postings % int64_size ≡ total leg_credit req.postings % int64_size))
unfolding validate_request
validate_request_iff req = (
  λ h. elim (Result-cases (sum_legs req.postings 0 0)) [
    | inl (sums, e) ↦
        let legs = sum_legs_sound req.postings 0 0 e in
        let exact = sum_legs_complete req.postings 0 0 (omega arith) (omega arith) legs in
        (ground arith, ground arith, legs, ground arith)
    | inr (x, e) ↦ absurd (ground arith)
  ],
  λ h.
      let exact = sum_legs_complete req.postings 0 0 (omega arith) (omega arith) h.2 in
      ground arith,
)

-- What wraps around is accepted: a request of good legs whose debits exceed its credits by
-- exactly 2 ^ 64 passes the validation, though the two sides do not balance.
pub validate_request_wraps :
    (req : CreateTransactionRequest)
    → str_eq req.idempotency_key "" ≡ false
    → 2 ≤ length req.postings
    → All IsLeg req.postings
    → total leg_debit req.postings ≡ total leg_credit req.postings + int64_size
    → (validate_request req ≡ ok tt)
      × (total leg_debit req.postings ≢ total leg_credit req.postings)
validate_request_wraps req key two legs wrap_round =
    ((validate_request_iff req).1 (key, two, legs, omega arith), omega arith)
