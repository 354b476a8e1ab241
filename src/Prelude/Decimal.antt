-- ===== src/Prelude/Decimal.antt =====
-- Reading back what strconv.FormatInt prints: strconv.ParseInt on the decimal digits of a number.
use Prim.Native.Nat.{ℕ, zero, suc, ◌+◌, ◌-◌, ◌*◌, ◌/◌, ◌%◌, ◌^◌, ◌≤◌, ◌<◌}
use Prim.Native.Char.{code}
use Prim.Native.String.append
use Prim.Native.String.{String}
use mathlib.Core.Path.{◌≡◌, refl, sym, ap, ◌∙◌}
use mathlib.Core.Bool.{true}
use mathlib.Core.Logic.{inl, inr}
use mathlib.Core.List.{List, [], ◌∷◌, ◌++◌}
use native.Mathlib.Nat.{pow-succ'}
use native.Mathlib.Omega.{arith}
use ledger_pro.Prelude.Tests.{ltb, ltb→lt, Bool-cases}
use ledger_pro.Prelude.Int.{pos, int64_max, int64_size}
use ledger_pro.Prelude.Text.{◌<>◌, codes, digit, decimal_digits, decimal}
use ledger_pro.Prelude.Parse.{ParsedInt, parsed, scan_digits, parse_uint, parse_signed, parse_int}

codes-append : (s t : String) → codes (s <> t) ≡ codes s ++ codes t
codes-append String.[] t = ap codes (append.nil t)
codes-append (String.◌∷◌ c s) t =
    ap codes (append.cons c s t) ∙ ap (λ r. code c ∷ r) (codes-append s t)

div_mod : (n : ℕ) → n / 10 * 10 + n % 10 ≡ n
div_mod n = omega arith

-- One more digit.
scan_digits-cons :
    (c : ℕ) (cs : List ℕ) (n : ℕ)
    → 48 ≤ c
    → c ≤ 57
    → n * 10 + (c - 48) < int64_size
    → scan_digits (c ∷ cs) n ≡ scan_digits cs (n * 10 + (c - 48))
unfolding scan_digits
scan_digits-cons c cs n lo hi fits = ground (arith, lo, hi, fits)

-- What a scan that went through says of its first character.
scan_digits-head :
    (c : ℕ) (cs : List ℕ) (n m : ℕ)
    → scan_digits (c ∷ cs) n ≡ parsed m
    → (48 ≤ c) × (c ≤ 57) × (n * 10 + (c - 48) < int64_size)
unfolding scan_digits
scan_digits-head c cs n m h = ground (arith, h)

same_number : (n m : ℕ) → parsed n ≡ parsed m → n ≡ m
same_number n m h = cc

-- A scan goes on where it stopped.
scan_digits-append :
    (xs ys : List ℕ) (n m : ℕ)
    → scan_digits xs n ≡ parsed m
    → scan_digits (xs ++ ys) n ≡ scan_digits ys m
unfolding scan_digits
scan_digits-append [] ys n m h = ap (scan_digits ys) (same_number n m h)
scan_digits-append (c ∷ xs) ys n m h =
    let (lo, hi, fits) = scan_digits-head c xs n m h in
    scan_digits-cons c (xs ++ ys) n lo hi fits
    ∙ scan_digits-append xs ys (n * 10 + (c - 48)) m (sym (scan_digits-cons c xs n lo hi fits) ∙ h)

codes-digit : (d : ℕ) → d < 10 → codes (digit d) ≡ (48 + d) ∷ []
codes-digit zero h = refl
codes-digit (suc zero) h = refl
codes-digit (suc (suc zero)) h = refl
codes-digit (suc (suc (suc zero))) h = refl
codes-digit (suc (suc (suc (suc zero)))) h = refl
codes-digit (suc (suc (suc (suc (suc zero))))) h = refl
codes-digit (suc (suc (suc (suc (suc (suc zero)))))) h = refl
codes-digit (suc (suc (suc (suc (suc (suc (suc zero))))))) h = refl
codes-digit (suc (suc (suc (suc (suc (suc (suc (suc zero)))))))) h = refl
codes-digit (suc (suc (suc (suc (suc (suc (suc (suc (suc zero))))))))) h = refl
codes-digit (suc (suc (suc (suc (suc (suc (suc (suc (suc (suc n)))))))))) h =
    absurd (omega (arith, h))

scan_digits-digit :
    (d n : ℕ)
    → d < 10
    → n * 10 + d < int64_size
    → scan_digits (codes (digit d)) n ≡ parsed (n * 10 + d)
unfolding scan_digits
scan_digits-digit d n small fits = rw (codes-digit d small) (
    scan_digits-cons (48 + d) [] n (omega arith) (omega (arith, small)) (omega (arith, fits))
    ∙ ap parsed (omega arith))

scan_digits-decimal_digits :
    (fuel n : ℕ)
    → n < 10 ^ fuel
    → n < int64_size
    → scan_digits (codes (decimal_digits fuel n)) 0 ≡ parsed n
unfolding scan_digits decimal_digits
scan_digits-decimal_digits zero n small fits = ap parsed (omega (arith, small))
scan_digits-decimal_digits (suc fuel) n small fits = elim (Bool-cases (ltb n 10)) [
  | inl e ↦
      rw e (scan_digits-digit n 0 (ltb→lt n 10 e) (omega (arith, fits)) ∙ ap parsed (omega arith))
  | inr e ↦
      let front = decimal_digits fuel (n / 10) in
      let below : n < 10 * 10 ^ fuel = rw (pow-succ' 10 fuel) at small in
      let ih =
        scan_digits-decimal_digits fuel (n / 10) (omega (arith, below)) (omega (arith, fits)) in
      rw e (
        rw (codes-append front (digit (n % 10))) (
          scan_digits-append (codes front) (codes (digit (n % 10))) 0 (n / 10) ih
          ∙ (scan_digits-digit (n % 10) (n / 10) (omega arith) (rw (div_mod n) fits)
              ∙ ap parsed (div_mod n))))
]

snoc-cons : (xs : List ℕ) (y : ℕ) → (c : ℕ) × (cs : List ℕ) × (xs ++ y ∷ [] ≡ c ∷ cs)
snoc-cons [] y = (y, [], refl)
snoc-cons (x ∷ xs) y = (x, xs ++ y ∷ [], refl)

-- At least one digit is printed.
decimal_digits-cons :
    (fuel n : ℕ) → (c : ℕ) × (cs : List ℕ) × (codes (decimal_digits (suc fuel) n) ≡ c ∷ cs)
unfolding decimal_digits
decimal_digits-cons fuel n = elim (Bool-cases (ltb n 10)) [
  | inl e ↦ (48 + n, [], rw e (codes-digit n (ltb→lt n 10 e)))
  | inr e ↦
      let front = decimal_digits fuel (n / 10) in
      let (c, cs, h) = snoc-cons (codes front) (48 + n % 10) in
      (
        c,
        cs,
        rw e (rw (codes-append front (digit (n % 10))) (rw (codes-digit (n % 10) (omega arith)) h)),
      )
]

abbrev as_int64 : ℕ → ParsedInt
as_int64 n = record { value = pos n; valid = true }

parse_signed-digits :
    (xs : List ℕ) (c : ℕ) (cs : List ℕ) (n : ℕ)
    → xs ≡ c ∷ cs
    → scan_digits xs 0 ≡ parsed n
    → n ≤ int64_max
    → parse_signed xs ≡ as_int64 n
unfolding parse_uint
parse_signed-digits xs c cs n e h le =
    let scan : scan_digits (c ∷ cs) 0 ≡ parsed n = rw e at h in
    let (lo, hi, fits) = scan_digits-head c cs 0 n scan in rw e (ground (arith, lo, hi, scan, le))

-- ParseInt reads back what FormatInt has printed of a number that is not negative.
pub parse_int-decimal :
    (n : ℕ) → n ≤ int64_max → parse_int (decimal n) ≡ record { value = pos n; valid = true }
unfolding parse_int decimal
parse_int-decimal n h =
    let (c, cs, e) = decimal_digits-cons 19 n in
    parse_signed-digits (codes (decimal_digits 20 n)) c cs n e
      (scan_digits-decimal_digits 20 n (omega (arith, h)) (omega (arith, h))) h
