-- ===== src/Prelude/Text.antt =====
-- Texts that the program builds and reads: concatenation, decimal numbers, and character codes.
use Prim.Native.Char.{code}
use Prim.Native.String.{String, ◌++◌ as append, count}
use Prim.Native.Nat.{ℕ, zero, suc, ◌/◌, ◌%◌}
use mathlib.Core.Bool.{Bool, true, false, ◌&&◌}
use mathlib.Core.Option.{Option, none, some}
use mathlib.Core.List.{List, [], ◌∷◌}
use ledger_pro.Prelude.Tests.{ltb, ◌==◌, if◌then◌else◌}
use ledger_pro.Prelude.Int.{ℤ, pos, negsuc}

infixr 60 ◌<>◌
abbrev pub ◌<>◌ : String → String → String
s <> t = append s t

-- utf8.RuneCountInString
abbrev pub rune_count : String → ℕ
rune_count s = count s

abbrev pub codes : String → List ℕ
codes String.[] = []
codes (String.◌∷◌ c s) = code c ∷ codes s

abbrev pub eq_codes : List ℕ → List ℕ → Bool
eq_codes [] [] = true
eq_codes [] (d ∷ ds) = false
eq_codes (c ∷ cs) [] = false
eq_codes (c ∷ cs) (d ∷ ds) = (c == d) && eq_codes cs ds

-- What follows a prefix: strings.HasPrefix and strings.TrimPrefix in one.
unfoldable pub strip_prefix : String → String → Option String
strip_prefix String.[] s = some s
strip_prefix (String.◌∷◌ c p) String.[] = none
strip_prefix (String.◌∷◌ c p) (String.◌∷◌ d s) =
    let rest = strip_prefix p s in if code c == code d then rest else none

abbrev pub digit : ℕ → String
digit zero = "0"
digit (suc zero) = "1"
digit (suc (suc zero)) = "2"
digit (suc (suc (suc zero))) = "3"
digit (suc (suc (suc (suc zero)))) = "4"
digit (suc (suc (suc (suc (suc zero))))) = "5"
digit (suc (suc (suc (suc (suc (suc zero)))))) = "6"
digit (suc (suc (suc (suc (suc (suc (suc zero))))))) = "7"
digit (suc (suc (suc (suc (suc (suc (suc (suc zero)))))))) = "8"
digit (suc (suc (suc (suc (suc (suc (suc (suc (suc n))))))))) = "9"

-- %d of a number below 10 ^ fuel.
unfoldable pub decimal_digits : ℕ → ℕ → String
decimal_digits zero n = ""
decimal_digits (suc fuel) n =
    let front = decimal_digits fuel (n / 10) in
    if ltb n 10 then digit n else front <> digit (n % 10)

-- Twenty digits are enough for an int64.
unfoldable pub decimal : ℕ → String
unfolding decimal_digits
decimal n = decimal_digits 20 n

unfoldable pub decimal_ℤ : ℤ → String
unfolding decimal
decimal_ℤ (pos n) = decimal n
decimal_ℤ (negsuc n) = "-" <> decimal (suc n)
