-- ===== src/Prelude/Parse.antt =====
-- Go's strconv.ParseInt (base 10, 64 bits) and Atoi on a 64-bit machine, and the bits of an int64.
use Prim.Native.Nat.{ℕ, ◌+◌, ◌-◌, ◌*◌, ◌%◌}
use Prim.Native.String.{String}
use mathlib.Core.Bool.{Bool, true, false, ◌&&◌}
use mathlib.Core.List.{List, [], ◌∷◌}
use ledger_pro.Prelude.Tests.{ltb, leb, ◌==◌, if◌then◌else◌}
use ledger_pro.Prelude.Int.{ℤ, pos, negsuc, sub_ℕ, int64_max, int64_size}
use ledger_pro.Prelude.Text.{codes}

-- The value that the call returns, and whether the error that it returns is nil. The value is 0
-- with a syntax error, and the nearest int64 with a range error.
pub record ParsedInt : Type 0 where
  pub value : ℤ
  pub valid : Bool

pub data ParsedUint : Type 0 where
  parsed : ℕ → ParsedUint
  bad_syntax out_of_uint64 : ParsedUint

-- The digits from the left; the scan stops where the value leaves 64 bits.
unfoldable pub scan_digits : List ℕ → ℕ → ParsedUint
scan_digits [] n = parsed n
scan_digits (c ∷ cs) n =
    let m = n * 10 + (c - 48) in
    let rest = scan_digits cs m in
    if leb 48 c && leb c 57 then if ltb m int64_size then rest else out_of_uint64 else bad_syntax

unfoldable pub parse_uint : List ℕ → ParsedUint
unfolding scan_digits
parse_uint [] = bad_syntax
parse_uint (c ∷ cs) = scan_digits (c ∷ cs) 0

abbrev pub within_int64 : Bool → ParsedUint → ParsedInt
within_int64 negative bad_syntax = record { value = pos 0; valid = false }
within_int64 false out_of_uint64 = record { value = pos int64_max; valid = false }
within_int64 true out_of_uint64 = record { value = negsuc int64_max; valid = false }
within_int64 false (parsed n) =
    if leb n int64_max
    then record { value = pos n; valid = true }
    else record { value = pos int64_max; valid = false }
within_int64 true (parsed n) =
    if leb n (int64_max + 1)
    then record { value = sub_ℕ 0 n; valid = true }
    else record { value = negsuc int64_max; valid = false }

abbrev pub parse_signed : List ℕ → ParsedInt
parse_signed [] = within_int64 false bad_syntax
parse_signed (c ∷ cs) =
    if c == 43
    then within_int64 false (parse_uint cs)
    else if c == 45
    then within_int64 true (parse_uint cs)
    else within_int64 false (parse_uint (c ∷ cs))

unfoldable pub parse_int : String → ParsedInt
unfolding parse_uint
parse_int s = parse_signed (codes s)

-- The bits of an int64.
abbrev pub bits64 : ℤ → ℕ
bits64 (pos n) = n
bits64 (negsuc n) = int64_size - n - 1

abbrev pub int32_size : ℕ
int32_size = 4294967296

abbrev pub signed32 : ℕ → ℤ
signed32 a = if ltb a 2147483648 then pos a else negsuc (int32_size - a - 1)

-- The conversion int32(n): the low 32 bits.
abbrev pub to_int32 : ℤ → ℤ
to_int32 (pos n) = signed32 (n % int32_size)
to_int32 (negsuc n) = signed32 (int32_size - 1 - n % int32_size)
