-- ===== src/Prelude/Int.antt =====
-- Signed integers over the native numbers, and Go's int64 as a bit pattern below 2 ^ 64.
use Prim.Native.Nat.{ℕ, suc, ◌+◌, ◌-◌, ◌%◌}
use mathlib.Core.Bool.{Bool, ◌||◌}
use ledger_pro.Prelude.Tests.{ltb, leb, ◌==◌, if◌then◌else◌}

-- `negsuc n` is -(n + 1).
pub data ℤ : Type 0 where
  pos : ℕ → ℤ
  negsuc : ℕ → ℤ

abbrev pub pos_part : ℤ → ℕ
pos_part (pos n) = n
pos_part (negsuc n) = 0

abbrev pub neg_part : ℤ → ℕ
neg_part (pos n) = 0
neg_part (negsuc n) = suc n

-- a - b, as an integer.
abbrev pub sub_ℕ : ℕ → ℕ → ℤ
sub_ℕ a b = if leb b a then pos (a - b) else negsuc (b - a - 1)

abbrev pub int64_max : ℕ
int64_max = 9223372036854775807

abbrev pub int64_size : ℕ
int64_size = 18446744073709551616

-- `a + b` on int64: the bits of the sum.
abbrev pub add64 : ℕ → ℕ → ℕ
add64 a b = (a + b) % int64_size

-- `a <= 0` on the int64 with bits `a`.
abbrev pub nonpositive64 : ℕ → Bool
nonpositive64 a = (a == 0) || ltb int64_max a

-- The number that the bits stand for.
abbrev pub signed64 : ℕ → ℤ
signed64 a = if leb a int64_max then pos a else negsuc (int64_size - a - 1)
