-- ===== src/Common/Int.antt =====
-- Go's signed integers: a value of `int` or `int64` is an integer whose range is stated where it matters.
use Prim.Native.Nat.{ℕ, zero, suc, ◌+◌, ◌-◌, ◌*◌, ◌/◌, ◌%◌, ◌^◌}
use mathlib.Core.Bool.{Bool, true, false, not}
use audit_logging.Common.Tests.{ltb, if◌then◌else◌}

-- `negsuc n` is -(n + 1).
pub data ℤ : Type 0 where
  pos : ℕ → ℤ
  negsuc : ℕ → ℤ

-- `a < b`
abbrev pub ltb_ℤ : ℤ → ℤ → Bool
ltb_ℤ (pos a) (pos b) = ltb a b
ltb_ℤ (pos a) (negsuc b) = false
ltb_ℤ (negsuc a) (pos b) = true
ltb_ℤ (negsuc a) (negsuc b) = ltb b a

-- `a <= b`
abbrev pub leb_ℤ : ℤ → ℤ → Bool
leb_ℤ a b = not (ltb_ℤ b a)

-- The number that an integer is, or 0 for a negative one.
abbrev pub pos_part : ℤ → ℕ
pos_part (pos n) = n
pos_part (negsuc n) = 0

-- The words of 64 bits, and the integers that they stand for in two's complement.
abbrev pub word_of : ℤ → ℕ
word_of (pos n) = n % 2 ^ 64
word_of (negsuc n) = 2 ^ 64 - 1 - n % 2 ^ 64

abbrev pub int64_of : ℕ → ℤ
int64_of n =
    if ltb (n % 2 ^ 64) (2 ^ 63) then pos (n % 2 ^ 64) else negsuc (2 ^ 64 - 1 - n % 2 ^ 64)

-- `a + b`, `a - b` and `k * a` in int64, with their wrap-around
unfoldable pub add_int64 : ℤ → ℤ → ℤ
add_int64 a b = int64_of (word_of a + word_of b)

unfoldable pub sub_int64 : ℤ → ℤ → ℤ
sub_int64 a b = int64_of (word_of a + (2 ^ 64 - word_of b))

unfoldable pub scale_int64 : ℕ → ℤ → ℤ
scale_int64 k a = int64_of (k * word_of a)

-- `a / 2`, which drops the fraction of a negative number too
abbrev pub half_ℤ : ℤ → ℤ
half_ℤ (pos n) = pos (n / 2)
half_ℤ (negsuc zero) = pos 0
half_ℤ (negsuc (suc n)) = negsuc (n / 2)
