-- ===== src/Prelude/Ints.antt =====
-- Signed integers over the native numbers, and the arithmetic of a 64-bit one.
use Prim.Native.Nat.{ℕ, zero, suc, ◌+◌, ◌-◌, ◌*◌, ◌/◌, ◌%◌, ◌^◌}
use mathlib.Core.Bool.{Bool, false}
use mathlib.Core.Option.{Option, none, some}
use pktbaffle.Prelude.Tests.{ltb, leb, ◌==◌, if◌then◌else◌}

pub data ℤ : Type 0 where
  pos negsuc : ℕ → ℤ

infixl 30 ◌+ℤ◌ ◌-ℤ◌ ◌-ℕ◌
infixl 40 ◌*ℤ◌ ◌/ℤ◌
-- Minus a natural number.
abbrev pub negℕ : ℕ → ℤ
negℕ zero = pos 0
negℕ (suc n) = negsuc n

-- The difference of two natural numbers.
abbrev pub ◌-ℕ◌ : ℕ → ℕ → ℤ
a -ℕ b = if leb b a then pos (a - b) else negsuc (b - a - 1)

abbrev pub negate : ℤ → ℤ
negate (pos n) = negℕ n
negate (negsuc n) = pos (suc n)

abbrev pub ◌+ℤ◌ : ℤ → ℤ → ℤ
pos a +ℤ pos b = pos (a + b)
pos a +ℤ negsuc b = a -ℕ suc b
negsuc a +ℤ pos b = b -ℕ suc a
negsuc a +ℤ negsuc b = negsuc (suc (a + b))

abbrev pub ◌-ℤ◌ : ℤ → ℤ → ℤ
a -ℤ b = a +ℤ negate b

abbrev pub ◌*ℤ◌ : ℤ → ℤ → ℤ
pos a *ℤ pos b = pos (a * b)
pos a *ℤ negsuc b = negℕ (a * suc b)
negsuc a *ℤ pos b = negℕ (suc a * b)
negsuc a *ℤ negsuc b = pos (suc a * suc b)

-- Division rounds towards zero.
abbrev pub ◌/ℤ◌ : ℤ → ℤ → ℤ
pos a /ℤ pos b = pos (a / b)
pos a /ℤ negsuc b = negℕ (a / suc b)
negsuc a /ℤ pos b = negℕ (suc a / b)
negsuc a /ℤ negsuc b = pos (suc a / suc b)

abbrev pub ==ℤ : ℤ → ℤ → Bool
==ℤ (pos a) (pos b) = a == b
==ℤ (negsuc a) (negsuc b) = a == b
==ℤ _ _ = false

-- Between `- 2 ^ (w - 1)` and `2 ^ (w - 1) - 1`, for the half range `2 ^ (w - 1)`.
abbrev pub in_range : ℕ → ℤ → Bool
in_range half (pos n) = ltb n half
in_range half (negsuc n) = ltb n half

-- A result of a checked operation on `i64`.
abbrev pub checked : ℤ → Option ℤ
checked z = if in_range (2 ^ 63) z then some z else none

-- The two's complement of 64 bits, both ways.
abbrev pub to_bits : ℤ → ℕ
to_bits (pos n) = n
to_bits (negsuc n) = 2 ^ 64 - 1 - n

abbrev pub of_bits : ℕ → ℤ
of_bits n = if ltb n (2 ^ 63) then pos n else negsuc (2 ^ 64 - 1 - n)

abbrev pub bitwise : (ℕ → ℕ → ℕ) → ℤ → ℤ → ℤ
bitwise op a b = of_bits (op (to_bits a) (to_bits b))

-- `<<` drops the bits that leave the word; `>>` keeps the sign.
abbrev pub shift_left : ℤ → ℕ → ℤ
shift_left z r = of_bits (to_bits z * 2 ^ r % 2 ^ 64)

abbrev pub shift_right : ℤ → ℕ → ℤ
shift_right (pos n) r = pos (n / 2 ^ r)
shift_right (negsuc n) r = negsuc (n / 2 ^ r)
