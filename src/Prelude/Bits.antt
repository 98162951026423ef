-- ===== src/Prelude/Bits.antt =====
-- Laws of `bit_and` at variables: the masks that the decoder and the passes use.
use Prim.Native.Nat.{
  digits, bit_and-bitwise, ℕ, zero, suc, ◌+◌, ◌-◌, ◌*◌, ◌/◌, ◌%◌, ◌≤◌, ◌^◌, min, bit_and,
}
use mathlib.Core.Path.{◌≡◌, refl, ◌∙◌}
use native.Mathlib.Omega.{arith}

-- The first `rounds` binary digits of a conjunction, as the native operation is specified.
abbrev conj : (rounds x m : ℕ) → ℕ
conj rounds x m = digits (λ _. zero) min rounds x m

-- One more round changes nothing once every digit of `x` is read.
conj_extra : (r x m : ℕ) → x ≤ r → conj (suc r) x m ≡ conj r x m
conj_extra zero zero m h = refl
conj_extra zero (suc x) m h = absurd (omega arith)
conj_extra (suc r) zero m h = refl
conj_extra (suc r) (suc x) m h = omega (arith, conj_extra r (suc x / 2) (m / 2) (omega arith))

conj_enough : (extra r t x m : ℕ) → t ≡ extra + r → x ≤ r → conj t x m ≡ conj r x m
conj_enough zero r t x m e h = let q : t ≡ r = omega arith in rw q refl
conj_enough (suc extra) r zero x m e h = absurd (omega arith)
conj_enough (suc extra) r (suc t) x m e h =
    conj_extra t x m (omega arith) ∙ conj_enough extra r t x m (omega arith) h

-- The lowest digit of a conjunction, and the rest.
lowest_digit : (x m : ℕ) → bit_and x m ≡ bit_and (x / 2) (m / 2) * 2 + min (x % 2) (m % 2)
lowest_digit zero m = omega (arith, bit_and-bitwise 0 m, bit_and-bitwise 0 (m / 2))
lowest_digit (suc x) m =
    let half : ℕ = suc x / 2 in
    omega (
      arith,
      bit_and-bitwise (suc x) m,
      bit_and-bitwise half (m / 2),
      conj_enough (x - half) half x half (m / 2) (omega arith) (omega arith),
    )

conj_nothing : (r x : ℕ) → x ≤ r → conj r x 0 ≡ 0
conj_nothing zero zero h = refl
conj_nothing zero (suc x) h = absurd (omega arith)
conj_nothing (suc r) zero h = refl
conj_nothing (suc r) (suc x) h = omega (arith, conj_nothing r (suc x / 2) (omega arith))

empty_mask : (x : ℕ) → bit_and x 0 ≡ 0
empty_mask x = bit_and-bitwise x 0 ∙ conj_nothing x x (omega arith)

low_bit : (x : ℕ) → bit_and x 1 ≡ x % 2
low_bit x = omega (arith, lowest_digit x 1, empty_mask (x / 2))

low_two_bits : (x : ℕ) → bit_and x 3 ≡ x % 4
low_two_bits x = omega (arith, lowest_digit x 3, low_bit (x / 2))

-- Code & 0x07.
pub class_mask : (a : ℕ) → bit_and a 0x07 ≡ a % 8
class_mask a = omega (arith, lowest_digit a 7, low_two_bits (a / 2))

-- A mask that ends in zeros looks at the higher bits.
even_mask : (a m h : ℕ) → h ≡ m / 2 → m % 2 ≡ 0 → bit_and a m ≡ 2 * bit_and (a / 2) h
even_mask a m h e z = rw e (omega (arith, lowest_digit a m))

odd_mask : (a m h : ℕ) → h ≡ m / 2 → m % 2 ≡ 1 → bit_and a m ≡ 2 * bit_and (a / 2) h + a % 2
odd_mask a m h e z = rw e (omega (arith, lowest_digit a m))

-- Code & 0xe0: the mode of a load.
pub mode_mask : (a : ℕ) → bit_and a 0xe0 ≡ 32 * (a / 32 % 8)
mode_mask a = omega (
  arith,
  even_mask a 0xe0 0x70 refl refl,
  even_mask (a / 2) 0x70 0x38 refl refl,
  even_mask (a / 2 / 2) 0x38 0x1c refl refl,
  even_mask (a / 2 / 2 / 2) 0x1c 0x0e refl refl,
  even_mask (a / 2 / 2 / 2 / 2) 0x0e 0x07 refl refl,
  class_mask (a / 2 / 2 / 2 / 2 / 2),
)

-- Code & 0xe7: class and mode.
pub class_mode_mask : (a : ℕ) → bit_and a 0xe7 ≡ 32 * (a / 32 % 8) + a % 8
class_mode_mask a = omega (
  arith,
  odd_mask a 0xe7 0x73 refl refl,
  odd_mask (a / 2) 0x73 0x39 refl refl,
  odd_mask (a / 2 / 2) 0x39 0x1c refl refl,
  even_mask (a / 2 / 2 / 2) 0x1c 0x0e refl refl,
  even_mask (a / 2 / 2 / 2 / 2) 0x0e 0x07 refl refl,
  class_mask (a / 2 / 2 / 2 / 2 / 2),
)

conj_le : (r x m : ℕ) → conj r x m ≤ x
conj_le zero x m = omega arith
conj_le (suc r) zero m = omega arith
conj_le (suc r) (suc x) m = omega (arith, conj_le r (suc x / 2) (m / 2))

-- A conjunction is at most its left side.
pub bit_and_le : (x m : ℕ) → bit_and x m ≤ x
bit_and_le x m = omega (arith, bit_and-bitwise x m, conj_le x x m)

comm_below : (n x m : ℕ) → x ≤ n → m ≤ n → bit_and x m ≡ bit_and m x
comm_below zero zero zero h k = refl
comm_below zero x m h k = omega (
  arith,
  lowest_digit x m,
  lowest_digit m x,
  bit_and_le (x / 2) (m / 2),
  bit_and_le (m / 2) (x / 2),
)
comm_below (suc n) x m h k = omega (
  arith,
  lowest_digit x m,
  lowest_digit m x,
  comm_below n (x / 2) (m / 2) (omega arith) (omega arith),
)

pub bit_and_comm : (x m : ℕ) → bit_and x m ≡ bit_and m x
bit_and_comm x m = comm_below (x + m) x m (omega arith) (omega arith)

-- Code & 0xff: the low byte.
low_byte : (a : ℕ) → bit_and a 0xff ≡ a % 256
low_byte a = omega (
  arith,
  odd_mask a 0xff 0x7f refl refl,
  odd_mask (a / 2) 0x7f 0x3f refl refl,
  odd_mask (a / 2 / 2) 0x3f 0x1f refl refl,
  odd_mask (a / 2 / 2 / 2) 0x1f 0x0f refl refl,
  odd_mask (a / 2 / 2 / 2 / 2) 0x0f 0x07 refl refl,
  class_mask (a / 2 / 2 / 2 / 2 / 2),
)

nibble_up : (a m : ℕ) → bit_and a (m * 16) ≡ 16 * bit_and (a / 16) m
nibble_up a m =
    let same : a / 2 / 2 / 2 / 2 ≡ a / 16 = omega arith in
    rw (← same) (
      omega (
        arith,
        even_mask a (m * 16) (m * 8) (omega arith) (omega arith),
        even_mask (a / 2) (m * 8) (m * 4) (omega arith) (omega arith),
        even_mask (a / 2 / 2) (m * 4) (m * 2) (omega arith) (omega arith),
        even_mask (a / 2 / 2 / 2) (m * 2) m (omega arith) (omega arith),
      ))

byte_up : (a m : ℕ) → bit_and a (m * 256) ≡ 256 * bit_and (a / 256) m
byte_up a m =
    let same : a / 16 / 16 ≡ a / 256 = omega arith in
    let twice : m * 16 * 16 ≡ m * 256 = omega arith in
    rw (← same, ← twice) (omega (arith, nibble_up a (m * 16), nibble_up (a / 16) m))

-- Code & 0xff000000: the high byte of a word.
pub high_byte : (a : ℕ) → bit_and a 0xff000000 ≡ 2 ^ 24 * (a / 2 ^ 24 % 256)
high_byte a = omega (
  arith,
  byte_up a 0xff0000,
  byte_up (a / 256) 0xff00,
  byte_up (a / 256 / 256) 0xff,
  low_byte (a / 256 / 256 / 256),
)
