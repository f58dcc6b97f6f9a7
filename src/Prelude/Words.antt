-- ===== src/Prelude/Words.antt =====
-- Machine words of 32 bits as native numbers below 2 ^ 32. A C `int` is its bit pattern: sums wrap
-- (gcc's x86 code does, where the standard leaves it open), and comparisons read the sign bit.
use Prim.Native.Nat.{ℕ, ◌+◌, ◌-◌, ◌*◌, ◌/◌, ◌%◌, ◌^◌}
use mathlib.Core.Bool.{Bool}
use tp2_so.Prelude.Tests.{ltb, leb, if◌then◌else◌}

abbrev pub add32 : ℕ → ℕ → ℕ
add32 a b = (a + b) % 2 ^ 32

abbrev pub sub32 : ℕ → ℕ → ℕ
sub32 a b = (a + 2 ^ 32 - b) % 2 ^ 32

abbrev pub mul32 : ℕ → ℕ → ℕ
mul32 a b = a * b % 2 ^ 32

-- The order of the signed readings: flip the sign bit and compare.
abbrev pub flip_sign : ℕ → ℕ
flip_sign a = (a + 2 ^ 31) % 2 ^ 32

abbrev pub slt32 : ℕ → ℕ → Bool
slt32 a b = ltb (flip_sign a) (flip_sign b)

abbrev pub sle32 : ℕ → ℕ → Bool
sle32 a b = leb (flip_sign a) (flip_sign b)

-- The bit pattern of -1.
abbrev pub minus_one : ℕ
minus_one = 2 ^ 32 - 1

-- Magnitude of a signed word, and signed division, which truncates towards 0.
abbrev pub mag32 : ℕ → ℕ
mag32 a = if ltb a (2 ^ 31) then a else 2 ^ 32 - a

abbrev pub sdiv32 : ℕ → ℕ → ℕ
sdiv32 a b =
    let q = mag32 a / mag32 b in
    if ltb a (2 ^ 31)
    then (if ltb b (2 ^ 31) then q else sub32 0 q)
    else (if ltb b (2 ^ 31) then sub32 0 q else q % 2 ^ 32)
