-- ===== src/Word.antt =====
-- Go's 64-bit integers: `int64`, `int` and `time.Duration` are integers that wrap around,
-- `uint64` is a number below 2^64, and a conversion keeps the bits.
use go_cache.Prelude.{
  ℕ, zero, suc, ◌+◌, ◌-◌, ◌*◌, ◌/◌, ◌%◌, ◌≤◌, ◌<◌, ◌≡◌, ltb, if◌then◌else◌, arith,
}
use go_cache.Prelude.Int.{ℤ, pos, negsuc, pos_part, neg_part, ◌+ℤ◌, ◌-ℤ◌}

-- 2^64 and 2^63.
abbrev pub word_mod : ℕ
word_mod = 18446744073709551616

abbrev pub sign_bit : ℕ
sign_bit = 9223372036854775808

-- `uint64(a)`: the bits of an integer, in two's complement.
unfoldable pub to_uint64 : ℤ → ℕ
to_uint64 (pos n) = n % word_mod
to_uint64 (negsuc n) = word_mod - 1 - n % word_mod

-- The integer that 64 bits stand for.
of_bits : ℕ → ℤ
of_bits m = if ltb m sign_bit then pos m else negsuc (word_mod - 1 - m)

-- `int64(n)`: the low 64 bits of a number, read as a signed integer.
unfoldable pub to_int64 : ℕ → ℤ
unfolding of_bits
to_int64 n = of_bits (n % word_mod)

unfoldable pub add64 : ℤ → ℤ → ℤ
unfolding to_int64 to_uint64
add64 a b = to_int64 (to_uint64 a + to_uint64 b)

unfoldable pub sub64 : ℤ → ℤ → ℤ
unfolding to_int64 to_uint64
sub64 a b = to_int64 (to_uint64 a + (word_mod - to_uint64 b))

unfoldable pub mul64 : ℤ → ℤ → ℤ
unfolding to_int64 to_uint64
mul64 a b = to_int64 (to_uint64 a * to_uint64 b)

abbrev pub negate : ℕ → ℤ
negate zero = pos 0
negate (suc n) = negsuc n

-- `a / d` for a positive constant `d`: Go's division truncates towards 0.
unfoldable pub quot64 : ℤ → ℕ → ℤ
quot64 (pos n) d = pos (n / d)
quot64 (negsuc n) d = negate (suc n / d)

-- The integers that an `int64` holds.
abbrev pub IsInt64 : ℤ → Type 0
IsInt64 a = (pos_part a < sign_bit) × (neg_part a ≤ sign_bit)

-- A sum that fits does not wrap.
pub add64-exact : (a b : ℤ) → IsInt64 (a +ℤ b) → add64 a b ≡ a +ℤ b
unfolding add64 ◌+ℤ◌
add64-exact a b h = ground arith

pub sub64-exact : (a b : ℤ) → IsInt64 (a -ℤ b) → sub64 a b ≡ a -ℤ b
unfolding sub64 ◌-ℤ◌
sub64-exact a b h = ground arith

-- A sum always stays in the machine's range.
pub to_int64-IsInt64 : (n : ℕ) → IsInt64 (to_int64 n)
unfolding to_int64
to_int64-IsInt64 n = ground arith

pub to_int64-to_uint64 : (a : ℤ) → IsInt64 a → to_int64 (to_uint64 a) ≡ a
unfolding to_int64 to_uint64
to_int64-to_uint64 a h = ground arith

pub to_uint64-to_int64 : (n : ℕ) → n < word_mod → to_uint64 (to_int64 n) ≡ n
unfolding to_int64 to_uint64
to_uint64-to_int64 n h = ground arith
