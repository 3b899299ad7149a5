-- ===== src/Common/Word.antt =====
-- Machine words as native numbers: casts, wrapping arithmetic, shifts, and the sign of an
-- `int32_t`, which is kept as its bit pattern.
use lamp_vm.Common.Tests.{ℕ, ◌+◌, ◌-◌, ◌*◌, ◌/◌, ◌%◌, ◌^◌, Bool, false, ltb, leb, if◌then◌else◌}

abbrev pub u8 : ℕ → ℕ
u8 n = n % 2 ^ 8

abbrev pub u16 : ℕ → ℕ
u16 n = n % 2 ^ 16

abbrev pub u32 : ℕ → ℕ
u32 n = n % 2 ^ 32

abbrev pub u64 : ℕ → ℕ
u64 n = n % 2 ^ 64

-- Wrapping operations of `uint32_t`, which are also those of `int32_t` patterns.
abbrev pub add32 : ℕ → ℕ → ℕ
add32 a b = (a + b) % 2 ^ 32

abbrev pub sub32 : ℕ → ℕ → ℕ
sub32 a b = (a + 2 ^ 32 - b) % 2 ^ 32

abbrev pub mul32 : ℕ → ℕ → ℕ
mul32 a b = (a * b) % 2 ^ 32

abbrev pub not32 : ℕ → ℕ
not32 a = 2 ^ 32 - 1 - a

infixl 75 ◌<<<◌ ◌>>>◌
abbrev pub ◌<<<◌ : ℕ → ℕ → ℕ
x <<< k = x * 2 ^ k

abbrev pub ◌>>>◌ : ℕ → ℕ → ℕ
x >>> k = x / 2 ^ k

-- `(int32_t) w < 0` and `(int32_t) w > 0` of a pattern below 2 ^ 32.
abbrev pub is_neg : ℕ → Bool
is_neg w = leb (2 ^ 31) w

abbrev pub is_pos : ℕ → Bool
is_pos w = if is_neg w then false else ltb 0 w

-- The value of a pattern, moved up by 2 ^ 31 so that it is a natural number: signed order is the
-- order of these.
abbrev pub biased : ℕ → ℕ
biased w = if is_neg w then w - 2 ^ 31 else w + 2 ^ 31
