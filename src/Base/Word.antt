-- ===== src/Base/Word.antt =====
-- Unsigned words: casts to the fixed widths, shifts with what they drop, wrapping arithmetic.
use Prim.Native.Nat.{ℕ, ◌-◌, ◌*◌, ◌/◌, ◌%◌, ◌^◌}

abbrev pub u8 : ℕ → ℕ
u8 n = n % 2 ^ 8

abbrev pub u32 : ℕ → ℕ
u32 n = n % 2 ^ 32

abbrev pub u64 : ℕ → ℕ
u64 n = n % 2 ^ 64

abbrev pub u32_max : ℕ
u32_max = 2 ^ 32 - 1

abbrev pub u64_max : ℕ
u64_max = 2 ^ 64 - 1

-- `x >> k`.
infixl 75 ◌>>>◌ ◌<<32◌ ◌<<64◌
abbrev pub ◌>>>◌ : ℕ → ℕ → ℕ
x >>> k = x / 2 ^ k

-- `x << k` on a u32 and on a u64: the bits above the width are dropped.
abbrev pub ◌<<32◌ : ℕ → ℕ → ℕ
x <<32 k = u32 (x * 2 ^ k)

abbrev pub ◌<<64◌ : ℕ → ℕ → ℕ
x <<64 k = u64 (x * 2 ^ k)
