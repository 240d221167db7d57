-- ===== src/Base/Word.antt =====
-- Unsigned machine words: the value kept by a store, and a counter's step.
use Prim.Native.Nat.{ℕ, ◌+◌, ◌-◌, ◌%◌, ◌^◌}

abbrev pub u8 : ℕ → ℕ
u8 x = x % 2 ^ 8

abbrev pub u16 : ℕ → ℕ
u16 x = x % 2 ^ 16

-- `uint16_t a - b` for `b` at most 2^16.
abbrev pub sub16 : ℕ → ℕ → ℕ
sub16 a b = (a + 2 ^ 16 - b) % 2 ^ 16

-- `c++` of an `unsigned long`.
abbrev pub inc : ℕ → ℕ
inc c = (c + 1) % 2 ^ 64

-- `c += n` of an `unsigned long`.
abbrev pub add64 : ℕ → ℕ → ℕ
add64 c n = (c + n) % 2 ^ 64

-- `c++` of an `int`, kept as its 32-bit pattern.
abbrev pub inc_int : ℕ → ℕ
inc_int c = (c + 1) % 2 ^ 32
