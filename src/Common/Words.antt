-- ===== src/Common/Words.antt =====
-- The unsigned machine words of `include/jasmine.h` as native numbers below a power of two.
use Prim.Native.Nat.{ℕ, ◌+◌, ◌-◌, ◌%◌}

-- A value stored into a UINT16.
abbrev pub u16 : ℕ → ℕ
u16 x = x % 65536

-- A value stored into a UINT32.
abbrev pub u32 : ℕ → ℕ
u32 x = x % 4294967296

-- UINT16 `a - b` and UINT32 `a - b`, for words `b`.
abbrev pub sub16 : ℕ → ℕ → ℕ
sub16 a b = (a + 65536 - b) % 65536

abbrev pub sub32 : ℕ → ℕ → ℕ
sub32 a b = (a + 4294967296 - b) % 4294967296

-- INVALID
abbrev pub invalid : ℕ
invalid = 4294967295
