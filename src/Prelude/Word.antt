-- ===== src/Prelude/Word.antt =====
-- Unsigned machine words as numbers with their wrap-around written out.
use Prim.Native.Nat.{ℕ, ◌+◌, ◌-◌, ◌%◌, ◌^◌}

abbrev pub u64_mod : ℕ
u64_mod = 2 ^ 64

-- `~0ull`
abbrev pub u64_max : ℕ
u64_max = 2 ^ 64 - 1

-- `a + b` and `a - b` on `uint64_t` values.
abbrev pub add64 : ℕ → ℕ → ℕ
add64 a b = (a + b) % u64_mod

abbrev pub sub64 : ℕ → ℕ → ℕ
sub64 a b = (a + u64_mod - b) % u64_mod
